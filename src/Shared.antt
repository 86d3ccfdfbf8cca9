-- ===== src/Shared.antt =====
-- The vendor's shared headers: the macros and inline functions of src/include/bcmendian.h and
-- src/include/bcmutils.h that have a body.
pub mod Octets
pub mod Endian
pub mod Errors
pub mod Modular
pub mod BitArray
pub mod Blocks
