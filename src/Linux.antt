-- ===== src/Linux.antt =====
-- The Linux glue of the driver (src/wl/sys/wl_linux.c and wl_linux.h): its parts that keep a state of
-- their own, as they are where all work is passive (WL_ALL_PASSIVE_ENAB) or not.
pub mod Txq
pub mod Timer
pub mod Interfaces
pub mod Requests
pub mod Stats
pub mod Radiotap
pub mod Monitor
pub mod Interrupts
pub mod Attach
pub mod Power
pub mod Rfkill
pub mod Proc
pub mod Signal
pub mod Multicast
pub mod Received
