-- ===== src/Shared/Blocks.antt =====
-- xor_128bit_block (src/include/bcmutils.h). The two branches read and write words of 32 bits, in the
-- machine's order, or bytes.
pub mod Agreement
use broadcom_bcm4312_fix.Prelude.{
  Bool, [], bit_xor, drop, get_or, if◌then◌else◌, suc, zero, ℕ, ◌++◌, ◌∷◌,
}
use broadcom_bcm4312_fix.Headers.{Bytes}
use broadcom_bcm4312_fix.Shared.Endian.{htol32_ua_store, ltoh32_ua}

-- `((uint32 *)dst)[k] = ((const uint32 *)src1)[k] ^ ((const uint32 *)src2)[k]`
unfoldable pub xor_words : ℕ → Bytes → Bytes → Bytes
xor_words zero src1 src2 = []
xor_words (suc n) src1 src2 =
    htol32_ua_store (bit_xor (ltoh32_ua src1) (ltoh32_ua src2))
    ++ xor_words n (drop 4 src1) (drop 4 src2)

-- `dst[k] = src1[k] ^ src2[k]`
unfoldable pub xor_bytes : ℕ → Bytes → Bytes → Bytes
xor_bytes zero src1 src2 = []
xor_bytes (suc n) src1 src2 =
    bit_xor (get_or src1 0 0) (get_or src2 0 0) ∷ xor_bytes n (drop 1 src1) (drop 1 src2)

-- The 16 bytes of `dst`; `aligned` is whether all three addresses are multiples of 4, or the machine
-- is an i386.
unfoldable pub xor_128bit_block : Bool → Bytes → Bytes → Bytes
xor_128bit_block aligned src1 src2 =
    if aligned then xor_words 4 src1 src2 else xor_bytes 16 src1 src2
