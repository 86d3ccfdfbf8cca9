-- ===== src/Shared/BitArray.antt =====
-- Bits of an array of bytes: setbit, clrbit, isset and isclr (src/include/bcmutils.h).
pub mod Members
use broadcom_bcm4312_fix.Prelude.{
  Bool, bit_and, bit_or, get_or, not, set, ℕ, ◌%◌, ◌-◌, ◌/◌, ◌==◌, ◌^◌,
}
use broadcom_bcm4312_fix.Headers.{Bytes}

-- The byte of bit i, and `1 << (i % NBBY)`.
abbrev pub byte_of : Bytes → ℕ → ℕ
byte_of a i = get_or a (i / 8) 0

abbrev pub flag_of : ℕ → ℕ
flag_of i = 2 ^ (i % 8)

unfoldable pub setbit : Bytes → ℕ → Bytes
setbit a i = set a (i / 8) (bit_or (byte_of a i) (flag_of i) % 256)

unfoldable pub clrbit : Bytes → ℕ → Bytes
clrbit a i = set a (i / 8) (bit_and (byte_of a i) (2 ^ 32 - 1 - flag_of i) % 256)

unfoldable pub isset : Bytes → ℕ → Bool
isset a i = not (bit_and (byte_of a i) (flag_of i) == 0)

unfoldable pub isclr : Bytes → ℕ → Bool
isclr a i = bit_and (byte_of a i) (flag_of i) == 0
