-- ===== src/Shared/Modular.antt =====
-- Rounding and arithmetic modulo a bound, on unsigned words of 32 bits (src/include/bcmutils.h).
pub mod Agreement
use broadcom_bcm4312_fix.Prelude.{
  Bool, bit_and, if◌then◌else◌, leb, ltb, ℕ, ◌%◌, ◌*◌, ◌+◌, ◌-◌, ◌/◌, ◌==◌, ◌^◌,
}

-- Sum, difference and complement of unsigned words.
abbrev pub add32 : ℕ → ℕ → ℕ
add32 x y = (x + y) % 2 ^ 32

abbrev pub sub32 : ℕ → ℕ → ℕ
sub32 x y = (x + 2 ^ 32 - y) % 2 ^ 32

abbrev pub complement : ℕ → ℕ
complement x = 2 ^ 32 - 1 - x

unfoldable pub roundup : ℕ → ℕ → ℕ
roundup x y = add32 x (sub32 y 1) / y * y

unfoldable pub isaligned : ℕ → ℕ → Bool
isaligned a x = bit_and a (sub32 x 1) == 0

unfoldable pub align_size : ℕ → ℕ → ℕ
align_size size boundary = bit_and (sub32 (add32 size boundary) 1) (complement (sub32 boundary 1))

unfoldable pub moddec : ℕ → ℕ → ℕ
moddec x bound = if x == 0 then sub32 bound 1 else sub32 x 1

unfoldable pub modinc : ℕ → ℕ → ℕ
modinc x bound = if x == sub32 bound 1 then 0 else add32 x 1

unfoldable pub moddec_pow2 : ℕ → ℕ → ℕ
moddec_pow2 x bound = bit_and (sub32 x 1) (sub32 bound 1)

unfoldable pub modinc_pow2 : ℕ → ℕ → ℕ
modinc_pow2 x bound = bit_and (add32 x 1) (sub32 bound 1)

unfoldable pub modadd : ℕ → ℕ → ℕ → ℕ
modadd x y bound = if leb bound (add32 x y) then sub32 (add32 x y) bound else add32 x y

-- The test is on the difference of the words as ints, which does not overflow below 2 ^ 31.
unfoldable pub modsub : ℕ → ℕ → ℕ → ℕ
modsub x y bound = if ltb x y then add32 (sub32 x y) bound else sub32 x y

unfoldable pub modadd_pow2 : ℕ → ℕ → ℕ → ℕ
modadd_pow2 x y bound = bit_and (add32 x y) (sub32 bound 1)

unfoldable pub modsub_pow2 : ℕ → ℕ → ℕ → ℕ
modsub_pow2 x y bound = bit_and (sub32 x y) (sub32 bound 1)
