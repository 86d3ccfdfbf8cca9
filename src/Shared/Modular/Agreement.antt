-- ===== src/Shared/Modular/Agreement.antt =====
-- The two kinds of modular arithmetic of src/include/bcmutils.h agree, and what rounding gives.
use native.Mathlib.Nat.{
  suc-mul, div-lt_iff_lt-mul, mul-mod_left, div-add-mod', mod-lt, add-mod_right,
  add-mul-mod_self_right, mul-le-mul_right, mod-eq-sub-mod, mod-eq_of_lt,
}
use broadcom_bcm4312_fix.Prelude.{
  ==_iff, Bool-cases, ap, arith, bit_and, if◌then◌else◌, inl, inr, leb, ltb, subst, suc, sym, true,
  zero, ℕ, ◌%◌, ◌*◌, ◌+◌, ◌-◌, ◌/◌, ◌<◌, ◌^◌, ◌∙◌, ◌≡◌, ◌≤◌,
}
use broadcom_bcm4312_fix.Shared.Modular.{
  add32, align_size, complement, isaligned, modadd, modadd_pow2, moddec, moddec_pow2, modinc,
  modinc_pow2, modsub, modsub_pow2, roundup, sub32,
}
use broadcom_bcm4312_fix.Prelude.Bits.{pow2, pow2_positive}
use broadcom_bcm4312_fix.Prelude.Bits.Fields.{bit_and_low, bit_and_masked, pow2-add}

mod_once : (s b : ℕ) → 0 < b → s < 2 * b → s % b ≡ (if leb b s then s - b else s)
mod_once s b positive h = elim (Bool-cases (leb b s)) [
  | inl over ↦
      let reached : b ≤ s = ground arith in
      rw (over, mod-eq-sub-mod reached) (mod-eq_of_lt (omega arith))
  | inr under ↦ let short : s < b = ground arith in rw under (mod-eq_of_lt short)
]

-- What is left of a sum and of a difference modulo the bound.
modadd_sum : (x y b : ℕ) → b ≤ 2 ^ 31 → x < b → y < b → modadd x y b ≡ (x + y) % b
unfolding modadd
modadd_sum x y b small p q = ground (arith, mod_once (x + y) b)

modsub_sum : (x y b : ℕ) → b ≤ 2 ^ 31 → x < b → y < b → modsub x y b ≡ (x + b - y) % b
unfolding modsub
modsub_sum x y b small p q = ground (arith, mod_once (x + b - y) b)

modsub-modadd : (x y b : ℕ) → b ≤ 2 ^ 31 → x < b → y < b → modsub (modadd x y b) y b ≡ x
unfolding modsub modadd
modsub-modadd x y b small p q = ground arith

modinc_sum : (x b : ℕ) → b ≤ 2 ^ 31 → x < b → modinc x b ≡ (x + 1) % b
unfolding modinc
modinc_sum x b small p = ground (arith, mod_once (x + 1) b)

moddec_sum : (x b : ℕ) → b ≤ 2 ^ 31 → x < b → moddec x b ≡ (x + b - 1) % b
unfolding moddec
moddec_sum x b small p = ground (arith, mod_once (x + b - 1) b)

minus_product : (a b : ℕ) → (a - 1) * b ≡ a * b - b
minus_product zero b = omega arith
minus_product (suc n) b = let e : suc n - 1 ≡ n = omega arith in rw e (omega (arith, suc-mul n b))

two-le : (m : ℕ) → 1 ≤ m → 2 ≤ pow2 m
two-le zero h = absurd (omega arith)
two-le (suc m) h = omega (arith, pow2_positive m)

module _ (m k : ℕ) (width : m + k ≡ 32) where
  whole : pow2 m * pow2 k ≡ 2 ^ 32
  whole = sym (pow2-add m k) ∙ ap pow2 width

  bound-le : pow2 k ≤ 2 ^ 32
  bound-le = subst (λ n. pow2 k ≤ n) whole (grind (arith, pow2_positive m))

  minus_one : sub32 (pow2 k) 1 ≡ pow2 k - 1
  minus_one = omega (arith, bound-le, pow2_positive k)

  masked : (a : ℕ) → bit_and a (sub32 (pow2 k) 1) ≡ a % pow2 k
  masked a = ap (bit_and a) minus_one ∙ bit_and_low k a

  -- A word that wrapped keeps its low digits.
  wrapped : (a : ℕ) → (a + 2 ^ 32) % pow2 k ≡ a % pow2 k
  wrapped a =
      ap (λ (n : ℕ). (a + n) % pow2 k) (sym whole) ∙ add-mul-mod_self_right a (pow2 m) (pow2 k)

  low_digits : (n : ℕ) → n < 2 ^ 33 → n % 2 ^ 32 % pow2 k ≡ n % pow2 k
  low_digits n h = elim (Bool-cases (ltb n (2 ^ 32))) [
    | inl short ↦ ap (λ (r : ℕ). r % pow2 k) (mod-eq_of_lt (ground arith))
    | inr long ↦
        ap (λ (r : ℕ). r % pow2 k) (minus n (ground arith) h)
        ∙ sym (wrapped (n - 2 ^ 32))
        ∙ ap (λ (r : ℕ). r % pow2 k) (plus n (ground arith))
  ]
    where
      minus : (n : ℕ) → 2 ^ 32 ≤ n → n < 2 ^ 33 → n % 2 ^ 32 ≡ n - 2 ^ 32
      minus n low high = omega arith

      plus : (n : ℕ) → 2 ^ 32 ≤ n → n - 2 ^ 32 + 2 ^ 32 ≡ n
      plus n low = omega arith

  below_word : (x : ℕ) → x < pow2 k → x < 2 ^ 32
  below_word x p = omega (arith, bound-le)

  modadd_pow2_sum :
      (x y : ℕ) → x < pow2 k → y < pow2 k → modadd_pow2 x y (pow2 k) ≡ (x + y) % pow2 k
  unfolding modadd_pow2
  modadd_pow2_sum x y p q =
      masked (add32 x y) ∙ low_digits (x + y) (omega (arith, below_word x p, below_word y q))

  modsub_pow2_sum :
      (x y : ℕ) → x < pow2 k → y < pow2 k → modsub_pow2 x y (pow2 k) ≡ (x + pow2 k - y) % pow2 k
  unfolding modsub_pow2
  modsub_pow2_sum x y p q =
      masked (sub32 x y)
      ∙ low_digits (x + 2 ^ 32 - y) (omega (arith, below_word x p))
      ∙ sym (add-mod_right (x + 2 ^ 32 - y) (pow2 k))
      ∙ ap (λ (n : ℕ). n % pow2 k) (omega (arith, below_word y q))
      ∙ wrapped (x + pow2 k - y)

  modinc_pow2_sum : (x : ℕ) → x < pow2 k → modinc_pow2 x (pow2 k) ≡ (x + 1) % pow2 k
  unfolding modinc_pow2
  modinc_pow2_sum x p = masked (add32 x 1) ∙ low_digits (x + 1) (omega (arith, below_word x p))

  moddec_pow2_sum : (x : ℕ) → x < pow2 k → moddec_pow2 x (pow2 k) ≡ (x + pow2 k - 1) % pow2 k
  unfolding moddec_pow2
  moddec_pow2_sum x p =
      masked (sub32 x 1)
      ∙ low_digits (x + 2 ^ 32 - 1) (omega (arith, below_word x p))
      ∙ sym (add-mod_right (x + 2 ^ 32 - 1) (pow2 k))
      ∙ ap (λ (n : ℕ). n % pow2 k) (omega (arith, p))
      ∙ wrapped (x + pow2 k - 1)

  half_bound : 1 ≤ m → pow2 k ≤ 2 ^ 31
  half_bound h = omega (arith, whole, mul-le-mul_right (pow2 k) (two-le m h))

  -- For a bound 2 ^ k with k < 32 and numbers below it, the macros that mask with the bound give what
  -- those that compare with it give: for a sum, a difference and the two steps; these are the sum
  -- and the difference modulo the bound, and a difference takes a sum back.
  pub modular_agree :
      (x y : ℕ)
      → 1 ≤ m
      → x < pow2 k
      → y < pow2 k
      → (modadd_pow2 x y (pow2 k) ≡ modadd x y (pow2 k))
        × (modsub_pow2 x y (pow2 k) ≡ modsub x y (pow2 k))
        × (modinc_pow2 x (pow2 k) ≡ modinc x (pow2 k))
        × (moddec_pow2 x (pow2 k) ≡ moddec x (pow2 k))
        × (modadd x y (pow2 k) ≡ (x + y) % pow2 k)
        × (modsub (modadd x y (pow2 k)) y (pow2 k) ≡ x)
  modular_agree x y h p q =
      let small = half_bound h in
      (
        modadd_pow2_sum x y p q ∙ sym (modadd_sum x y (pow2 k) small p q),
        modsub_pow2_sum x y p q ∙ sym (modsub_sum x y (pow2 k) small p q),
        modinc_pow2_sum x p ∙ sym (modinc_sum x (pow2 k) small p),
        moddec_pow2_sum x p ∙ sym (moddec_sum x (pow2 k) small p),
        modadd_sum x y (pow2 k) small p q,
        modsub-modadd x y (pow2 k) small p q,
      )

  -- The complement of `bound - 1` is a mask of the high digits.
  high_mask : complement (sub32 (pow2 k) 1) ≡ (pow2 m - 1) * pow2 k
  high_mask = rw minus_one (omega (arith, whole, pow2_positive k, minus_product (pow2 m) (pow2 k)))

  align_size_quotient :
      (s : ℕ) → s + pow2 k ≤ 2 ^ 32 → align_size s (pow2 k) ≡ (s + pow2 k - 1) / pow2 k * pow2 k
  unfolding align_size
  align_size_quotient s fits =
      ap (bit_and (sub32 (add32 s (pow2 k)) 1)) high_mask
      ∙ ap (λ n. bit_and n ((pow2 m - 1) * pow2 k)) (omega (arith, pow2_positive k))
      ∙ bit_and_masked k m (s + pow2 k - 1)
      ∙ ap (λ (q : ℕ). q * pow2 k)
          (mod-eq_of_lt
            ((div-lt_iff_lt-mul (pow2_positive k)).1 (omega (arith, whole, fits, pow2_positive k))))

  roundup_quotient :
      (s : ℕ) → s + pow2 k ≤ 2 ^ 32 → roundup s (pow2 k) ≡ (s + pow2 k - 1) / pow2 k * pow2 k
  unfolding roundup
  roundup_quotient s fits =
      ap (λ (n : ℕ). n / pow2 k * pow2 k) (rw minus_one (omega (arith, pow2_positive k)))

  -- For an alignment 2 ^ k and a size that does not come near the end of the words, ALIGN_SIZE and
  -- ROUNDUP give the same: an aligned number that is not below the size, and less than the
  -- alignment above it.
  align_size-roundup :
      (s : ℕ)
      → s + pow2 k ≤ 2 ^ 32
      → (align_size s (pow2 k) ≡ roundup s (pow2 k))
        × (s ≤ roundup s (pow2 k))
        × (roundup s (pow2 k) < s + pow2 k)
        × (isaligned (roundup s (pow2 k)) (pow2 k) ≡ true)
  unfolding isaligned
  align_size-roundup s fits =
      let t = s + pow2 k - 1 in
      let whole_part = div-add-mod' t (pow2 k) in
      let rest = mod-lt t (pow2_positive k) in
      let r = roundup_quotient s fits in
      (
        align_size_quotient s fits ∙ sym r,
        omega (arith, r, whole_part, rest),
        omega (arith, r, whole_part, pow2_positive k),
        (==_iff _ _).1 (
            masked (roundup s (pow2 k))
            ∙ ap (λ (n : ℕ). n % pow2 k) r
            ∙ mul-mod_left (t / pow2 k) (pow2 k)),
      )
