-- ===== src/Prelude/Bits/Fields.antt =====
-- Fields of digits of a number, under the C operators `&`, `|` and `^`.
use Prim.Native.Nat.{
  ℕ, zero, suc, ◌+◌, ◌-◌, ◌*◌, ◌/◌, ◌%◌, ◌≤◌, ◌<◌, differ, bit_and, bit_or, bit_xor, bit_or-bitwise,
}
use mathlib.Core.Path.{◌≡◌, refl, ap, subst, sym, ◌∙◌}
use native.Mathlib.Nat.{div-add-mod', mod-lt}
use native.Mathlib.Omega.{arith}
use broadcom_bcm4312_fix.Prelude.Bits.{
  pow2, pow2_positive, bit_and-split, bit_or-split, bit_and-zero, bit_or-zero, bit_and_step,
  bit_xor_step,
}

-- Two numbers without a common digit.
pub bit_or_disjoint : (k h m : ℕ) → m < pow2 k → bit_or (h * pow2 k) m ≡ h * pow2 k + m
bit_or_disjoint k h m q =
    ap (λ a. bit_or a m) (plus_zero (h * pow2 k))
    ∙ ap (bit_or (h * pow2 k + 0)) (no_high m (pow2 k))
    ∙ bit_or-split k h 0 0 m (pow2_positive k) q
    ∙ rw (bit_or-zero h, zero-bit_or m) refl
  where
    plus_zero : (a : ℕ) → a ≡ a + 0
    plus_zero a = omega arith

    no_high : (a p : ℕ) → a ≡ 0 * p + a
    no_high a p = grind arith

    zero-bit_or : (a : ℕ) → bit_or 0 a ≡ a
    zero-bit_or a = bit_or-bitwise 0 a

-- A mask of ones, and one that stands higher up.
bit_and_ones : (n l : ℕ) → l < pow2 n → bit_and l (pow2 n - 1) ≡ l
bit_and_ones zero l h = omega (arith, bit_and-zero l)
bit_and_ones (suc n) l h =
    bit_and_step l (pow2 (suc n) - 1)
    ∙ rw (ones_half (pow2 n) (pow2_positive n), ones_odd (pow2 n) (pow2_positive n))
        (omega (arith, bit_and_ones n (l / 2) (omega arith)))
  where
    ones_half : (p : ℕ) → 0 < p → (2 * p - 1) / 2 ≡ p - 1
    ones_half p h = omega arith

    ones_odd : (p : ℕ) → 0 < p → (2 * p - 1) % 2 ≡ 1
    ones_odd p h = omega arith

pub bit_and_field :
    (k n h m l : ℕ)
    → m < pow2 n
    → l < pow2 k
    → bit_and ((h * pow2 n + m) * pow2 k + l) ((pow2 n - 1) * pow2 k) ≡ m * pow2 k
bit_and_field k n h m l p q =
    ap (bit_and ((h * pow2 n + m) * pow2 k + l)) (plus_zero ((pow2 n - 1) * pow2 k))
    ∙ bit_and-split k (h * pow2 n + m) l (pow2 n - 1) 0 q (pow2_positive k)
    ∙ ap (λ x. bit_and (h * pow2 n + m) x * pow2 k + bit_and l 0) (no_high (pow2 n - 1) (pow2 n))
    ∙ rw
        (
          bit_and-split n h m 0 (pow2 n - 1) p (below (pow2_positive n)),
          bit_and-zero h,
          bit_and-zero l,
          bit_and_ones n m p,
        )
        (grind arith)
  where
    plus_zero : (a : ℕ) → a ≡ a + 0
    plus_zero a = omega arith

    no_high : (a p : ℕ) → a ≡ 0 * p + a
    no_high a p = grind arith

    below : {p : ℕ} → 0 < p → p - 1 < p
    below h = omega arith

pub bit_and_masked : (k n v : ℕ) → bit_and v ((pow2 n - 1) * pow2 k) ≡ v / pow2 k % pow2 n * pow2 k
bit_and_masked k n v =
    subst (λ x. bit_and x ((pow2 n - 1) * pow2 k) ≡ v / pow2 k % pow2 n * pow2 k) whole
      (bit_and_field k n (v / pow2 k / pow2 n) (v / pow2 k % pow2 n) (v % pow2 k)
        (mod-lt (v / pow2 k) (pow2_positive n)) (mod-lt v (pow2_positive k)))
  where
    whole : (v / pow2 k / pow2 n * pow2 n + v / pow2 k % pow2 n) * pow2 k + v % pow2 k ≡ v
    whole = rw (div-add-mod' (v / pow2 k) (pow2 n)) (div-add-mod' v (pow2 k))

-- The sum of two numbers without a common digit.
pub bit_or_sum : (k h a m : ℕ) → a ≡ h * pow2 k → m < pow2 k → bit_or a m ≡ a + m
bit_or_sum k h a m e q = rw e (bit_or_disjoint k h m q)

pub bit_or_sum_right : (k h a m : ℕ) → a ≡ h * pow2 k → m < pow2 k → bit_or m a ≡ m + a
bit_or_sum_right k h a m e q = rw e (
    subst (λ x. bit_or x (h * pow2 k) ≡ m + h * pow2 k) (no_high m (pow2 k))
      (subst (λ y. bit_or (0 * pow2 k + m) y ≡ m + h * pow2 k) (plus_zero (h * pow2 k))
        (bit_or-split k 0 m h 0 q (pow2_positive k)
          ∙ rw (bit_or-bitwise 0 h, bit_or-zero m) (add_comm (h * pow2 k) m))))
  where
    plus_zero : (a : ℕ) → a + 0 ≡ a
    plus_zero a = omega arith

    no_high : (a p : ℕ) → 0 * p + a ≡ a
    no_high a p = grind arith

    add_comm : (a b : ℕ) → a + b ≡ b + a
    add_comm a b = omega arith

-- The low digits, and the digits that `~` leaves of a number of m + k digits.
pub bit_and_low : (k a : ℕ) → bit_and a (pow2 k - 1) ≡ a % pow2 k
bit_and_low k a =
    ap (bit_and a) (sym (times_one (pow2 k - 1)))
    ∙ bit_and_masked 0 k a
    ∙ rw (over_one a) (times_one (a % pow2 k))
  where
    times_one : (n : ℕ) → n * 1 ≡ n
    times_one n = omega arith

    over_one : (n : ℕ) → n / 1 ≡ n
    over_one n = omega arith

pub pow2-add : (m k : ℕ) → pow2 (m + k) ≡ pow2 m * pow2 k
pow2-add zero k = grind arith
pow2-add (suc m) k = ap pow2 (suc_out m k) ∙ rw (pow2-add m k) (grind arith)
  where
    suc_out : (a b : ℕ) → suc a + b ≡ suc (a + b)
    suc_out a b = omega arith

-- Each digit of an exclusive or is at most 1.
differ_small : (a b : ℕ) → a ≤ 1 → b ≤ 1 → differ a b ≤ 1
differ_small zero b p q = q
differ_small (suc a) zero p q = p
differ_small (suc zero) (suc zero) p q = omega arith
differ_small (suc zero) (suc (suc b)) p q = absurd (omega arith)
differ_small (suc (suc a)) (suc b) p q = absurd (omega arith)

pub bit_xor-lt : (k a b : ℕ) → a < pow2 k → b < pow2 k → bit_xor a b < pow2 k
bit_xor-lt zero a b p q = rw (nothing a p, nothing b q) (omega arith)
  where
    nothing : (n : ℕ) → n < 1 → n ≡ 0
    nothing n h = omega arith
bit_xor-lt (suc k) a b p q = omega (
  arith,
  bit_xor_step a b,
  differ_small (a % 2) (b % 2) (omega arith) (omega arith),
  bit_xor-lt k (a / 2) (b / 2) (omega arith) (omega arith),
)
