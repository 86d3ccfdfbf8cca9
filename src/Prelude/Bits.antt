-- ===== src/Prelude/Bits.antt =====
-- Laws of the C operators `&`, `|` and `^` at variables.
pub mod Fields
use Prim.Native.Nat.{
  ℕ, zero, suc, ◌+◌, ◌-◌, ◌*◌, ◌/◌, ◌%◌, ◌≤◌, ◌<◌, min, max, differ, bit_and, bit_or, bit_xor,
  digits, bit_and-bitwise, bit_or-bitwise, bit_xor-bitwise,
}
use mathlib.Core.Path.{◌≡◌, refl, ap, subst, sym, ◌∙◌}
use mathlib.Core.Logic.{◌⊎◌, inl, inr}
use native.Mathlib.Nat.{div-add-mod', mod-lt}
use native.Mathlib.Omega.{arith}

-- Each digit of the result is at most that of the first operand.
masked_digits-le : (n a b : ℕ) → digits (λ d. zero) min n a b ≤ a
masked_digits-le zero zero b = omega arith
masked_digits-le zero (suc a) b = omega arith
masked_digits-le (suc n) zero b = omega arith
masked_digits-le (suc n) (suc a) b = omega (arith, masked_digits-le n (suc a / 2) (b / 2))

-- A mask never makes a number larger.
pub bit_and-le : (a b : ℕ) → bit_and a b ≤ a
bit_and-le a b = subst (λ r. r ≤ a) (sym (bit_and-bitwise a b)) (masked_digits-le a a b)

-- More fuel than the first operand does not change an operation on digits.
module _ (z : ℕ → ℕ) (f : ℕ → ℕ → ℕ) where
  digits_one_more : (n x y : ℕ) → x ≤ n → digits z f (suc n) x y ≡ digits z f n x y
  digits_one_more zero zero y h = refl
  digits_one_more zero (suc x) y h = absurd (omega arith)
  digits_one_more (suc n) zero y h = refl
  digits_one_more (suc n) (suc x) y h =
      ap (λ (r : ℕ). r * 2 + f (suc x % 2) (y % 2))
        (digits_one_more n (suc x / 2) (y / 2) (omega arith))

  last_or_less : (x n : ℕ) → x ≤ suc n → (x ≡ suc n) ⊎ (x ≤ n)
  last_or_less x n h = ground arith

  digits_enough : (n x y : ℕ) → x ≤ n → digits z f n x y ≡ digits z f x x y
  digits_enough zero zero y h = refl
  digits_enough zero (suc x) y h = absurd (omega arith)
  digits_enough (suc n) x y h = elim (last_or_less x n h) [
    | inl e ↦ subst (λ m. digits z f m x y ≡ digits z f x x y) e refl
    | inr less ↦ digits_one_more n x y less ∙ digits_enough n x y less
  ]

  -- Its lowest digit, where what is left for a first operand of 0 has this law.
  digits_step :
      ((y : ℕ) → z y ≡ z (y / 2) * 2 + f 0 (y % 2))
      → (x y : ℕ) → digits z f x x y ≡ digits z f (x / 2) (x / 2) (y / 2) * 2 + f (x % 2) (y % 2)
  digits_step h zero y = h y
  digits_step h (suc x) y =
      ap (λ (r : ℕ). r * 2 + f (suc x % 2) (y % 2))
        (digits_enough x (suc x / 2) (y / 2) (omega arith))

pub bit_and_step : (x y : ℕ) → bit_and x y ≡ bit_and (x / 2) (y / 2) * 2 + min (x % 2) (y % 2)
bit_and_step x y =
    bit_and-bitwise x y
    ∙ digits_step (λ d. zero) min (λ d. omega arith) x y
    ∙ ap (λ (r : ℕ). r * 2 + min (x % 2) (y % 2)) (sym (bit_and-bitwise (x / 2) (y / 2)))

pub bit_or_step : (x y : ℕ) → bit_or x y ≡ bit_or (x / 2) (y / 2) * 2 + max (x % 2) (y % 2)
bit_or_step x y =
    bit_or-bitwise x y
    ∙ digits_step (λ d. d) max (λ d. omega arith) x y
    ∙ ap (λ (r : ℕ). r * 2 + max (x % 2) (y % 2)) (sym (bit_or-bitwise (x / 2) (y / 2)))

pub bit_xor_step : (x y : ℕ) → bit_xor x y ≡ bit_xor (x / 2) (y / 2) * 2 + differ (x % 2) (y % 2)
bit_xor_step x y =
    bit_xor-bitwise x y
    ∙ digits_step (λ d. d) differ (λ d. omega arith) x y
    ∙ ap (λ (r : ℕ). r * 2 + differ (x % 2) (y % 2)) (sym (bit_xor-bitwise (x / 2) (y / 2)))

-- 2 ^ k, by clauses.
abbrev pub pow2 : ℕ → ℕ
pow2 zero = 1
pow2 (suc k) = 2 * pow2 k

pub pow2_positive : (k : ℕ) → 0 < pow2 k
pow2_positive zero = omega arith
pow2_positive (suc k) = omega (arith, pow2_positive k)

-- An operation that works on each digit alone works on the high and on the low digits alone.
module _ (op f : ℕ → ℕ → ℕ)
    (step : (a b : ℕ) → op a b ≡ op (a / 2) (b / 2) * 2 + f (a % 2) (b % 2)) where
  double : (h p : ℕ) → h * (2 * p) ≡ 2 * (h * p)
  double h p = grind arith

  half : (h p l : ℕ) → (h * (2 * p) + l) / 2 ≡ h * p + l / 2
  half h p l = omega (arith, double h p)

  parity : (h p l : ℕ) → (h * (2 * p) + l) % 2 ≡ l % 2
  parity h p l = omega (arith, double h p)

  op_zero : op 0 0 ≡ 0
  op_zero = omega (arith, step 0 0)

  low : (h l : ℕ) → l < 1 → h * 1 + l ≡ h
  low h l p = omega arith

  nothing : (l : ℕ) → l < 1 → l ≡ 0
  nothing l p = omega arith

  pub split :
      (k h l i m : ℕ)
      → l < pow2 k
      → m < pow2 k
      → op (h * pow2 k + l) (i * pow2 k + m) ≡ op h i * pow2 k + op l m
  split zero h l i m p q =
      rw (low h l p, low i m q, nothing l p, nothing m q) (omega (arith, op_zero))
  split (suc k) h l i m p q =
      step (h * pow2 (suc k) + l) (i * pow2 (suc k) + m)
      ∙ rw (half h (pow2 k) l, half i (pow2 k) m, parity h (pow2 k) l, parity i (pow2 k) m)
          (omega (
            arith,
            split k h (l / 2) i (m / 2) (omega arith) (omega arith),
            step l m,
            double (op h i) (pow2 k),
          ))

-- The digits of the two operands from the k-th on, and those below.
pub bit_and-split :
    (k h l i m : ℕ)
    → l < pow2 k
    → m < pow2 k
    → bit_and (h * pow2 k + l) (i * pow2 k + m) ≡ bit_and h i * pow2 k + bit_and l m
bit_and-split = split bit_and min bit_and_step

pub bit_or-split :
    (k h l i m : ℕ)
    → l < pow2 k
    → m < pow2 k
    → bit_or (h * pow2 k + l) (i * pow2 k + m) ≡ bit_or h i * pow2 k + bit_or l m
bit_or-split = split bit_or max bit_or_step

pub bit_xor-split :
    (k h l i m : ℕ)
    → l < pow2 k
    → m < pow2 k
    → bit_xor (h * pow2 k + l) (i * pow2 k + m) ≡ bit_xor h i * pow2 k + bit_xor l m
bit_xor-split = split bit_xor differ bit_xor_step

and_none : (n a : ℕ) → a ≤ n → bit_and a 0 ≡ 0
and_none zero zero h = refl
and_none zero (suc a) h = absurd (omega arith)
and_none (suc n) zero h = refl
and_none (suc n) (suc a) h =
    omega (arith, bit_and_step (suc a) 0, and_none n (suc a / 2) (omega arith))

pub bit_and-zero : (a : ℕ) → bit_and a 0 ≡ 0
bit_and-zero a = and_none a a (omega arith)

or_none : (n a : ℕ) → a ≤ n → bit_or a 0 ≡ a
or_none zero zero h = refl
or_none zero (suc a) h = absurd (omega arith)
or_none (suc n) zero h = refl
or_none (suc n) (suc a) h =
    omega (arith, bit_or_step (suc a) 0, or_none n (suc a / 2) (omega arith))

pub bit_or-zero : (a : ℕ) → bit_or a 0 ≡ a
bit_or-zero a = or_none a a (omega arith)
