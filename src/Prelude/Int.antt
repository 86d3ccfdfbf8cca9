-- ===== src/Prelude/Int.antt =====
-- The signed C integers (s32 values that can be negative), over the native numbers.
use Prim.Native.Nat.{ℕ, zero, suc, ◌+◌, ◌*◌, ◌-◌, ◌%◌, ◌^◌, compare, Ordering}
use mathlib.Core.Bool.{Bool, true, false}

-- `negsuc n` is -(n + 1).
pub data ℤ : Type 0 where
  pos : ℕ → ℤ
  negsuc : ℕ → ℤ

abbrev pub is_negative : ℤ → Bool
is_negative (pos n) = false
is_negative (negsuc n) = true

-- Four times an integer, and one hundred times.
abbrev pub scale : ℕ → ℤ → ℤ
scale k (pos n) = pos (n * k)
scale zero (negsuc n) = pos 0
scale (suc k) (negsuc n) = negsuc (n * suc k + k)

-- The 32 bits of an s32.
abbrev pub bits32 : ℤ → ℕ
bits32 (pos n) = n % 2 ^ 32
bits32 (negsuc n) = 2 ^ 32 - 1 - n % 2 ^ 32

-- `(q > m) ? m : q`
abbrev pub cap_at : ℕ → ℤ → ℤ
cap_at m (pos n) = elim (compare m n) [ Ordering.lt ↦ pos m | _ ↦ pos n ]
cap_at m (negsuc n) = negsuc n
