-- ===== src/Prelude/Lists.antt =====
-- C arrays and buffers: lists measured, cut and overwritten at native indices.
use Prim.Native.Nat.{ℕ, zero, suc, ◌+◌, ◌-◌, ◌≤◌, min}
use mathlib.Core.Path.{◌≡◌, refl, ap, ◌∙◌, sym}
use mathlib.Core.List.{List, [], ◌∷◌, ◌++◌, append_assoc}
use mathlib.Core.Option.{Option, none, some}
use native.Mathlib.Omega.{arith}

module _ {ℓ} {A : Type ℓ} where
  abbrev pub length : List A → ℕ
  length [] = 0
  length (x ∷ xs) = suc (length xs)

  abbrev pub get_elem? : List A → ℕ → Option A
  get_elem? [] i = none
  get_elem? (x ∷ xs) zero = some x
  get_elem? (x ∷ xs) (suc i) = get_elem? xs i

  abbrev pub get_or : List A → ℕ → A → A
  get_or [] i d = d
  get_or (x ∷ xs) zero d = x
  get_or (x ∷ xs) (suc i) d = get_or xs i d

  -- A write out of bounds changes nothing.
  abbrev pub set : List A → ℕ → A → List A
  set [] i v = []
  set (x ∷ xs) zero v = v ∷ xs
  set (x ∷ xs) (suc i) v = x ∷ set xs i v

  abbrev pub take : ℕ → List A → List A
  take zero xs = []
  take (suc n) [] = []
  take (suc n) (x ∷ xs) = x ∷ take n xs

  abbrev pub drop : ℕ → List A → List A
  drop zero xs = xs
  drop (suc n) [] = []
  drop (suc n) (x ∷ xs) = drop n xs

  abbrev pub replicate : ℕ → A → List A
  replicate zero a = []
  replicate (suc n) a = a ∷ replicate n a

  -- `memcpy(&dst[off], src, n)`. A copy that runs past the end of `dst` makes the list longer, so
  -- that a write out of bounds shows in the length.
  unfoldable pub memcpy : List A → ℕ → List A → ℕ → List A
  memcpy dst off src n = take off dst ++ (take n src ++ drop (off + n) dst)

  pub length-append : (xs ys : List A) → length (xs ++ ys) ≡ length xs + length ys
  length-append [] ys = omega arith
  length-append (x ∷ xs) ys = omega (arith, length-append xs ys)

  pub length-take : (n : ℕ) (xs : List A) → length (take n xs) ≡ min n (length xs)
  length-take zero xs = omega arith
  length-take (suc n) [] = omega arith
  length-take (suc n) (x ∷ xs) = omega (arith, length-take n xs)

  pub length-drop : (n : ℕ) (xs : List A) → length (drop n xs) ≡ length xs - n
  length-drop zero xs = omega arith
  length-drop (suc n) [] = omega arith
  length-drop (suc n) (x ∷ xs) = omega (arith, length-drop n xs)

  pub length-replicate : (n : ℕ) (a : A) → length (replicate n a) ≡ n
  length-replicate zero a = refl
  length-replicate (suc n) a = ap suc (length-replicate n a)

  -- A copy inside the destination keeps its size.
  pub length-memcpy :
      (dst : List A) (off : ℕ) (src : List A) (n : ℕ)
      → off + n ≤ length dst
      → n ≤ length src
      → length (memcpy dst off src n) ≡ length dst
  unfolding memcpy
  length-memcpy dst off src n fits enough = omega (
    arith,
    length-append (take off dst) (take n src ++ drop (off + n) dst),
    length-append (take n src) (drop (off + n) dst),
    length-take off dst,
    length-take n src,
    length-drop (off + n) dst,
  )

  pub take_append_left : (n : ℕ) (xs ys : List A) → n ≤ length xs → take n (xs ++ ys) ≡ take n xs
  take_append_left zero xs ys h = refl
  take_append_left (suc n) [] ys h = absurd (omega arith)
  take_append_left (suc n) (x ∷ xs) ys h = ap (◌∷◌ x) (take_append_left n xs ys (omega arith))

  pub take-append : (n : ℕ) (xs ys : List A) → take (length xs + n) (xs ++ ys) ≡ xs ++ take n ys
  take-append n [] ys = ap (λ k. take k ys) (omega arith)
  take-append n (x ∷ xs) ys =
      ap (λ k. take k (x ∷ (xs ++ ys))) (suc_out (length xs) n) ∙ ap (◌∷◌ x) (take-append n xs ys)
    where
      suc_out : (a b : ℕ) → suc a + b ≡ suc (a + b)
      suc_out a b = omega arith

  pub take-length : (xs : List A) → take (length xs) xs ≡ xs
  take-length [] = refl
  take-length (x ∷ xs) = ap (◌∷◌ x) (take-length xs)

  pub take_all : (n : ℕ) (xs : List A) → length xs ≡ n → take n xs ≡ xs
  take_all n xs h = ap (λ k. take k xs) (sym h) ∙ take-length xs

  -- What stands before and inside a copy, read back.
  pub take-memcpy :
      (dst : List A) (off : ℕ) (src : List A) (n : ℕ)
      → off ≤ length dst
      → n ≤ length src
      → take (off + n) (memcpy dst off src n) ≡ take off dst ++ take n src
  unfolding memcpy
  take-memcpy dst off src n fits enough =
      ap (λ k. take k (take off dst ++ (take n src ++ drop (off + n) dst))) lengths
      ∙ take-append n (take off dst) (take n src ++ drop (off + n) dst)
      ∙ ap (λ t. take off dst ++ t) inside
    where
      lengths : off + n ≡ length (take off dst) + n
      lengths = omega (arith, length-take off dst)

      inside : take n (take n src ++ drop (off + n) dst) ≡ take n src
      inside =
          take_append_left n (take n src) (drop (off + n) dst) (omega (arith, length-take n src))
          ∙ take_all n (take n src) (omega (arith, length-take n src))

  -- What stands behind a copy is left alone.
  pub drop_append : (n : ℕ) (xs ys : List A) → length xs ≡ n → drop n (xs ++ ys) ≡ ys
  drop_append zero [] ys h = refl
  drop_append zero (x ∷ xs) ys h = absurd (omega arith)
  drop_append (suc n) [] ys h = absurd (omega arith)
  drop_append (suc n) (x ∷ xs) ys h = drop_append n xs ys (omega arith)

  pub drop-memcpy :
      (dst : List A) (off : ℕ) (src : List A) (n : ℕ)
      → off ≤ length dst
      → n ≤ length src
      → drop (off + n) (memcpy dst off src n) ≡ drop (off + n) dst
  unfolding memcpy
  drop-memcpy dst off src n fits enough =
      ap (drop (off + n)) (sym (append_assoc (take off dst) (take n src) (drop (off + n) dst)))
      ∙ drop_append (off + n) (take off dst ++ take n src) (drop (off + n) dst) (
          omega (
            arith,
            length-append (take off dst) (take n src),
            length-take off dst,
            length-take n src,
          ))

  pub memcpy_start : (dst src : List A) (n : ℕ) → memcpy dst 0 src n ≡ take n src ++ drop n dst
  unfolding memcpy
  memcpy_start dst src n = ap (λ k. take n src ++ drop k dst) (omega arith)

  pub take-memcpy_start :
      (dst src : List A) (n : ℕ) → n ≤ length src → take n (memcpy dst 0 src n) ≡ take n src
  take-memcpy_start dst src n h =
      ap (take n) (memcpy_start dst src n)
      ∙ take_append_left n (take n src) (drop n dst) (omega (arith, length-take n src))
      ∙ take_all n (take n src) (omega (arith, length-take n src))
