-- ===== src/Shared/BitArray/Members.antt =====
-- An array of bytes as a set of numbers (src/include/bcmutils.h).
use broadcom_bcm4312_fix.Prelude.{
  ==_iff, Bool, Bool-cases, [], ap, arith, bit_and, bit_or, false, get_or, if◌then◌else◌, inl, inr,
  length, not, refl, set, subst, suc, sym, true, zero, ℕ, ◌%◌, ◌&&◌, ◌-◌, ◌/◌, ◌<◌, ◌==◌, ◌^◌, ◌||◌,
  ◌∷◌, ◌≡◌, ◌≢◌, ◌≤◌,
}
use broadcom_bcm4312_fix.Headers.{Bytes}
use broadcom_bcm4312_fix.Shared.BitArray.{byte_of, clrbit, isclr, isset, setbit}
use broadcom_bcm4312_fix.Shared.Octets.{AreBytes, byte-lt}

-- Whether a test holds for all numbers up to a bound.
holds_up_to : (ℕ → Bool) → ℕ → Bool
holds_up_to test zero = test zero
holds_up_to test (suc n) = if test (suc n) then holds_up_to test n else false

both_hold : (b r : Bool) → (if b then r else false) ≡ true → (b ≡ true) × (r ≡ true)
both_hold true r h = (refl, h)
both_hold false r h = absurd (ground arith)

held : (test : ℕ → Bool) (n x : ℕ) → holds_up_to test n ≡ true → x ≤ n → test x ≡ true
unfolding holds_up_to
held test zero x h le = subst (λ y. test y ≡ true) (omega arith) h
held test (suc n) x h le = elim (Bool-cases (x == suc n)) [
  | inl e ↦ subst (λ y. test y ≡ true) (sym ((==_iff _ _).0 e)) ((both_hold _ _ h).0)
  | inr ne ↦ held test n x ((both_hold _ _ h).1) (ground arith)
]

abbrev beq : Bool → Bool → Bool
beq true b = b
beq false b = not b

beq_eq : (a b : Bool) → beq a b ≡ true → a ≡ b
beq_eq true b h = sym h
beq_eq false true h = cc
beq_eq false false h = refl

-- A bit of a byte in which another one, or the same, is set or cleared.
abbrev test : ℕ → ℕ → Bool
test b l = not (bit_and b (2 ^ l) == 0)

-- Every byte, with every pair of places in it.
abbrev for_all_bits : (ℕ → ℕ → ℕ → Bool) → Bool
for_all_bits p = holds_up_to (λ b. holds_up_to (λ k. holds_up_to (p b k) 7) 7) 255

set_agrees : ℕ → ℕ → ℕ → Bool
set_agrees b k l = beq (test (bit_or b (2 ^ k) % 256) l) ((k == l) || test b l)

clear_agrees : ℕ → ℕ → ℕ → Bool
clear_agrees b k l = beq (test (bit_and b (2 ^ 32 - 1 - 2 ^ k) % 256) l) (not (k == l) && test b l)

set_table : for_all_bits set_agrees ≡ true
unfolding holds_up_to set_agrees
set_table = refl

clear_table : for_all_bits clear_agrees ≡ true
unfolding holds_up_to clear_agrees
clear_table = refl

at_bits :
    (p : ℕ → ℕ → ℕ → Bool) (b k l : ℕ)
    → for_all_bits p ≡ true
    → b < 256
    → k < 8
    → l < 8
    → p b k l ≡ true
at_bits p b k l h q r t =
    held (p b k) 7 l
      (held (λ i. holds_up_to (p b i) 7) 7 k
        (held (λ a. holds_up_to (λ i. holds_up_to (p a i) 7) 7) 255 b h (omega arith))
        (omega arith))
      (omega arith)

get_or-set_self : (xs : Bytes) (i v : ℕ) → i < length xs → get_or (set xs i v) i 0 ≡ v
get_or-set_self [] i v h = absurd (omega arith)
get_or-set_self (x ∷ xs) zero v h = refl
get_or-set_self (x ∷ xs) (suc i) v h = get_or-set_self xs i v (omega arith)

get_or-set_ne : (xs : Bytes) (i j v : ℕ) → i ≢ j → get_or (set xs i v) j 0 ≡ get_or xs j 0
get_or-set_ne [] i j v h = refl
get_or-set_ne (x ∷ xs) zero zero v h = absurd (h refl)
get_or-set_ne (x ∷ xs) zero (suc j) v h = refl
get_or-set_ne (x ∷ xs) (suc i) zero v h = refl
get_or-set_ne (x ∷ xs) (suc i) (suc j) v h = get_or-set_ne xs i j v (λ e. h (ap suc e))

set_bit :
    (b k l : ℕ) → b < 256 → k < 8 → l < 8 → test (bit_or b (2 ^ k) % 256) l ≡ (k == l) || test b l
unfolding set_agrees
set_bit b k l p q r = beq_eq _ _ (at_bits set_agrees b k l set_table p q r)

clear_bit :
    (b k l : ℕ)
    → b < 256
    → k < 8
    → l < 8
    → test (bit_and b (2 ^ 32 - 1 - 2 ^ k) % 256) l ≡ not (k == l) && test b l
unfolding clear_agrees
clear_bit b k l p q r = beq_eq _ _ (at_bits clear_agrees b k l clear_table p q r)

not_twice : (b : Bool) → not (not b) ≡ b
not_twice true = refl
not_twice false = refl

-- Two bits of one byte, and of two bytes.
same_byte : (i j : ℕ) → i / 8 ≡ j / 8 → (i == j) ≡ (i % 8 == j % 8)
same_byte i j e = ground arith

other_byte : (i j : ℕ) → i / 8 ≢ j / 8 → (i == j) ≡ false
other_byte i j h = ground arith

unequal : (i j : ℕ) → (i == j) ≡ false → i ≢ j
unequal i j h e = ground arith

-- The byte that holds bit j behind a write to the byte of bit i.
written_byte :
    (a : Bytes) (i j v : ℕ)
    → i / 8 < length a
    → byte_of (set a (i / 8) v) j ≡ (if i / 8 == j / 8 then v else byte_of a j)
written_byte a i j v room = elim (Bool-cases (i / 8 == j / 8)) [
  | inl same ↦ rw (same, sym ((==_iff _ _).0 same)) (get_or-set_self a (i / 8) v room)
  | inr apart ↦ rw apart (get_or-set_ne a (i / 8) (j / 8) v (unequal _ _ apart))
]

-- For an array of bytes that has a byte for bit i, setbit adds i to the set of the bits that isset
-- finds and clrbit takes it away; all other bits stay. isclr finds the bits that isset does not.
pub isset-setbit :
    (a : Bytes) (i j : ℕ)
    → AreBytes a
    → i / 8 < length a
    → (isset (setbit a i) j ≡ (i == j) || isset a j)
      × (isset (clrbit a i) j ≡ not (i == j) && isset a j)
      × (isclr a j ≡ not (isset a j))
unfolding isset setbit clrbit isclr
isset-setbit a i j bytes room = elim (Bool-cases (i / 8 == j / 8)) [
  | inl same ↦
      let e = (==_iff _ _).0 same in
      let bound = byte-lt a (i / 8) bytes in
      let here = ap (λ n. get_or a n 0) e in
      (
        rw (written_byte a i j _ room, same, same_byte i j e, sym here)
            (set_bit (byte_of a i) (i % 8) (j % 8) bound (omega arith) (omega arith)),
        rw (written_byte a i j _ room, same, same_byte i j e, sym here)
            (clear_bit (byte_of a i) (i % 8) (j % 8) bound (omega arith) (omega arith)),
        sym (not_twice _),
      )
  | inr apart ↦ (
    rw (written_byte a i j _ room, apart, other_byte i j (unequal _ _ apart)) refl,
    rw (written_byte a i j _ room, apart, other_byte i j (unequal _ _ apart)) refl,
    sym (not_twice _),
  )
]
