-- ===== src/Shared/Blocks/Agreement.antt =====
-- The two branches of xor_128bit_block agree (src/include/bcmutils.h).
use broadcom_bcm4312_fix.Prelude.{
  [], ap, arith, bit_xor, drop, false, get_or, refl, subst, suc, sym, true, zero, ℕ, ◌*◌, ◌++◌, ◌+◌,
  ◌<◌, ◌^◌, ◌∙◌, ◌∷◌, ◌≡◌,
}
use broadcom_bcm4312_fix.Headers.{Bytes}
use broadcom_bcm4312_fix.Shared.Blocks.{xor_128bit_block, xor_bytes, xor_words}
use broadcom_bcm4312_fix.Shared.Endian.{htol32_ua_store, ltoh32_ua}
use broadcom_bcm4312_fix.Shared.Octets.{AreBytes, byte-lt}
use broadcom_bcm4312_fix.Shared.Endian.Agreement.{bytes_eq, ltoh32_ua_bytes, stored_low, word_of}
use broadcom_bcm4312_fix.Prelude.Bits.{bit_xor-split}
use broadcom_bcm4312_fix.Prelude.Bits.Fields.{bit_xor-lt}

-- The exclusive or of two words of four bytes, byte by byte.
xor_word :
    (a b c d a' b' c' d' : ℕ)
    → a < 256
    → b < 256
    → c < 256
    → a' < 256
    → b' < 256
    → c' < 256
    → bit_xor (word_of a b c d) (word_of a' b' c' d')
      ≡ word_of (bit_xor a a') (bit_xor b b') (bit_xor c c') (bit_xor d d')
xor_word a b c d a' b' c' d' p q r p' q' r' =
    let s1 =
      bit_xor-split 8 (b + c * 2 ^ 8 + d * 2 ^ 16) a (b' + c' * 2 ^ 8 + d' * 2 ^ 16) a' p p' in
    let s2 = bit_xor-split 8 (c + d * 2 ^ 8) b (c' + d' * 2 ^ 8) b' q q' in
    let s3 = bit_xor-split 8 d c d' c' r r' in
    ap2 (shape a b c d) (shape a' b' c' d')
    ∙ s1
    ∙ omega (
      arith,
      xors (inner b c d) (inner b' c' d') ∙ s2,
      xors (inner_two c d) (inner_two c' d') ∙ s3,
    )
  where
    shape : (a b c d : ℕ) → word_of a b c d ≡ (b + c * 2 ^ 8 + d * 2 ^ 16) * 256 + a
    shape a b c d = omega arith

    inner : (b c d : ℕ) → b + c * 2 ^ 8 + d * 2 ^ 16 ≡ (c + d * 2 ^ 8) * 256 + b
    inner b c d = omega arith

    inner_two : (c d : ℕ) → c + d * 2 ^ 8 ≡ d * 256 + c
    inner_two c d = omega arith

    xors : {x y z w : ℕ} → x ≡ y → z ≡ w → bit_xor x z ≡ bit_xor y w
    xors e f = rw (e, f) refl

    ap2 : {x y z w : ℕ} → x ≡ y → z ≡ w → bit_xor x z ≡ bit_xor y w
    ap2 e f = rw (e, f) refl

store_word :
    (a b c d : ℕ)
    → a < 256
    → b < 256
    → c < 256
    → d < 256
    → htol32_ua_store (word_of a b c d) ≡ a ∷ b ∷ c ∷ d ∷ []
store_word a b c d p q r s =
    stored_low (word_of a b c d) (omega arith)
    ∙ bytes_eq (omega arith) (omega arith) (omega arith) (omega arith)

-- Four bytes for each word.
abbrev quad : ℕ → ℕ
quad zero = 0
quad (suc n) = suc (suc (suc (suc (quad n))))

get_or-drop : (xs : Bytes) (i : ℕ) → get_or (drop 1 xs) i 0 ≡ get_or xs (suc i) 0
get_or-drop [] i = refl
get_or-drop (x ∷ xs) i = refl

drop-AreBytes : (xs : Bytes) → AreBytes xs → AreBytes (drop 1 xs)
drop-AreBytes [] h = h
drop-AreBytes (x ∷ xs) (p, h) = h

drop_four : (xs : Bytes) → drop 4 xs ≡ drop 1 (drop 1 (drop 1 (drop 1 xs)))
drop_four [] = refl
drop_four (a ∷ []) = refl
drop_four (a ∷ b ∷ []) = refl
drop_four (a ∷ b ∷ c ∷ []) = refl
drop_four (a ∷ b ∷ c ∷ d ∷ xs) = refl

drop_four-AreBytes : (xs : Bytes) → AreBytes xs → AreBytes (drop 4 xs)
drop_four-AreBytes xs h =
    subst AreBytes (sym (drop_four xs))
      (drop-AreBytes _ (drop-AreBytes _ (drop-AreBytes _ (drop-AreBytes xs h))))

load_word :
    (xs : Bytes)
    → AreBytes xs
    → ltoh32_ua xs ≡ word_of (get_or xs 0 0) (get_or xs 1 0) (get_or xs 2 0) (get_or xs 3 0)
unfolding ltoh32_ua
load_word xs h = ltoh32_ua_bytes _ _ _ _ (byte-lt xs 0 h) (byte-lt xs 1 h) (byte-lt xs 2 h)

-- The bytes of one word.
first_word :
    (xs ys : Bytes)
    → AreBytes xs
    → AreBytes ys
    → htol32_ua_store (bit_xor (ltoh32_ua xs) (ltoh32_ua ys))
      ≡ bit_xor (get_or xs 0 0) (get_or ys 0 0)
        ∷ bit_xor (get_or xs 1 0) (get_or ys 1 0)
        ∷ bit_xor (get_or xs 2 0) (get_or ys 2 0)
        ∷ bit_xor (get_or xs 3 0) (get_or ys 3 0)
        ∷ []
first_word xs ys h g =
    rw (load_word xs h, load_word ys g)
      (rw
        (xor_word _ _ _ _ _ _ _ _ (byte-lt xs 0 h) (byte-lt xs 1 h) (byte-lt xs 2 h)
          (byte-lt ys 0 g) (byte-lt ys 1 g) (byte-lt ys 2 g))
        (store_word _ _ _ _ (small 0) (small 1) (small 2) (small 3)))
  where
    small : (i : ℕ) → bit_xor (get_or xs i 0) (get_or ys i 0) < 256
    small i = bit_xor-lt 8 (get_or xs i 0) (get_or ys i 0) (byte-lt xs i h) (byte-lt ys i g)

-- The same bytes by the loop.
first_bytes :
    (n : ℕ) (xs ys : Bytes)
    → xor_bytes (quad (suc n)) xs ys
      ≡ bit_xor (get_or xs 0 0) (get_or ys 0 0)
        ∷ bit_xor (get_or xs 1 0) (get_or ys 1 0)
        ∷ bit_xor (get_or xs 2 0) (get_or ys 2 0)
        ∷ bit_xor (get_or xs 3 0) (get_or ys 3 0)
        ∷ xor_bytes (quad n) (drop 4 xs) (drop 4 ys)
unfolding xor_bytes
first_bytes n xs ys = simp (get_or-drop, drop_four)

xor_words-xor_bytes :
    (n : ℕ) (xs ys : Bytes)
    → AreBytes xs
    → AreBytes ys
    → xor_words n xs ys ≡ xor_bytes (quad n) xs ys
unfolding xor_words
xor_words-xor_bytes zero xs ys h g = unfold xor_bytes in refl
xor_words-xor_bytes (suc n) xs ys h g =
    ap (λ w. w ++ xor_words n (drop 4 xs) (drop 4 ys)) (first_word xs ys h g)
    ∙ rw
        (xor_words-xor_bytes n (drop 4 xs) (drop 4 ys) (drop_four-AreBytes xs h)
          (drop_four-AreBytes ys g))
        refl
    ∙ sym (first_bytes n xs ys)

-- On blocks of bytes the two branches of xor_128bit_block give the same 16 bytes.
xor_128bit_block_agree :
    (src1 src2 : Bytes)
    → AreBytes src1
    → AreBytes src2
    → xor_128bit_block true src1 src2 ≡ xor_128bit_block false src1 src2
unfolding xor_128bit_block
xor_128bit_block_agree src1 src2 h g = xor_words-xor_bytes 4 src1 src2 h g
