-- ===== src/Shared/Endian/Agreement.antt =====
-- The swaps, the stores and the loads of src/include/bcmendian.h agree.
use broadcom_bcm4312_fix.Prelude.{
  List, [], ap, arith, bit_and, bit_or, refl, suc, sym, zero, ℕ, ◌%◌, ◌*◌, ◌+◌, ◌/◌, ◌<◌, ◌^◌, ◌∙◌,
  ◌∷◌, ◌≡◌,
}
use broadcom_bcm4312_fix.Shared.Endian.{
  bcmswap16, bcmswap16_buf, bcmswap32, htol32_ua_store, hton32_ua_store, ltoh16_ua, ltoh32_ua,
  ntoh16_ua, ntoh32_ua, swap_words,
}
use broadcom_bcm4312_fix.Prelude.Bits.Fields.{bit_and_masked, bit_or_sum, bit_or_sum_right}

low_byte : (v : ℕ) → bit_and v 0xff ≡ v % 256
low_byte v = omega (arith, bit_and_masked 0 8 v)

byte_1 : (v : ℕ) → bit_and v 0xff00 ≡ v / 2 ^ 8 % 256 * 2 ^ 8
byte_1 v = bit_and_masked 8 8 v

byte_2 : (v : ℕ) → bit_and v 0xff0000 ≡ v / 2 ^ 16 % 256 * 2 ^ 16
byte_2 v = bit_and_masked 16 8 v

byte_3 : (v : ℕ) → bit_and v 0xff000000 ≡ v / 2 ^ 24 % 256 * 2 ^ 24
byte_3 v = bit_and_masked 24 8 v

-- A word of four bytes, the lowest first.
abbrev pub word_of : ℕ → ℕ → ℕ → ℕ → ℕ
word_of a b c d = a + b * 2 ^ 8 + c * 2 ^ 16 + d * 2 ^ 24

bcmswap16_bytes : (v : ℕ) → v < 2 ^ 16 → bcmswap16 v ≡ v % 256 * 256 + v / 256
unfolding bcmswap16
bcmswap16_bytes v h =
    bit_or_sum 8 (v % 256) (bit_and v 0x00ff * 2 ^ 8) (bit_and v 0xff00 / 2 ^ 8)
      (omega (arith, low_byte v)) (omega (arith, byte_1 v))
    ∙ omega (arith, low_byte v, byte_1 v)

bcmswap32_bytes :
    (v : ℕ)
    → bcmswap32 v ≡ word_of (v / 2 ^ 24 % 256) (v / 2 ^ 16 % 256) (v / 2 ^ 8 % 256) (v % 256)
unfolding bcmswap32
bcmswap32_bytes v =
    let low = bit_and v 0xff000000 / 2 ^ 24 in
    let o1 =
      bit_or_sum 8 (v / 2 ^ 16 % 256) (bit_and v 0x00ff0000 / 2 ^ 8) low (omega (arith, byte_2 v))
        (omega (arith, byte_3 v)) in
    let mid = bit_or (bit_and v 0x00ff0000 / 2 ^ 8) low in
    let o2 =
      bit_or_sum 16 (v / 2 ^ 8 % 256) (bit_and v 0x0000ff00 * 2 ^ 8) mid (omega (arith, byte_1 v))
        (omega (arith, o1, byte_2 v, byte_3 v)) in
    let o3 =
      bit_or_sum 24 (v % 256) (bit_and v 0x000000ff * 2 ^ 24)
        (bit_or (bit_and v 0x0000ff00 * 2 ^ 8) mid) (omega (arith, low_byte v))
        (omega (arith, o1, o2, byte_1 v, byte_2 v, byte_3 v)) in
    omega (arith, o1, o2, o3, low_byte v, byte_1 v, byte_2 v, byte_3 v)

ltoh16_ua_bytes : (a b : ℕ) → a < 256 → ltoh16_ua (a ∷ b ∷ []) ≡ a + b * 2 ^ 8
unfolding ltoh16_ua
ltoh16_ua_bytes a b h = bit_or_sum_right 8 b (b * 2 ^ 8) a refl h

ntoh16_ua_bytes : (a b : ℕ) → b < 256 → ntoh16_ua (a ∷ b ∷ []) ≡ a * 2 ^ 8 + b
unfolding ntoh16_ua
ntoh16_ua_bytes a b h = bit_or_sum 8 a (a * 2 ^ 8) b refl h

pub ltoh32_ua_bytes :
    (a b c d : ℕ) → a < 256 → b < 256 → c < 256 → ltoh32_ua (a ∷ b ∷ c ∷ d ∷ []) ≡ word_of a b c d
unfolding ltoh32_ua
ltoh32_ua_bytes a b c d p q r =
    let o1 = bit_or_sum_right 8 b (b * 2 ^ 8) a refl p in
    let o2 = bit_or_sum_right 16 c (c * 2 ^ 16) (bit_or a (b * 2 ^ 8)) refl (omega (arith, o1)) in
    let o3 =
      bit_or_sum_right 24 d (d * 2 ^ 24) (bit_or (bit_or a (b * 2 ^ 8)) (c * 2 ^ 16)) refl
        (omega (arith, o1, o2)) in
    omega (arith, o1, o2, o3)

ntoh32_ua_bytes :
    (a b c d : ℕ) → b < 256 → c < 256 → d < 256 → ntoh32_ua (a ∷ b ∷ c ∷ d ∷ []) ≡ word_of d c b a
unfolding ntoh32_ua
ntoh32_ua_bytes a b c d q r s =
    let o1 = bit_or_sum 24 a (a * 2 ^ 24) (b * 2 ^ 16) refl (omega arith) in
    let top = bit_or (a * 2 ^ 24) (b * 2 ^ 16) in
    let o2 = bit_or_sum 16 (a * 2 ^ 8 + b) top (c * 2 ^ 8) (omega (arith, o1)) (omega arith) in
    let o3 =
      bit_or_sum 8 (a * 2 ^ 16 + b * 2 ^ 8 + c) (bit_or top (c * 2 ^ 8)) d (omega (arith, o1, o2))
        s in
    omega (arith, o1, o2, o3)

-- Four bytes, one by one.
pub bytes_eq :
    {a b c d a' b' c' d' : ℕ}
    → a ≡ a'
    → b ≡ b'
    → c ≡ c'
    → d ≡ d'
    → ◌≡◌ {A = List ℕ} (a ∷ b ∷ c ∷ d ∷ []) (a' ∷ b' ∷ c' ∷ d' ∷ [])
bytes_eq p q r s = rw (p, q, r, s) refl

pub stored_low :
    (v : ℕ)
    → v < 2 ^ 32
    → htol32_ua_store v ≡ v % 256 ∷ v / 2 ^ 8 % 256 ∷ v / 2 ^ 16 % 256 ∷ v / 2 ^ 24 ∷ []
unfolding htol32_ua_store
stored_low v h = rw (low_byte v, low_byte (v / 2 ^ 8), low_byte (v / 2 ^ 16)) refl

stored_high :
    (v : ℕ)
    → v < 2 ^ 32
    → hton32_ua_store v ≡ v / 2 ^ 24 ∷ v / 2 ^ 16 % 256 ∷ v / 2 ^ 8 % 256 ∷ v % 256 ∷ []
unfolding hton32_ua_store
stored_high v h = rw (low_byte v, low_byte (v / 2 ^ 8), low_byte (v / 2 ^ 16)) refl

swapped_bytes : (v : ℕ) → v < 2 ^ 32 → htol32_ua_store (bcmswap32 v) ≡ hton32_ua_store v
swapped_bytes v h =
    let e = bcmswap32_bytes v in
    stored_low (bcmswap32 v) (omega (arith, e))
    ∙ bytes_eq (omega (arith, e)) (omega (arith, e)) (omega (arith, e)) (omega (arith, e))
    ∙ sym (stored_high v h)

-- For a 32-bit word: what htol32_ua_store writes is read back by ltoh32_ua, and what hton32_ua_store
-- writes by ntoh32_ua; the bytes in the network's order are those of the swapped word, reading
-- the bytes of a word in the other order swaps it, and swapping twice gives the word back.
pub byte_orders_agree :
    (v : ℕ)
    → v < 2 ^ 32
    → (ltoh32_ua (htol32_ua_store v) ≡ v)
      × (ntoh32_ua (hton32_ua_store v) ≡ v)
      × (htol32_ua_store (bcmswap32 v) ≡ hton32_ua_store v)
      × (ntoh32_ua (htol32_ua_store v) ≡ bcmswap32 v)
      × (bcmswap32 (bcmswap32 v) ≡ v)
byte_orders_agree v h =
    let e = bcmswap32_bytes v in
    (
      ap ltoh32_ua (stored_low v h)
          ∙ ltoh32_ua_bytes _ _ _ _ (omega arith) (omega arith) (omega arith)
          ∙ omega arith,
      ap ntoh32_ua (stored_high v h)
          ∙ ntoh32_ua_bytes _ _ _ _ (omega arith) (omega arith) (omega arith)
          ∙ omega arith,
      swapped_bytes v h,
      ap ntoh32_ua (stored_low v h)
          ∙ ntoh32_ua_bytes _ _ _ _ (omega arith) (omega arith) (omega arith)
          ∙ omega (arith, e),
      bcmswap32_bytes (bcmswap32 v) ∙ omega (arith, e),
    )

bcmswap16_twice : (v : ℕ) → v < 2 ^ 16 → bcmswap16 (bcmswap16 v) ≡ v
bcmswap16_twice v h =
    let e = bcmswap16_bytes v h in
    bcmswap16_bytes (bcmswap16 v) (omega (arith, e)) ∙ omega (arith, e)

-- Words of 16 bits.
abbrev pub AreWords : List ℕ → Type 0
AreWords [] = Unit
AreWords (w ∷ ws) = (w < 2 ^ 16) × AreWords ws

swap_words_twice : (n : ℕ) (ws : List ℕ) → AreWords ws → swap_words n (swap_words n ws) ≡ ws
unfolding swap_words
swap_words_twice zero ws h = refl
swap_words_twice (suc n) [] h = refl
swap_words_twice (suc n) (w ∷ ws) (p, h) = rw (bcmswap16_twice w p, swap_words_twice n ws h) refl

-- bcmswap16_buf on a buffer of 16-bit words, twice with the same length, changes nothing.
bcmswap16_buf_twice :
    (ws : List ℕ) (len : ℕ) → AreWords ws → bcmswap16_buf (bcmswap16_buf ws len) len ≡ ws
unfolding bcmswap16_buf
bcmswap16_buf_twice ws len h = swap_words_twice (len / 2) ws h
