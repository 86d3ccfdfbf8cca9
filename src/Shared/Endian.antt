-- ===== src/Shared/Endian.antt =====
-- The order of bytes (src/include/bcmendian.h), on a machine that is little-endian as the header
-- takes it to be: swaps of unsigned words, and words in memory that is not aligned.
pub mod Agreement
use broadcom_bcm4312_fix.Prelude.{
  List, [], bit_and, bit_or, get_or, suc, zero, ℕ, ◌*◌, ◌/◌, ◌^◌, ◌∷◌,
}
use broadcom_bcm4312_fix.Headers.{Bytes}

-- BCMSWAP16, BCMSWAP32, BCMSWAP32BY16, BCMSWAP64 and BCMSWAP64BY32.
unfoldable pub bcmswap16 : ℕ → ℕ
bcmswap16 v = bit_or (bit_and v 0x00ff * 2 ^ 8) (bit_and v 0xff00 / 2 ^ 8)

unfoldable pub bcmswap32 : ℕ → ℕ
bcmswap32 v = bit_or (bit_and v 0x000000ff * 2 ^ 24) (
    bit_or (bit_and v 0x0000ff00 * 2 ^ 8)
      (bit_or (bit_and v 0x00ff0000 / 2 ^ 8) (bit_and v 0xff000000 / 2 ^ 24)))

unfoldable pub bcmswap32by16 : ℕ → ℕ
bcmswap32by16 v = bit_or (bit_and v 0x0000ffff * 2 ^ 16) (bit_and v 0xffff0000 / 2 ^ 16)

unfoldable pub bcmswap64 : ℕ → ℕ
bcmswap64 v = bit_or (bit_and v 0x00000000000000ff * 2 ^ 56) (
    bit_or (bit_and v 0x000000000000ff00 * 2 ^ 40) (
      bit_or (bit_and v 0x0000000000ff0000 * 2 ^ 24) (
        bit_or (bit_and v 0x00000000ff000000 * 2 ^ 8) (
          bit_or (bit_and v 0x000000ff00000000 / 2 ^ 8) (
            bit_or (bit_and v 0x0000ff0000000000 / 2 ^ 24) (
              bit_or (bit_and v 0x00ff000000000000 / 2 ^ 40)
                (bit_and v 0xff00000000000000 / 2 ^ 56)))))))

unfoldable pub bcmswap64by32 : ℕ → ℕ
bcmswap64by32 v =
    bit_or (bit_and v 0x00000000ffffffff * 2 ^ 32) (bit_and v 0xffffffff00000000 / 2 ^ 32)

-- The bytes that the stores write, in the order of their addresses, for a word of the type.
unfoldable pub htol16_ua_store : ℕ → Bytes
htol16_ua_store v = bit_and v 0xff ∷ v / 2 ^ 8 ∷ []

unfoldable pub htol32_ua_store : ℕ → Bytes
htol32_ua_store v =
    bit_and v 0xff ∷ bit_and (v / 2 ^ 8) 0xff ∷ bit_and (v / 2 ^ 16) 0xff ∷ v / 2 ^ 24 ∷ []

unfoldable pub hton16_ua_store : ℕ → Bytes
hton16_ua_store v = v / 2 ^ 8 ∷ bit_and v 0xff ∷ []

unfoldable pub hton32_ua_store : ℕ → Bytes
hton32_ua_store v =
    v / 2 ^ 24 ∷ bit_and (v / 2 ^ 16) 0xff ∷ bit_and (v / 2 ^ 8) 0xff ∷ bit_and v 0xff ∷ []

-- _LTOH16_UA, _LTOH32_UA, _NTOH16_UA and _NTOH32_UA at the bytes from `cp` on.
unfoldable pub ltoh16_ua : Bytes → ℕ
ltoh16_ua cp = bit_or (get_or cp 0 0) (get_or cp 1 0 * 2 ^ 8)

unfoldable pub ltoh32_ua : Bytes → ℕ
ltoh32_ua cp =
    bit_or (bit_or (bit_or (get_or cp 0 0) (get_or cp 1 0 * 2 ^ 8)) (get_or cp 2 0 * 2 ^ 16))
      (get_or cp 3 0 * 2 ^ 24)

unfoldable pub ntoh16_ua : Bytes → ℕ
ntoh16_ua cp = bit_or (get_or cp 0 0 * 2 ^ 8) (get_or cp 1 0)

unfoldable pub ntoh32_ua : Bytes → ℕ
ntoh32_ua cp =
    bit_or
      (bit_or (bit_or (get_or cp 0 0 * 2 ^ 24) (get_or cp 1 0 * 2 ^ 16)) (get_or cp 2 0 * 2 ^ 8))
      (get_or cp 3 0)

-- bcmswap16_buf: so many words of 16 bits from the buffer's start are swapped, the rest stays. A
-- buffer that is too short for its words is left where it ends.
unfoldable pub swap_words : ℕ → List ℕ → List ℕ
swap_words zero buf = buf
swap_words (suc n) [] = []
swap_words (suc n) (w ∷ buf) = bcmswap16 w ∷ swap_words n buf

-- `len` counts bytes.
unfoldable pub bcmswap16_buf : List ℕ → ℕ → List ℕ
bcmswap16_buf buf len = swap_words (len / 2) buf
