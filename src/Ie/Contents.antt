-- ===== src/Ie/Contents.antt =====
-- The element buffer against its specification: a string of at most 1024 bytes that grows at its end.
use broadcom_bcm4312_fix.Prelude.{
  [], ap, append_assoc, arith, drop, if◌then◌else◌, length, length-memcpy, length-take, ltb, memcpy,
  memcpy_start, suc, take, take-memcpy, take_all, take-memcpy_start, zero, ℕ, ◌++◌, ◌+◌, ◌∙◌, ◌∷◌,
  ◌≡◌, ◌≤◌,
}
use broadcom_bcm4312_fix.Ie.{wl_add_ie, wl_cp_ie, wl_mrg_ie, wl_rst_ie}
use broadcom_bcm4312_fix.Headers.{Bytes, Status, enospc, fail, ok, tlv_info_max}
use broadcom_bcm4312_fix.State.{Ie}
use broadcom_bcm4312_fix.Ie.Bounds.{IsValid}

-- The bytes collected so far.
abbrev pub contents : Ie → Bytes
contents ie = take ie.offset ie.buf

-- Appending to a bounded string: all of it, or none and -ENOSPC.
abbrev pub append_bounded : Bytes → Bytes → Status × Bytes
append_bounded old new =
    if ltb tlv_info_max (length old + length new) then (fail enospc, old) else (ok, old ++ new)

length-contents : {ie : Ie} → IsValid ie → length (contents ie) ≡ ie.offset
length-contents {ie} v = omega (arith, length-take ie.offset ie.buf, v)

add_bytes :
    (buf : Bytes) (off t l : ℕ) (v : Bytes)
    → off + l + 2 ≤ length buf
    → l ≤ length v
    → take (off + (l + 2)) (memcpy (memcpy buf off (t ∷ l ∷ []) 2) (off + 2) v l)
      ≡ take off buf ++ t ∷ l ∷ take l v
add_bytes buf off t l v fits enough =
    ap (λ n. take n (memcpy (memcpy buf off (t ∷ l ∷ []) 2) (off + 2) v l)) regroup
    ∙ take-memcpy (memcpy buf off (t ∷ l ∷ []) 2) (off + 2) v l
        (omega (arith, length-memcpy buf off (t ∷ l ∷ []) 2)) enough
    ∙ ap (λ s. s ++ take l v) (take-memcpy buf off (t ∷ l ∷ []) 2 (omega arith) (omega arith))
    ∙ append_assoc (take off buf) (t ∷ l ∷ []) (take l v)
  where
    regroup : off + (l + 2) ≡ off + 2 + l
    regroup = omega arith

-- On a valid buffer, and with `l` bytes of value at hand, wl_add_ie is the append of the element
-- `t l v` to the bounded string: same status, same contents, on both branches.
pub wl_add_ie_refines :
    {ie : Ie} (t l : ℕ) (v : Bytes)
    → IsValid ie
    → length v ≡ l
    → ((wl_add_ie ie t l v).0, contents (wl_add_ie ie t l v).1)
      ≡ append_bounded (contents ie) (t ∷ l ∷ v)
unfolding wl_add_ie
wl_add_ie_refines {ie} t l v valid enough =
    ground (arith, length-contents valid, add_bytes ie.buf ie.offset t l v, take_all l v enough)

-- On a valid buffer, and for a stream of `size` bytes, wl_mrg_ie is the append of the stream to the
-- bounded string: same status, same contents, on both branches.
wl_mrg_ie_refines :
    {ie : Ie} (stream : Bytes) (size : ℕ)
    → IsValid ie
    → length stream ≡ size
    → ((wl_mrg_ie ie stream size).0, contents (wl_mrg_ie ie stream size).1)
      ≡ append_bounded (contents ie) stream
unfolding wl_mrg_ie
wl_mrg_ie_refines {ie} stream size valid enough = ground (
  arith,
  length-contents valid,
  take-memcpy ie.buf ie.offset stream size,
  take_all size stream enough,
)

-- What wl_inform_single_bss does with the buffer: after wl_rst_ie, a stream that wl_mrg_ie accepts
-- is what wl_cp_ie writes at the start of a destination with room, which otherwise stays.
pub wl_cp_ie-wl_mrg_ie :
    {ie : Ie} (stream dst : Bytes) (size dst_size : ℕ)
    → IsValid ie
    → length stream ≡ size
    → size ≤ tlv_info_max
    → size ≤ dst_size
    → dst_size ≤ length dst
    → wl_cp_ie (wl_mrg_ie (wl_rst_ie ie) stream size).1 dst dst_size ≡ (ok, stream ++ drop size dst)
unfolding wl_cp_ie wl_mrg_ie wl_rst_ie
wl_cp_ie-wl_mrg_ie [] dst zero dst_size valid enough small room big = ground arith
wl_cp_ie-wl_mrg_ie (b ∷ stream) dst zero dst_size valid enough small room big = absurd (omega arith)
wl_cp_ie-wl_mrg_ie {ie} stream dst (suc n) dst_size valid enough small room big = ground (
  arith,
  take_all (suc n) stream enough,
  memcpy_start dst (memcpy ie.buf 0 stream (suc n)) (suc n),
  take-memcpy_start ie.buf stream (suc n),
)
