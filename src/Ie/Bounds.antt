-- ===== src/Ie/Bounds.antt =====
-- The bounds of the element buffer (struct wl_cfg80211_ie) and of the copies out of it.
use broadcom_bcm4312_fix.Prelude.{[], arith, length, length-memcpy, memcpy, ℕ, ◌+◌, ◌∷◌, ◌≡◌, ◌≤◌}
use broadcom_bcm4312_fix.Ie.{wl_add_ie, wl_cp_ie, wl_mrg_ie, wl_rst_ie}
use broadcom_bcm4312_fix.Headers.{Bytes, tlv_info_max}
use broadcom_bcm4312_fix.State.{Ie}

-- struct wl_cfg80211_ie as the operations keep it: a buffer of its declared size, and an offset in it.
pub record IsValid (ie : Ie) : Type 0 where
  pub size : length ie.buf ≡ tlv_info_max
  pub inside : ie.offset ≤ tlv_info_max

-- wl_rst_ie empties the buffer and keeps it valid.
pub wl_rst_ie-IsValid : {ie : Ie} → IsValid ie → IsValid (wl_rst_ie ie)
unfolding wl_rst_ie
wl_rst_ie-IsValid v = ground arith

-- From a valid buffer wl_add_ie, given at least `l` bytes of value, writes inside the buffer and
-- keeps it valid, whether it accepts the element or refuses it.
pub wl_add_ie-IsValid :
    {ie : Ie} (t l : ℕ) (v : Bytes) → l ≤ length v → IsValid ie → IsValid (wl_add_ie ie t l v).1
unfolding wl_add_ie
wl_add_ie-IsValid {ie} t l v enough valid = ground (
  arith,
  length-memcpy ie.buf ie.offset (t ∷ l ∷ []) 2,
  length-memcpy (memcpy ie.buf ie.offset (t ∷ l ∷ []) 2) (ie.offset + 2) v l,
)

-- From a valid buffer wl_mrg_ie, given a stream of at least `size` bytes, writes inside the buffer
-- and keeps it valid, whether it accepts the stream or refuses it.
pub wl_mrg_ie-IsValid :
    {ie : Ie} (stream : Bytes) (size : ℕ)
    → size ≤ length stream
    → IsValid ie
    → IsValid (wl_mrg_ie ie stream size).1
unfolding wl_mrg_ie
wl_mrg_ie-IsValid {ie} stream size enough valid =
    ground (arith, length-memcpy ie.buf ie.offset stream size)

-- wl_cp_ie from a valid buffer never writes past `dst`, if `dst` has the size that it is told.
length-wl_cp_ie :
    {ie : Ie} (dst : Bytes) (dst_size : ℕ)
    → IsValid ie
    → dst_size ≤ length dst
    → length (wl_cp_ie ie dst dst_size).1 ≡ length dst
unfolding wl_cp_ie
length-wl_cp_ie {ie} dst dst_size valid room = ground (arith, length-memcpy dst 0 ie.buf ie.offset)
