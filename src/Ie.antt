-- ===== src/Ie.antt =====
-- The buffer of information elements: wl_rst_ie, wl_add_ie, wl_mrg_ie, wl_cp_ie and wl_get_ielen
-- (src/wl/sys/wl_cfg80211_hybrid.c).
pub mod Bounds
pub mod Contents
use broadcom_bcm4312_fix.Prelude.{[], if◌then◌else◌, leb, ltb, memcpy, ℕ, ◌%◌, ◌&&◌, ◌+◌, ◌^◌, ◌∷◌}
use broadcom_bcm4312_fix.Headers.{Bytes, Status, enospc, fail, ok, tlv_info_max}
use broadcom_bcm4312_fix.State.{Ie}

-- A u16 field.
abbrev pub u16 : ℕ → ℕ
u16 n = n % 2 ^ 16

unfoldable pub wl_rst_ie : Ie → Ie
wl_rst_ie ie = record ie { offset = 0 }

-- One element: its type, its length and `l` bytes of `v`.
unfoldable pub wl_add_ie : Ie → ℕ → ℕ → Bytes → Status × Ie
wl_add_ie ie t l v = if ltb tlv_info_max (ie.offset + l + 2) then (fail enospc, ie) else (
  ok,
  record {
    offset = u16 (ie.offset + (l + 2));
    buf = memcpy (memcpy ie.buf ie.offset (t ∷ l ∷ []) 2) (ie.offset + 2) v l;
  },
)

-- A stream of elements, as it is.
unfoldable pub wl_mrg_ie : Ie → Bytes → ℕ → Status × Ie
wl_mrg_ie ie stream size =
    if ltb tlv_info_max (ie.offset + size)
    then (fail enospc, ie)
    else (ok, record { offset = u16 (ie.offset + size); buf = memcpy ie.buf ie.offset stream size })

-- The collected bytes go to `dst`, which has room for `dst_size` of them.
unfoldable pub wl_cp_ie : Ie → Bytes → ℕ → Status × Bytes
wl_cp_ie ie dst dst_size = if ltb dst_size ie.offset then (fail enospc, dst) else (
  ok,
  if ltb 0 ie.offset && leb ie.offset tlv_info_max then memcpy dst 0 ie.buf ie.offset else dst,
)

unfoldable pub wl_get_ielen : Ie → ℕ
wl_get_ielen ie = ie.offset
