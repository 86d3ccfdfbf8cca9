-- ===== src/Iface.antt =====
-- The interface type and what is read when the interface comes up: wl_cfg80211_change_iface,
-- wl_set_mode, wl_update_wowl, wl_update_wiphybands, wl_cfg80211_up, wl_cfg80211_down,
-- wl_cfg80211_leave_ibss and wl_mode_to_nl80211_iftype (src/wl/sys/wl_cfg80211_hybrid.c).
pub mod Mode
use broadcom_bcm4312_fix.Prelude.{
  Bool, Option, false, if◌then◌else◌, inl, inr, none, some, true, ℕ, ◌%◌, ◌&&◌, ◌==◌, ◌||◌, ◌⊎◌,
}
use broadcom_bcm4312_fix.Iovar.{wl_dev_bufvar_get, wl_dev_ioctl}
use broadcom_bcm4312_fix.Link.{wl_link_down}
use broadcom_bcm4312_fix.Connect.{or_einval}
use broadcom_bcm4312_fix.Headers.{
  Errno, IfType, IoVar, Status, adhoc, einval, eopnotsupp, fail, int_size, mode_bss, mode_ibss,
  monitor, ok, station, unspecified, wds,
}
use broadcom_bcm4312_fix.State.{M, Platform, get, if_ok, int_arg, is_ok, modify, pure, ◌>>=◌, ◌>>◌}
use broadcom_bcm4312_fix.Scan.{finish_scan}
use broadcom_bcm4312_fix.Headers.Commands.{get_phylist, set_ap, set_infra}

-- A driver mode as an interface type.
unfoldable pub wl_mode_to_nl80211_iftype : ℕ → IfType
wl_mode_to_nl80211_iftype mode =
    if mode == mode_bss then station else if mode == mode_ibss then adhoc else unspecified

-- What the switch of `change_iface` gives: an error, or the new mode and `infra`.
unfoldable pub iface_choice : IfType → Errno ⊎ (ℕ × ℕ)
iface_choice monitor = inl eopnotsupp
iface_choice wds = inl eopnotsupp
iface_choice adhoc = inr (mode_ibss, 0)
iface_choice station = inr (mode_bss, 1)
iface_choice unspecified = inl einval
iface_choice (IfType.raw n) = inl einval

-- What the switch of `wl_set_mode` gives.
unfoldable pub infra_choice : IfType → Option ℕ
infra_choice adhoc = some 0
infra_choice station = some 1
infra_choice _ = none

-- The first byte of the PHY list: 'n', 'a' or 'v'.
abbrev pub is_dual_band : ℕ → Bool
is_dual_band phy = phy == b'n' || phy == b'a' || phy == b'v'

module _ (x : Platform) where
  -- WLC_SET_INFRA, then WLC_SET_AP with 0.
  unfoldable pub send_mode : ℕ → M Status
  send_mode infra = do
    wl_dev_ioctl x set_infra (int_arg infra) int_size >>= λ r. pure r.status
    wl_dev_ioctl x set_ap (int_arg 0) int_size >>= λ r. pure r.status

  unfoldable pub wl_cfg80211_change_iface : IfType → M Status
  wl_cfg80211_change_iface type = elim (iface_choice type) [
    | inl e ↦ pure (fail e)
    | inr (mode, infra) ↦ do
      modify (λ p. record p { conf = record (p.conf) { mode = mode }; iftype = type })
      send_mode infra
  ]

  unfoldable pub wl_set_mode : IfType → M Status
  wl_set_mode type = or_einval (infra_choice type) send_mode

  unfoldable pub wl_update_wowl : M Status
  wl_update_wowl = wl_dev_bufvar_get x IoVar.offloads int_size >>= λ (err, r).
      if is_ok err && r.value == 1
      then modify (λ p. record p { offloads = true })
      else modify (λ p. record p { offloads = false; wowlan = false })

  unfoldable pub wl_update_wiphybands : M Status
  wl_update_wiphybands = wl_dev_ioctl x get_phylist (int_arg 0) int_size >>= λ r. if_ok r.status (
      if is_dual_band (r.value % 256)
      then modify (λ p. record p { band_5ghz_n = true })
      else pure ok)

  -- The status of wl_set_mode is dropped.
  unfoldable pub wl_cfg80211_up : M Status
  wl_cfg80211_up = do p ← get; _ ← wl_set_mode p.iftype; wl_update_wiphybands; wl_update_wowl

unfoldable pub wl_cfg80211_down : M Status
wl_cfg80211_down = finish_scan true

unfoldable pub wl_cfg80211_leave_ibss : M Status
wl_cfg80211_leave_ibss = modify wl_link_down
