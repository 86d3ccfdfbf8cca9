-- ===== src/Wowl.antt =====
-- Wake on wireless LAN and the station statistics: wl_wowl_ind_wake_reason, wl_cfg80211_rekey,
-- wl_cfg80211_suspend, wl_cfg80211_resume and wl_cfg80211_get_station
-- (src/wl/sys/wl_cfg80211_hybrid.c).
pub mod Reasons
use broadcom_bcm4312_fix.Prelude.{
  Bool, Option, bit_and, bit_or, drop, get_or, if◌then◌else◌, none, not, or_if, replicate, some,
  take, ℕ, ◌*◌, ◌++◌, ◌+◌, ◌==◌, ◌^◌, ◌||◌,
}
use broadcom_bcm4312_fix.Iovar.{
  wl_dev_bufvar_get, wl_dev_bufvar_set, wl_dev_intvar_get, wl_dev_intvar_set, wl_dev_ioctl,
}
use broadcom_bcm4312_fix.Headers.{
  Addr, Bytes, Status, Wakeup, enoent, fail, int_size, ok, scb_size, wowl, wowl_replay,
  wowl_wakeind, zero_addr,
}
use broadcom_bcm4312_fix.State.{
  M, Platform, emit, get, int_arg, pure, rekey_notify, scb_arg, var_bytes, wowlan_wakeup, ◌>>=◌,
  ◌>>◌,
}
use broadcom_bcm4312_fix.Pmk.{same_bytes}
use broadcom_bcm4312_fix.Headers.Commands.{get_rate, get_rssi}

-- The WL_WOWL_* bits of src/include/wlioctl.h.
abbrev pub wowl_magic : ℕ
wowl_magic = 2 ^ 0

abbrev pub wowl_dis : ℕ
wowl_dis = 2 ^ 2

abbrev pub wowl_bcn : ℕ
wowl_bcn = 2 ^ 4

abbrev pub wowl_m1 : ℕ
wowl_m1 = 2 ^ 6

abbrev pub wowl_eapid : ℕ
wowl_eapid = 2 ^ 7

abbrev pub wowl_gtk_failure : ℕ
wowl_gtk_failure = 2 ^ 10

abbrev pub wowl_keyrot : ℕ
wowl_keyrot = 2 ^ 14

-- struct cfg80211_wowlan, the wake conditions that are asked for.
pub record Wowlan : Type 0 where
  pub disconnect : Bool
  pub magic_pkt : Bool
  pub gtk_rekey_failure : Bool
  pub four_way_handshake : Bool

-- struct cfg80211_gtk_rekey_data
pub record RekeyData : Type 0 where
  pub kek : Bytes
  pub kck : Bytes
  pub replay_ctr : Bytes

-- What `wl_cfg80211_get_station` fills in: the bits of `filled` are the two options.
pub record StationInfo : Type 0 where
  pub txrate_legacy : Option ℕ
  pub signal : Option ℕ

abbrev pub has_bit : ℕ → ℕ → Bool
has_bit w b = not (bit_and w b == 0)

-- The wake reasons of a firmware word.
unfoldable pub wakeup_of : ℕ → Wakeup
wakeup_of w = record {
  magic_pkt = has_bit w wowl_magic;
  disconnect = has_bit w wowl_dis || has_bit w wowl_bcn;
  gtk_rekey_failure = has_bit w wowl_gtk_failure;
  eap_identity_req = has_bit w wowl_eapid;
  four_way_handshake = has_bit w wowl_m1;
}

-- The wake word for the conditions, over the one that was read.
unfoldable pub wowl_word : Wowlan → ℕ → ℕ
wowl_word c w =
    bit_or
      (or_if c.four_way_handshake wowl_m1 (
        or_if c.gtk_rekey_failure wowl_gtk_failure
          (or_if c.magic_pkt wowl_magic (or_if c.disconnect (wowl_dis + wowl_bcn) w))))
      wowl_keyrot

-- sizeof(wl_wowl_wakeind_t) and sizeof(wlc_rekey_info_t)
abbrev pub wakeind_size : ℕ
wakeind_size = 8

abbrev pub rekey_size : ℕ
rekey_size = 4 + 16 + 16 + 8

-- The int behind the first word of a reply: the second word of a wl_wowl_wakeind_t.
unfoldable pub second_word : Bytes → ℕ
second_word b = get_or b 4 0 + get_or b 5 0 * 2 ^ 8 + get_or b 6 0 * 2 ^ 16 + get_or b 7 0 * 2 ^ 24

module _ (x : Platform) where
  -- -1 is `none`, 0 is `some none`, 1 is a wakeup that was filled in.
  unfoldable pub wl_wowl_ind_wake_reason : M (Option (Option Wakeup))
  wl_wowl_ind_wake_reason = wl_dev_bufvar_get x wowl_wakeind wakeind_size >>= λ (err, r).
      pure (elim err [
        | fail e ↦ none
        | ok ↦
            if second_word r.bytes == 0
            then some none
            else some (some (wakeup_of (second_word r.bytes)))
      ])

  -- kek, kck and the replay counter behind a zero `offload_id`.
  unfoldable pub wl_cfg80211_rekey : RekeyData → M Status
  wl_cfg80211_rekey d = get >>= λ p.
      if p.offloads
      then wl_dev_bufvar_set x
          (var_bytes wowl_replay
            (replicate 4 0 ++ (take 16 d.kek ++ (take 16 d.kck ++ take 8 d.replay_ctr))))
          wowl_replay rekey_size
      else pure ok

  -- An error of the read is logged only, and the word that it left is used.
  unfoldable pub wl_cfg80211_suspend : Option Wowlan → M Status
  wl_cfg80211_suspend none = pure ok
  wl_cfg80211_suspend (some c) = get >>= λ p.
      if p.connected
      then (wl_dev_intvar_get x wowl >>= λ (err, w). wl_dev_intvar_set x wowl (wowl_word c w))
      else pure ok

  unfoldable pub report_wakeup : Option (Option Wakeup) → M Status
  report_wakeup none = pure ok
  report_wakeup (some r) = emit (wowlan_wakeup r)

  unfoldable pub wl_cfg80211_resume : M Status
  wl_cfg80211_resume = do
    r ← wl_wowl_ind_wake_reason
    _ ← report_wakeup r
    p ← get
    wl_dev_bufvar_get x wowl_replay rekey_size >>= λ (err, reply). elim err [
      | ok ↦ emit (rekey_notify p.bssid (drop 36 reply.bytes))
      | fail e ↦ pure ok
    ]

  -- The status of WLC_GET_RATE is what is returned where the link is down.
  unfoldable pub wl_cfg80211_get_station : Addr → M (Status × StationInfo)
  wl_cfg80211_get_station mac = get >>= λ p.
      if not (same_bytes mac p.profile.bssid)
      then pure (fail enoent, record { txrate_legacy = none; signal = none })
      else (wl_dev_ioctl x get_rate (int_arg 0) int_size >>= λ r.
          let rate : Option ℕ = elim r.status [ ok ↦ some (r.value * 5) | fail e ↦ none ] in
          if p.connected
          then (wl_dev_ioctl x get_rssi (scb_arg zero_addr 0) scb_size >>= λ s.
              pure (elim s.status [
                | ok ↦ (ok, record { txrate_legacy = rate; signal = some s.value })
                | fail e ↦ (fail e, record { txrate_legacy = rate; signal = none })
              ]))
          else pure (r.status, record { txrate_legacy = rate; signal = none }))
