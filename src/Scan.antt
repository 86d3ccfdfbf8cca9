-- ===== src/Scan.antt =====
-- wl_cfg80211_scan, and the delivery of scan results: wl_inform_single_bss, wl_inform_bss and
-- wl_notify_scan_status (src/wl/sys/wl_cfg80211_hybrid.c).
pub mod Request
pub mod Target
pub mod Results
pub mod Total
use broadcom_bcm4312_fix.Prelude.{
  Bool, List, Option, [], false, if◌then◌else◌, is_none, leb, ltb, memcpy, min, none, not,
  replicate, some, suc, take, true, zero, ℕ, ◌%◌, ◌*◌, ◌+◌, ◌-◌, ◌==◌, ◌^◌, ◌||◌, ◌∷◌,
}
use broadcom_bcm4312_fix.Ie.{u16, wl_cp_ie, wl_get_ielen, wl_mrg_ie, wl_rst_ie}
use broadcom_bcm4312_fix.Iovar.{wl_dev_ioctl}
use broadcom_bcm4312_fix.Headers.{
  BssInfo, Bytes, ScanResults, Ssid, Status, ap_max, bss_info_max, bss_info_version, e2big, einval,
  enomem, eopnotsupp, fail, ghz2, ghz5, int_size, ok, scan_buf_base, scb_size, ssid_size, zero_ssid,
}
use broadcom_bcm4312_fix.State.{
  Ie, Inform, M, Platform, Priv, World, buffer_arg, emit, get, if_ok, inform_bss, inform_frame,
  int_arg, is_ok, modify, on_option, pure, put_bss, scan_done, ssid_arg, world, ◌>>=◌, ◌>>◌,
}
use broadcom_bcm4312_fix.Pmk.{same_bytes}
use broadcom_bcm4312_fix.Headers.Commands.{get_channel, scan, scan_results, set_passive_scan}
use broadcom_bcm4312_fix.Prelude.Int.{scale}

-- A struct cfg80211_scan_request: which one it is, and its first SSID.
pub record ScanRequest : Type 0 where
  pub id : ℕ
  pub ssids : Option Ssid

-- The SSID to look for: the first of the request, cut to 32 bytes, or none for a broadcast scan.
-- `min_t(u8, ...)` takes both numbers as bytes.
unfoldable pub scan_ssid : Option Ssid → Ssid
scan_ssid none = zero_ssid
scan_ssid (some s) =
    let n = min 32 (s.ssid_len % 256) in
    if n == 0 then zero_ssid else record { ssid_len = n; ssid = memcpy (replicate 32 0) 0 s.ssid n }

-- `notif_bss_info->channel`, a u16.
unfoldable pub channel_of : (ℕ → ℕ) → BssInfo → ℕ
channel_of chspec_channel bi =
    if bi.ctl_ch == 0 then u16 (chspec_channel bi.chanspec) else bi.ctl_ch

-- `scan_out`: a scan that could not be started is given up.
unfoldable pub back_out : Status → M Status
back_out ok = pure ok
back_out (fail e) = modify (λ p. record p { scan_request = none }) >>= λ _. pure (fail e)

-- How the loop over growing buffers ends: with results, without memory, or with an error. The
-- status is that of the last call, 0 before the first.
pub data Fetched : Type 0 where
  fetched : ScanResults → Fetched
  no_memory : Status → Fetched
  failed : Fetched

abbrev pub next_buflen : ℕ → ℕ
next_buflen buflen = buflen * 2 % 2 ^ 32

abbrev pub is_e2big : Status → Bool
is_e2big (fail e2big) = true
is_e2big _ = false

-- The rounds of the loop over growing buffers.
abbrev pub fetch_fuel : ℕ
fetch_fuel = 19

abbrev pub out_of_fuel : Option (Option (Fetched × World)) → Option (Fetched × World)
out_of_fuel none = none
out_of_fuel (some r) = r

-- The end of a scan is reported once, and the request is given up.
unfoldable pub finish_scan : Bool → M Status
finish_scan aborted = get >>= λ p.
    on_option p.scan_request (pure ok)
      (λ r. emit (scan_done r aborted) >> modify (λ p. record p { scan_request = none }))

-- The element stream goes through the buffer into the frame; the result is the bytes of the frame
-- behind `variable`, or the error.
unfoldable pub frame_ies : Ie → BssInfo → Status × Ie × Bytes
frame_ies ie bi =
    let (err, merged) = wl_mrg_ie (wl_rst_ie ie) bi.ies (u16 bi.ie_length) in
    if is_ok err
    then (let (err', dst) = wl_cp_ie merged (replicate bss_info_max 0) (bss_info_max - 8) in
        (err', merged, dst))
    else (err, merged, [])

module _ (x : Platform) where
  -- The two calls that start a scan.
  unfoldable pub start_scan : Bool → Ssid → M Status
  start_scan active_scan s = do
    wl_dev_ioctl x set_passive_scan (int_arg (if active_scan then 0 else 1)) int_size >>= λ r.
        pure r.status
    wl_dev_ioctl x scan (ssid_arg s) ssid_size >>= λ r. pure r.status

  unfoldable pub wl_cfg80211_scan : ScanRequest → M Status
  wl_cfg80211_scan request = do
    p ← get
    _ ←
        modify
          (λ p. record p { scan_request = some request.id; scan_req_int = scan_ssid request.ssids })
    err ← start_scan p.active_scan (scan_ssid request.ssids)
    back_out err

  -- `*notif_bss_info`, the frame's buffer included.
  abbrev pub notif_size : ℕ
  notif_size = 8 + x.sizeof_mgmt - 1 + bss_info_max

  unfoldable pub inform_of : Priv → BssInfo → ℕ → Bytes → Inform
  inform_of p bi channel ies = record {
    channel = channel;
    probe_resp = p.active_scan;
    own_ssid = same_bytes (take bi.ssid_len bi.ssid) (take bi.ssid_len p.scan_req_int.ssid);
    rssi = scale 100 bi.rssi;
    bssid = bi.bssid;
    beacon_int = bi.beacon_period;
    capab_info = bi.capability;
    ies = ies;
    frame_len = u16 (x.beacon_variable_offset + wl_get_ielen p.ie);
  }

  -- With no scan running the frame is reported, otherwise the parts of the BSS with its elements;
  -- a NULL result is -ENOMEM.
  unfoldable pub report_bss : BssInfo → ℕ → Bytes → M Status
  report_bss bi channel dst = get >>= λ p.
      (if is_none p.scan_request
        then emit (inform_frame (inform_of p bi channel (take (wl_get_ielen p.ie) dst)))
        else emit (inform_bss (inform_of p bi channel (take bi.ie_length bi.ies))))
      >>= λ _. world >>= λ w. if x.informed w.log then emit put_bss else pure (fail enomem)

  -- The rest, once the frame's buffer is there.
  unfoldable pub inform_one : BssInfo → M Status
  inform_one bi = get >>= λ p.
      let channel = channel_of x.chspec_channel bi in
      let freq = x.channel_to_frequency channel (if leb channel x.ch_max_2g then ghz2 else ghz5) in
      let (err, merged, dst) = frame_ies p.ie bi in
      modify (λ p. record p { ie = merged }) >>= λ _. if_ok err (
        if freq == 0 || is_none (x.get_channel freq)
        then pure (fail einval)
        else report_bss bi channel dst)

  unfoldable pub wl_inform_single_bss : BssInfo → M Status
  wl_inform_single_bss bi =
      if ltb bss_info_max bi.length
      then pure (fail e2big)
      else (world >>= λ w. if x.kmalloc w.log notif_size then inform_one bi else pure (fail enomem))

  -- for_each_bss: at most `count` and WL_AP_MAX entries, up to the first error.
  unfoldable pub inform_all : ℕ → List BssInfo → M Status
  inform_all zero bss = pure ok
  inform_all (suc left) [] = pure ok
  inform_all (suc left) (bi ∷ bss) =
      wl_inform_single_bss bi >>= λ err. if_ok err (inform_all left bss)

  unfoldable pub wl_inform_bss : ScanResults → M Status
  wl_inform_bss l =
      if l.version == bss_info_version
      then inform_all (min l.count ap_max) l.bss_info
      else pure (fail eopnotsupp)

  -- `for (buflen = WL_SCAN_BUF_BASE; ; )`, on fuel: the outer `none` is that it ran out, the inner
  -- one is BUG().
  unfoldable pub fetch_results : ℕ → ℕ → Status → World → Option (Option (Fetched × World))
  fetch_results zero buflen err w = none
  fetch_results (suc fuel) buflen err w =
      if not (x.kmalloc w.log buflen)
      then some (some (no_memory err, w))
      else elim (wl_dev_ioctl x scan_results (buffer_arg buflen) buflen w) [
        | none ↦ some none
        | some (r, w') ↦
            let again = fetch_results fuel (next_buflen buflen) r.status w' in
            if is_ok r.status
            then some (some (fetched r.results, w'))
            else if is_e2big r.status
            then again
            else some (some (failed, w'))
      ]

  unfoldable pub deliver : Fetched → M Status
  deliver (fetched l) = wl_inform_bss l
  deliver (no_memory err) = pure err
  deliver failed = pure (fail einval)

  unfoldable pub wl_notify_scan_status : M Status
  wl_notify_scan_status = wl_dev_ioctl x get_channel (int_arg 0) scb_size >>= λ r.
      (if is_ok r.status
        then ((λ w. out_of_fuel (fetch_results fetch_fuel scan_buf_base r.status w)) >>= λ f.
            deliver f)
        else pure r.status)
      >>= λ err. finish_scan false >>= λ _. pure err
