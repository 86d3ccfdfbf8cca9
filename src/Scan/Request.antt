-- ===== src/Scan/Request.antt =====
-- When a scan request is pending: after wl_cfg80211_scan and after wl_notify_scan_status.
use broadcom_bcm4312_fix.Prelude.{
  Bool, List, Option, Option-cases, [], ap, arith, false, if◌then◌else◌, inl, inr, is_some, none,
  refl, some, suc, zero, ℕ, ◌+◌, ◌∙◌, ◌∷◌, ◌≡◌,
}
use broadcom_bcm4312_fix.Iovar.{wl_dev_ioctl}
use broadcom_bcm4312_fix.Headers.{Ssid, Status, einval, fail, ok, scan_buf_base, scb_size}
use broadcom_bcm4312_fix.State.{
  Effect, Platform, World, buffer_arg, int_arg, is_ok, pure, scan_done, ◌>>=◌,
}
use broadcom_bcm4312_fix.Scan.{
  Fetched, ScanRequest, back_out, deliver, failed, fetch_fuel, fetch_results, fetched, finish_scan,
  next_buflen, no_memory, out_of_fuel, scan_ssid, start_scan, wl_cfg80211_scan,
  wl_notify_scan_status,
}
use broadcom_bcm4312_fix.Scan.Total.{Limited, wl_cfg80211_scan-Total, wl_notify_scan_status-Total}
use broadcom_bcm4312_fix.Link.Frame.{Quiet, wl_inform_bss-Keeps}
use broadcom_bcm4312_fix.State.Keeps.{
  Ends, Keeps, bind-Ends, bind-Keeps, if-Keeps, pure-Keeps, then-Keeps,
}
use broadcom_bcm4312_fix.State.Total.{runs}
use broadcom_bcm4312_fix.Headers.Commands.{get_channel, scan_results}
use broadcom_bcm4312_fix.Iovar.Frame.{status-Keeps, wl_dev_ioctl-Keeps}

-- How many scans were completed.
abbrev pub scans_done : List Effect → ℕ
scans_done [] = 0
scans_done (scan_done r a ∷ log) = suc (scans_done log)
scans_done (_ ∷ log) = scans_done log

abbrev pub scanning : World → Option ℕ × ℕ
scanning w = (w.priv.scan_request, scans_done w.log)

scanning-Quiet : Quiet scanning
scanning-Quiet = record {
  ioctls = λ w c. refl;
  frames = λ i w. refl;
  reports = λ i w. refl;
  puts = λ w. refl;
  elements = λ e w. refl;
  infos = λ c w. refl;
  channels = λ c w. refl;
}

module _ (x : Platform) where
  fetch_results-scanning :
      (fuel buflen : ℕ) (err : Status) (w : World) (f : Fetched) (w' : World)
      → fetch_results x fuel buflen err w ≡ some (some (f, w'))
      → scanning w' ≡ scanning w
  unfolding fetch_results
  fetch_results-scanning zero buflen err w f w' h = ground (arith, h)
  fetch_results-scanning (suc fuel) buflen err w f w' h =
      elim (Option-cases (wl_dev_ioctl x scan_results (buffer_arg buflen) buflen w)) [
        | inl e ↦ ground (arith, e, h)
        | inr ((r, w1), e) ↦ ground (
          arith,
          e,
          h,
          (wl_dev_ioctl-Keeps x scanning scanning-Quiet.ioctls _ _ _).apply w r w1 e,
          fetch_results-scanning fuel (next_buflen buflen) r.status w1 f w',
        )
      ]

  unpack :
      (o : Option (Option (Fetched × World))) (f : Fetched) (w' : World)
      → out_of_fuel o ≡ some (f, w')
      → o ≡ some (some (f, w'))
  unpack none f w' h = ground (arith, h)
  unpack (some o) f w' h = ap some h

  out_of_fuel-scanning :
      (fuel buflen : ℕ) (err : Status)
      → Keeps scanning (λ w. out_of_fuel (fetch_results x fuel buflen err w))
  out_of_fuel-scanning fuel buflen err = record {
    apply = λ w f w' h. fetch_results-scanning fuel buflen err w f w' (unpack _ f w' h);
  }

  deliver-scanning : (f : Fetched) → Keeps scanning (deliver x f)
  unfolding deliver
  deliver-scanning (fetched l) = wl_inform_bss-Keeps x scanning scanning-Quiet l
  deliver-scanning (no_memory err) = pure-Keeps scanning err
  deliver-scanning failed = pure-Keeps scanning (fail einval)

  read_results-scanning :
      (s : Status)
      → Keeps scanning (
          if is_ok s
          then ((λ w. out_of_fuel (fetch_results x fetch_fuel scan_buf_base s w)) >>= λ f.
              deliver x f)
          else pure s)
  read_results-scanning s =
      if-Keeps scanning _ _ _
        (bind-Keeps scanning _ _ (out_of_fuel-scanning fetch_fuel scan_buf_base s) deliver-scanning)
        (pure-Keeps scanning s)

  finish_scan-scanning :
      (w w2 : World) (err : Status)
      → scanning w2 ≡ scanning w
      → Ends
          (λ s w'.
            scanning w' ≡ (none, scans_done w.log + (if is_some w.priv.scan_request then 1 else 0)))
          (finish_scan false >>= λ _. pure err)
          w2
  unfolding finish_scan
  finish_scan-scanning w w2 err q = record {
    apply = λ s w' h. elim (Option-cases w2.priv.scan_request) [
      | inl e ↦ ground (arith, e, h)
      | inr (r, e) ↦ ground (arith, e, h)
    ];
  }

  notified :
      (w : World)
      → Ends
          (λ s w'.
            scanning w' ≡ (none, scans_done w.log + (if is_some w.priv.scan_request then 1 else 0)))
          (wl_notify_scan_status x)
          w
  unfolding wl_notify_scan_status
  notified w = bind-Ends _ (wl_dev_ioctl x get_channel (int_arg 0) scb_size) _ w λ r w1 e1.
      bind-Ends _
        (if is_ok r.status
          then ((λ w. out_of_fuel (fetch_results x fetch_fuel scan_buf_base r.status w)) >>= λ f.
              deliver x f)
          else pure r.status)
        (λ err. finish_scan false >>= λ _. pure err) w1
        λ err w2 e2. finish_scan-scanning w w2 err (
          (read_results-scanning r.status).apply w1 err w2 e2
          ∙ (wl_dev_ioctl-Keeps x scanning scanning-Quiet.ioctls _ _ _).apply w r w1 e1)

  start_scan-scanning : (b : Bool) (s : Ssid) → Keeps scanning (start_scan x b s)
  unfolding start_scan
  start_scan-scanning b s =
      then-Keeps scanning _ _ (status-Keeps x scanning scanning-Quiet.ioctls _ _ _)
        (status-Keeps x scanning scanning-Quiet.ioctls _ _ _)

  backed_out :
      (r : ℕ) (err : Status) (w : World)
      → w.priv.scan_request ≡ some r
      → Ends (λ s w'. w'.priv.scan_request ≡ (if is_ok s then some r else none)) (back_out err) w
  unfolding back_out
  backed_out r ok w e = record { apply = λ s w' h. ground arith }
  backed_out r (fail n) w e = record { apply = λ s w' h. ground arith }

  started :
      (request : ScanRequest) (w : World)
      → Ends
          (λ s w'. w'.priv.scan_request ≡ (if is_ok s then some request.id else none))
          (wl_cfg80211_scan x request)
          w
  unfolding wl_cfg80211_scan
  started request w = record {
    apply = λ s w' h.
        (bind-Ends (λ s w'. w'.priv.scan_request ≡ (if is_ok s then some request.id else none))
            (start_scan x w.priv.active_scan (scan_ssid request.ssids)) back_out
            (record w {
              priv = record (w.priv) {
                scan_request = some request.id;
                scan_req_int = scan_ssid request.ssids;
              };
            })
            (λ err w2 e2.
              let q = (start_scan-scanning _ _).apply _ err w2 e2 in
              backed_out request.id err w2 (ground arith))).apply
          s w' h;
  }

  -- If the kernel's allocator refuses 2 ^ 31 bytes, wl_notify_scan_status returns, with or without an
  -- error. Then no scan request is pending any more, and one completion was reported to cfg80211
  -- if a request was pending, none if not.
  pub wl_notify_scan_status_completes :
      Limited x
      → (w : World)
      → (s : Status) × (w' : World) × (wl_notify_scan_status x w ≡ some (s, w'))
        × (w'.priv.scan_request ≡ none)
        × (scans_done w'.log ≡ scans_done w.log + (if is_some w.priv.scan_request then 1 else 0))
  wl_notify_scan_status_completes lim w =
      let (s, w', h) = runs _ (wl_notify_scan_status-Total x lim) w in
      let q = (notified w).apply s w' h in (s, w', h, ground arith, ground arith)

  -- wl_cfg80211_scan returns; the request is pending if it was accepted, and none is pending if it
  -- was refused.
  wl_cfg80211_scan_pending :
      (request : ScanRequest) (w : World)
      → (s : Status) × (w' : World) × (wl_cfg80211_scan x request w ≡ some (s, w'))
        × (w'.priv.scan_request ≡ (if is_ok s then some request.id else none))
  wl_cfg80211_scan_pending request w =
      let (s, w', h) = runs _ (wl_cfg80211_scan-Total x request) w in
      (s, w', h, (started request w).apply s w' h)
