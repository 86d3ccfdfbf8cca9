-- ===== src/Scan/Total.antt =====
-- Whether the functions of scanning return: lemmas for each of them.
use broadcom_bcm4312_fix.Prelude.{
  Bool, List, Option-cases, [], ap, arith, false, inl, inr, min, none, some, suc, true, zero, ℕ,
  ◌<◌, ◌^◌, ◌∙◌, ◌∷◌, ◌≡◌, ◌≢◌, ◌≤◌,
}
use broadcom_bcm4312_fix.Iovar.{call, wl_dev_ioctl}
use broadcom_bcm4312_fix.Headers.{
  BssInfo, Bytes, Ssid, Status, ap_max, einval, eopnotsupp, fail, int_size, ok, scan_buf_base,
  scb_size, ssid_size,
}
use broadcom_bcm4312_fix.State.{
  Effect, Ioctl, Platform, World, buffer_arg, int_arg, ioctl_call, is_ok, scan_done,
}
use broadcom_bcm4312_fix.Scan.{
  Fetched, ScanRequest, back_out, deliver, failed, fetch_fuel, fetch_results, fetched, finish_scan,
  inform_all, inform_one, next_buflen, no_memory, out_of_fuel, report_bss, start_scan,
  wl_cfg80211_scan, wl_inform_bss, wl_inform_single_bss, wl_notify_scan_status,
}
use broadcom_bcm4312_fix.Scan.Results.{fetch_results_ends}
use broadcom_bcm4312_fix.State.Total.{
  Total, bind-Total, emit-Total, get-Total, if-Total, if_ok-Total, modify-Total, on_option-Total,
  pure-Total, then-Total, total_rules,
}
use broadcom_bcm4312_fix.Headers.Commands.{get_channel, scan_results}
use broadcom_bcm4312_fix.Iovar.Total.{status-Total, wl_dev_ioctl-Total}

pub finish_scan-Total : (aborted : Bool) → Total (finish_scan aborted)
unfolding finish_scan
finish_scan-Total aborted = bind-Total _ _ get-Total λ p.
    on_option-Total p.scan_request _ _ (pure-Total ok)
      λ r. then-Total _ _ (emit-Total (scan_done r aborted)) (modify-Total _)

module _ (x : Platform) where
  report_bss-Total :
      (bi : BssInfo) (channel : ℕ) (dst : Bytes) → Total (report_bss x bi channel dst)
  unfolding report_bss
  report_bss-Total bi channel dst = search total_rules depth 12

  inform_one-Total : (bi : BssInfo) → Total (inform_one x bi)
  unfolding inform_one
  inform_one-Total bi = search (total_rules, report_bss-Total) depth 12

  pub wl_inform_single_bss-Total : (bi : BssInfo) → Total (wl_inform_single_bss x bi)
  unfolding wl_inform_single_bss
  wl_inform_single_bss-Total bi = search (total_rules, inform_one-Total) depth 12

  inform_all-Total : (left : ℕ) (bss : List BssInfo) → Total (inform_all x left bss)
  unfolding inform_all
  inform_all-Total zero bss = pure-Total ok
  inform_all-Total (suc left) [] = pure-Total ok
  inform_all-Total (suc left) (bi ∷ bss) =
      bind-Total _ _ (wl_inform_single_bss-Total bi)
        (λ err. if_ok-Total err _ (inform_all-Total left bss))

  deliver-Total : (f : Fetched) → Total (deliver x f)
  unfolding deliver wl_inform_bss
  deliver-Total (fetched l) =
      if-Total _ _ _ (inform_all-Total (min l.count ap_max) l.bss_info)
        (pure-Total (fail eopnotsupp))
  deliver-Total (no_memory err) = pure-Total err
  deliver-Total failed = pure-Total (fail einval)

  start_scan-Total : (b : Bool) (s : Ssid) → Total (start_scan x b s)
  unfolding start_scan
  start_scan-Total b s =
      then-Total _ _ (status-Total x _ _ int_size (omega arith))
        (status-Total x _ _ ssid_size (omega arith))

  back_out-Total : (s : Status) → Total (back_out s)
  unfolding back_out
  back_out-Total ok = pure-Total ok
  back_out-Total (fail e) = bind-Total _ _ (modify-Total _) (λ _. pure-Total (fail e))

  pub wl_cfg80211_scan-Total : (request : ScanRequest) → Total (wl_cfg80211_scan x request)
  unfolding wl_cfg80211_scan
  wl_cfg80211_scan-Total request = search (total_rules, start_scan-Total, back_out-Total) depth 12

  -- The kernel's allocator refuses 2 ^ 31 bytes, so that the doubled length never wraps.
  abbrev pub Limited : Type 0
  Limited = (log : List Effect) (n : ℕ) → x.kmalloc log n ≡ true → n < 2 ^ 31

  fetch_no_bug :
      (lim : Limited) (fuel buflen : ℕ) (err : Status) (w : World)
      → int_size ≤ buflen
      → buflen < 2 ^ 32
      → fetch_results x fuel buflen err w ≢ some none
  unfolding fetch_results wl_dev_ioctl call
  fetch_no_bug lim zero buflen err w low high e = ground arith
  fetch_no_bug lim (suc fuel) buflen err w low high e =
      let c : Ioctl = record { cmd = scan_results; arg = buffer_arg buflen; len = buflen } in
      let w' = record w { log = ioctl_call c ∷ w.log } in
      ground (
        arith,
        lim w.log buflen,
        fetch_no_bug lim fuel (next_buflen buflen) (x.reply w.log c).status w',
      )

  fetched-Total :
      (lim : Limited) (s : Status)
      → Total (λ w. out_of_fuel (fetch_results x fetch_fuel scan_buf_base s w))
  fetched-Total lim s = record {
    returns = λ w e. elim (Option-cases (fetch_results x fetch_fuel scan_buf_base s w)) [
      | inl stuck ↦ fetch_results_ends x s w stuck
      | inr (o, done) ↦
          fetch_no_bug lim fetch_fuel scan_buf_base s w (omega arith) (omega arith)
            (done ∙ ap some (rw done at e))
    ];
  }

  channel-Total : Total (wl_dev_ioctl x get_channel (int_arg 0) scb_size)
  channel-Total = wl_dev_ioctl-Total x get_channel (int_arg 0) scb_size (omega arith)

  pub wl_notify_scan_status-Total : Limited → Total (wl_notify_scan_status x)
  unfolding wl_notify_scan_status
  wl_notify_scan_status-Total lim = bind-Total _ _ channel-Total λ r.
      bind-Total _ _
        (if-Total (is_ok r.status) _ _ (bind-Total _ _ (fetched-Total lim r.status) deliver-Total)
          (pure-Total r.status))
        λ err. bind-Total _ _ (finish_scan-Total false) (λ _. pure-Total err)
