-- ===== src/Link/Total.antt =====
-- Whether the handlers of the link's events return: lemmas for what they call.
use broadcom_bcm4312_fix.Prelude.{Bool, Option, arith, true, ℕ}
use broadcom_bcm4312_fix.Iovar.{wl_dev_bufvar_get, wl_dev_intvar_get, wl_dev_ioctl}
use broadcom_bcm4312_fix.Link.{
  EventMsg, EventStatus, connect_status_bss, connect_status_ibss, fetch_ies, finish_completed,
  finish_connect, finish_ibss, inform_and_find, kmemdup, no_networks, read_dtim, set_active,
  success, wl_bss_connect_done, wl_bss_roaming_done, wl_get_assoc_ies, wl_notify_connect_status,
  wl_notify_roaming_status, wl_update_bss_info,
}
use broadcom_bcm4312_fix.Headers.{BssInfo, Bytes, IoVar, Status, extra_buf_max, int_size, ok}
use broadcom_bcm4312_fix.State.{ConnectInfo, M, Platform, buffer_arg, int_arg, modify, pure, ◌>>=◌}
use broadcom_bcm4312_fix.Scan.Total.{finish_scan-Total, wl_inform_single_bss-Total}
use broadcom_bcm4312_fix.State.Total.{Total, pure-Total, total_rules}
use broadcom_bcm4312_fix.Headers.Commands.{get_bss_info, get_dtimprd}
use broadcom_bcm4312_fix.Iovar.Laws.{MkiovarFits}
use broadcom_bcm4312_fix.Iovar.Total.{
  status-Total, wl_dev_bufvar_get-Total, wl_dev_intvar_get-Total, wl_dev_ioctl-Total,
}

module _ (x : Platform) (fits : MkiovarFits x) where
  get_var-Total : (v : IoVar) (n : ℕ) → Total (wl_dev_bufvar_get x v n)
  get_var-Total = wl_dev_bufvar_get-Total x fits

  kmemdup-Total : (bytes : Bytes) (n : ℕ) → Total (kmemdup x bytes n)
  unfolding kmemdup
  kmemdup-Total bytes n = search total_rules depth 12

  fetch_ies-Total :
      (v : IoVar) (n : ℕ) (store : Option Bytes → ℕ → ConnectInfo → ConnectInfo)
      → Total (fetch_ies x v n store)
  unfolding fetch_ies
  fetch_ies-Total v n store = search (total_rules, get_var-Total, kmemdup-Total) depth 14

  wl_get_assoc_ies-Total : Total (wl_get_assoc_ies x)
  unfolding wl_get_assoc_ies
  wl_get_assoc_ies-Total = search (total_rules, get_var-Total, fetch_ies-Total) depth 12

  dtim-Total : Total (wl_dev_ioctl x get_dtimprd (int_arg 0) int_size >>= λ r. pure r.status)
  dtim-Total = status-Total x get_dtimprd (int_arg 0) int_size (omega arith)

  read_dtim-Total : (ies : Bytes) → Total (read_dtim x ies)
  unfolding read_dtim
  read_dtim-Total ies = search (total_rules, dtim-Total) depth 12

  inform_and_find-Total : (bi : BssInfo) → Total (inform_and_find x bi)
  unfolding inform_and_find
  inform_and_find-Total bi =
      search (total_rules, wl_inform_single_bss-Total, read_dtim-Total) depth 12

  bss_info-Total : Total (wl_dev_ioctl x get_bss_info (buffer_arg extra_buf_max) extra_buf_max)
  bss_info-Total = wl_dev_ioctl-Total x _ _ extra_buf_max (omega arith)

  wl_update_bss_info-Total : Total (wl_update_bss_info x)
  unfolding wl_update_bss_info
  wl_update_bss_info-Total =
      search (total_rules, bss_info-Total, inform_and_find-Total, read_dtim-Total) depth 14

  finish_completed-Total : (e : EventMsg) → Total (finish_completed x e)
  unfolding finish_completed
  finish_completed-Total e =
      search (total_rules, wl_get_assoc_ies-Total, wl_update_bss_info-Total) depth 14

  pub wl_bss_connect_done-Total :
      (e : EventMsg) (completed : Bool) → Total (wl_bss_connect_done x e completed)
  unfolding wl_bss_connect_done finish_connect
  wl_bss_connect_done-Total e completed =
      search (total_rules, finish_scan-Total, finish_completed-Total) depth 14

  pub wl_bss_roaming_done-Total : (e : EventMsg) → Total (wl_bss_roaming_done x e)
  unfolding wl_bss_roaming_done
  wl_bss_roaming_done-Total e =
      search (total_rules, wl_get_assoc_ies-Total, wl_update_bss_info-Total) depth 14

  connect_status_bss-Total : (e : EventMsg) → Total (connect_status_bss x e)
  unfolding connect_status_bss
  connect_status_bss-Total e = search (total_rules, wl_bss_connect_done-Total) depth 14

  chanspec-Total : (v : IoVar) → Total (wl_dev_intvar_get x v)
  chanspec-Total = wl_dev_intvar_get-Total x fits

  finish_ibss-Total : Total (finish_ibss x)
  unfolding finish_ibss
  finish_ibss-Total = search (total_rules, chanspec-Total) depth 14

  connect_status_ibss-Total : (e : EventMsg) → Total (connect_status_ibss x e)
  unfolding connect_status_ibss
  connect_status_ibss-Total e =
      search (total_rules, wl_get_assoc_ies-Total, wl_update_bss_info-Total, finish_ibss-Total)
        depth 14

  pub wl_notify_connect_status-Total : (e : EventMsg) → Total (wl_notify_connect_status x e)
  unfolding wl_notify_connect_status
  wl_notify_connect_status-Total e =
      search (total_rules, connect_status_bss-Total, connect_status_ibss-Total) depth 14

  pub wl_notify_roaming_status-Total : (e : EventMsg) → Total (wl_notify_roaming_status x e)
  unfolding wl_notify_roaming_status
  wl_notify_roaming_status-Total e = by_status e.status
    where
      by_status :
          (s : EventStatus)
          → Total (elim s as (λ t. M Status) [
            | success ↦
                wl_bss_roaming_done x e >>= λ err. modify (set_active true) >>= λ _. pure err
            | _ ↦ pure ok
          ])
      by_status success = search (total_rules, wl_bss_roaming_done-Total) depth 14
      by_status no_networks = pure-Total ok
      by_status (EventStatus.raw n) = pure-Total ok
