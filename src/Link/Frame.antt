-- ===== src/Link/Frame.antt =====
-- What reading an association and a BSS out of the firmware leaves alone.
use broadcom_bcm4312_fix.Prelude.{List, Option, [], min, none, suc, zero, ℕ, ◌∷◌, ◌≡◌}
use broadcom_bcm4312_fix.Iovar.{wl_dev_bufvar_get, wl_dev_ioctl}
use broadcom_bcm4312_fix.Link.{
  fetch_ies, inform_and_find, kmemdup, read_dtim, wl_get_assoc_ies, wl_update_bss_info,
}
use broadcom_bcm4312_fix.Headers.{
  BssInfo, Bytes, Channel, IoVar, ScanResults, ap_max, eopnotsupp, fail, ok,
}
use broadcom_bcm4312_fix.State.{
  Arg, ConnectInfo, Ie, Inform, Ioctl, Platform, World, emit, inform_bss, inform_frame, ioctl_call,
  modify, put_bss,
}
use broadcom_bcm4312_fix.Scan.{
  inform_all, inform_one, report_bss, wl_inform_bss, wl_inform_single_bss,
}
use broadcom_bcm4312_fix.State.Keeps.{
  Keeps, bind-Keeps, emit-Keeps, get-Keeps, if-Keeps, if_ok-Keeps, modify-Keeps, on_option-Keeps,
  pure-Keeps, then-Keeps, world-Keeps,
}
use broadcom_bcm4312_fix.Iovar.Frame.{wl_dev_bufvar_get-Keeps, wl_dev_ioctl-Keeps}

-- An observation of the world that does not see ioctls, reports of BSSs, the element buffer, the
-- elements of the association and the channel of the configuration.
pub record Quiet {B : Type 0} (f : World → B) : Type 0 where
  pub ioctls : (w : World) (c : Ioctl) → f (record w { log = ioctl_call c ∷ w.log }) ≡ f w
  pub frames : (i : Inform) (w : World) → f (record w { log = inform_frame i ∷ w.log }) ≡ f w
  pub reports : (i : Inform) (w : World) → f (record w { log = inform_bss i ∷ w.log }) ≡ f w
  pub puts : (w : World) → f (record w { log = put_bss ∷ w.log }) ≡ f w
  pub elements : (e : Ie) (w : World) → f (record w { priv = record (w.priv) { ie = e } }) ≡ f w
  pub infos :
      (c : ConnectInfo → ConnectInfo) (w : World)
      → f (record w { priv = record (w.priv) { conn_info = c w.priv.conn_info } }) ≡ f w
  pub channels :
      (c : Option Channel) (w : World)
      → f (record w { priv = record (w.priv) { conf = record (w.priv.conf) { channel = c } } })
        ≡ f w

module _ {B : Type 0} (x : Platform) (f : World → B) (q : Quiet f) where
  call-Keeps : (cmd : ℕ) (arg : Arg) (len : ℕ) → Keeps f (wl_dev_ioctl x cmd arg len)
  call-Keeps = wl_dev_ioctl-Keeps x f q.ioctls

  bufvar-Keeps : (v : IoVar) (n : ℕ) → Keeps f (wl_dev_bufvar_get x v n)
  bufvar-Keeps = wl_dev_bufvar_get-Keeps x f q.ioctls

  frame-Keeps : (i : Inform) → Keeps f (emit (inform_frame i))
  frame-Keeps i = emit-Keeps f (inform_frame i) (q.frames i)

  report-Keeps : (i : Inform) → Keeps f (emit (inform_bss i))
  report-Keeps i = emit-Keeps f (inform_bss i) (q.reports i)

  put-Keeps : Keeps f (emit put_bss)
  put-Keeps = emit-Keeps f put_bss q.puts

  element-Keeps : (e : Ie) → Keeps f (modify (λ p. record p { ie = e }))
  element-Keeps e = modify-Keeps f _ (q.elements e)

  info-Keeps :
      (c : ConnectInfo → ConnectInfo)
      → Keeps f (modify (λ p. record p { conn_info = c p.conn_info }))
  info-Keeps c = modify-Keeps f _ (q.infos c)

  channel-Keeps :
      (c : Option Channel)
      → Keeps f (modify (λ p. record p { conf = record (p.conf) { channel = c } }))
  channel-Keeps c = modify-Keeps f _ (q.channels c)

  ruleset quiet_rules = (
    call-Keeps, bufvar-Keeps, frame-Keeps, report-Keeps, put-Keeps, element-Keeps, info-Keeps,
    channel-Keeps, pure-Keeps, get-Keeps, world-Keeps, bind-Keeps, then-Keeps, if_ok-Keeps,
    if-Keeps, on_option-Keeps,
  )

  report_bss-Keeps :
      (bi : BssInfo) (channel : ℕ) (dst : Bytes) → Keeps f (report_bss x bi channel dst)
  unfolding report_bss
  report_bss-Keeps bi channel dst = search quiet_rules depth 12

  inform_one-Keeps : (bi : BssInfo) → Keeps f (inform_one x bi)
  unfolding inform_one
  inform_one-Keeps bi = search (quiet_rules, report_bss-Keeps) depth 12

  pub wl_inform_single_bss-Keeps : (bi : BssInfo) → Keeps f (wl_inform_single_bss x bi)
  unfolding wl_inform_single_bss
  wl_inform_single_bss-Keeps bi = search (quiet_rules, inform_one-Keeps) depth 12

  inform_all-Keeps : (left : ℕ) (bss : List BssInfo) → Keeps f (inform_all x left bss)
  unfolding inform_all
  inform_all-Keeps zero bss = pure-Keeps f ok
  inform_all-Keeps (suc left) [] = pure-Keeps f ok
  inform_all-Keeps (suc left) (bi ∷ bss) =
      bind-Keeps f _ _ (wl_inform_single_bss-Keeps bi)
        (λ err. if_ok-Keeps f err _ (inform_all-Keeps left bss))

  pub wl_inform_bss-Keeps : (l : ScanResults) → Keeps f (wl_inform_bss x l)
  unfolding wl_inform_bss
  wl_inform_bss-Keeps l =
      if-Keeps f _ _ _ (inform_all-Keeps (min l.count ap_max) l.bss_info)
        (pure-Keeps f (fail eopnotsupp))

  kmemdup-Keeps : (bytes : Bytes) (n : ℕ) → Keeps f (kmemdup x bytes n)
  unfolding kmemdup
  kmemdup-Keeps bytes n = search quiet_rules depth 12

  fetch_ies-Keeps :
      (v : IoVar) (n : ℕ) (store : Option Bytes → ℕ → ConnectInfo → ConnectInfo)
      → Keeps f (fetch_ies x v n store)
  unfolding fetch_ies
  fetch_ies-Keeps v n store = if-Keeps f _ _ _ (info-Keeps (store none 0)) (
      bind-Keeps f _ _ (bufvar-Keeps _ _) λ r.
        if_ok-Keeps f r.0 _
          (bind-Keeps f _ _ (kmemdup-Keeps _ _) λ copy. info-Keeps (store copy n)))

  pub wl_get_assoc_ies-Keeps : Keeps f (wl_get_assoc_ies x)
  unfolding wl_get_assoc_ies
  wl_get_assoc_ies-Keeps = search (quiet_rules, fetch_ies-Keeps) depth 12

  read_dtim-Keeps : (ies : Bytes) → Keeps f (read_dtim x ies)
  unfolding read_dtim
  read_dtim-Keeps ies = search quiet_rules depth 12

  inform_and_find-Keeps : (bi : BssInfo) → Keeps f (inform_and_find x bi)
  unfolding inform_and_find
  inform_and_find-Keeps bi =
      search (quiet_rules, wl_inform_single_bss-Keeps, read_dtim-Keeps) depth 12

  pub wl_update_bss_info-Keeps : Keeps f (wl_update_bss_info x)
  unfolding wl_update_bss_info
  wl_update_bss_info-Keeps = search (quiet_rules, inform_and_find-Keeps, read_dtim-Keeps) depth 14
