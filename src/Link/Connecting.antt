-- ===== src/Link/Connecting.antt =====
-- What the end of a connection attempt does to the link state, and how often it is reported.
use broadcom_bcm4312_fix.Prelude.{
  Bool, List, Option, [], arith, false, if◌then◌else◌, none, refl, some, suc, true, ℕ, ◌&&◌, ◌+◌,
  ◌∷◌, ◌≡◌,
}
use broadcom_bcm4312_fix.Link.{
  EventMsg, finish_completed, finish_connect, set_bssid, wl_bss_connect_done, wl_get_assoc_ies,
  wl_update_bss_info,
}
use broadcom_bcm4312_fix.Headers.{Status, ok}
use broadcom_bcm4312_fix.State.{
  Effect, Platform, World, connect_result, emit, get, modify, when, ◌>>=◌,
}
use broadcom_bcm4312_fix.Scan.{finish_scan}
use broadcom_bcm4312_fix.Link.Frame.{Quiet, wl_get_assoc_ies-Keeps, wl_update_bss_info-Keeps}
use broadcom_bcm4312_fix.Link.Total.{wl_bss_connect_done-Total}
use broadcom_bcm4312_fix.State.Keeps.{Ends, bind-Ends, get-Ends, modify-Ends}
use broadcom_bcm4312_fix.State.Total.{runs}
use broadcom_bcm4312_fix.Iovar.Laws.{MkiovarFits}

-- How many results of connection attempts were reported.
abbrev pub connect_reports : List Effect → ℕ
connect_reports [] = 0
connect_reports (connect_result a c b ∷ log) = suc (connect_reports log)
connect_reports (_ ∷ log) = connect_reports log

abbrev pub attempt : World → Bool × Bool × Option ℕ × ℕ
attempt w = (w.priv.connecting, w.priv.connected, w.priv.scan_request, connect_reports w.log)

attempt-Quiet : Quiet attempt
attempt-Quiet = record {
  ioctls = λ w c. refl;
  frames = λ i w. refl;
  reports = λ i w. refl;
  puts = λ w. refl;
  elements = λ e w. refl;
  infos = λ c w. refl;
  channels = λ c w. refl;
}

abbrev Attempted : Bool → Bool → World → Status → World → Type 0
Attempted pending completed w s w' = attempt w' ≡ (
  false,
  (if pending && completed then true else w.priv.connected),
  none,
  connect_reports w.log + (if pending then 1 else 0),
)

module _ (x : Platform) where
  report_last :
      (completed : Bool) (v w : World) (a : Status)
      → attempt w
        ≡ (false, (if completed then true else v.priv.connected), none, connect_reports v.log)
      → Ends
          (Attempted true completed v)
          (get >>= λ p. emit (connect_result p.bssid p.conn_info completed))
          w
  report_last completed v w a h = record { apply = λ s w' e. ground arith }

  completed_attempt :
      (e : EventMsg) (v w : World)
      → attempt w ≡ (false, v.priv.connected, none, connect_reports v.log)
      → Ends
          (λ a w'. attempt w' ≡ (false, true, none, connect_reports v.log))
          (finish_completed x e)
          w
  unfolding finish_completed
  completed_attempt e v w h = bind-Ends _ (wl_get_assoc_ies x) _ w λ a w1 e1.
      let q1 = (wl_get_assoc_ies-Keeps x attempt attempt-Quiet).apply w a w1 e1 in
      modify-Ends _ (set_bssid e.addr)
        (λ _. wl_update_bss_info x >>= λ _. modify (λ p. record p { connected = true })) w1
        (bind-Ends _ (wl_update_bss_info x) (λ _. modify (λ p. record p { connected = true })) _
          λ b w3 e3.
            let q2 = (wl_update_bss_info-Keeps x attempt attempt-Quiet).apply _ b w3 e3 in
            record { apply = λ s w' e'. ground arith })

  finish_connect-attempt :
      (e : EventMsg) (completed : Bool) (v w : World)
      → attempt w ≡ (false, v.priv.connected, none, connect_reports v.log)
      → Ends (Attempted true completed v) (finish_connect x e completed) w
  unfolding finish_connect
  finish_connect-attempt e false v w h = report_last false v w ok h
  finish_connect-attempt e true v w h =
      bind-Ends _ (finish_completed x e) _ w
        λ a w1 e1. report_last true v w1 a ((completed_attempt e v w h).apply a w1 e1)

  finish_scan-attempt :
      (w : World) (a : Status) (w' : World)
      → finish_scan true w ≡ some (a, w')
      → attempt w' ≡ (w.priv.connecting, w.priv.connected, none, connect_reports w.log)
  unfolding finish_scan
  finish_scan-attempt w a w' e = ground arith

  idle_or_pending :
      (e : EventMsg) (completed : Bool) (w w1 : World) (b : Bool)
      → b ≡ w.priv.connecting
      → attempt w1 ≡ (b, w.priv.connected, none, connect_reports w.log)
      → Ends
          (Attempted w.priv.connecting completed w)
          (when b
            (modify (λ q. record q { connecting = false }) >>= λ _. finish_connect x e completed))
          w1
  idle_or_pending e completed w w1 false c q = record { apply = λ s w' e'. ground arith }
  idle_or_pending e completed w w1 true c q =
      modify-Ends _ (λ p. record p { connecting = false }) (λ _. finish_connect x e completed) w1
        record {
          apply = λ s w' e'.
              let r = (finish_connect-attempt e completed w _ (ground arith)).apply s w' e' in
              ground arith;
        }

  done_attempt :
      (e : EventMsg) (completed : Bool) (w : World)
      → Ends (Attempted w.priv.connecting completed w) (wl_bss_connect_done x e completed) w
  unfolding wl_bss_connect_done
  done_attempt e completed w = bind-Ends _ (finish_scan true) _ w λ a w1 e1.
      let q = finish_scan-attempt w a w1 e1 in
      get-Ends _
        (λ p.
          when p.connecting
            (modify (λ q. record q { connecting = false }) >>= λ _. finish_connect x e completed))
        w1 (idle_or_pending e completed w w1 w1.priv.connecting (ground arith) (ground arith))

  -- Where bcm_mkiovar has room, wl_bss_connect_done returns. Then no attempt is pending and no scan
  -- is running any more; the link is CONNECTED if a pending attempt was completed, and otherwise as
  -- it was; and one result was reported if an attempt was pending, none if not.
  pub wl_bss_connect_done_reports :
      MkiovarFits x
      → (e : EventMsg) (completed : Bool) (w : World)
      → (s : Status) × (w' : World) × (wl_bss_connect_done x e completed w ≡ some (s, w'))
        × (w'.priv.connecting ≡ false)
        × (w'.priv.scan_request ≡ none)
        × (w'.priv.connected ≡ (if w.priv.connecting && completed then true else w.priv.connected))
        × (connect_reports w'.log ≡ connect_reports w.log + (if w.priv.connecting then 1 else 0))
  wl_bss_connect_done_reports fits e completed w =
      let (s, w', h) = runs _ (wl_bss_connect_done-Total x fits e completed) w in
      let q = (done_attempt e completed w).apply s w' h in
      (s, w', h, ground arith, ground arith, ground arith, ground arith)
