-- ===== src/Params/Order.antt =====
-- How many of several changed parameters wl_cfg80211_set_wiphy_params gets into the firmware.
use broadcom_bcm4312_fix.Prelude.{
  Bool, Bool-cases, List, [], arith, false, if◌then◌else◌, inl, inr, refl, some, true, ℕ, ◌&&◌, ◌+◌,
  ◌==◌, ◌||◌, ◌∷◌, ◌≡◌, ◌⊎◌,
}
use broadcom_bcm4312_fix.Iovar.{call, wl_dev_intvar_set, wl_dev_ioctl}
use broadcom_bcm4312_fix.Headers.{
  IoVar, Status, fail, fragthresh, int_size, ioctl_smlen, ok, rtsthresh,
}
use broadcom_bcm4312_fix.State.{
  Arg, Conf, Effect, M, Platform, World, int_arg, ioctl_call, is_ok, pure, var_word, ◌>>=◌,
}
use broadcom_bcm4312_fix.Params.{
  Wiphy, apply_param, due, wl_cfg80211_set_wiphy_params, wl_set_frag, wl_set_retry, wl_set_rts,
}
use broadcom_bcm4312_fix.State.Keeps.{Ends, bind-Ends, modify-Ends}
use broadcom_bcm4312_fix.State.Total.{
  Total, bind-Total, if-Total, modify-Total, pure-Total, runs, total_rules,
}
use broadcom_bcm4312_fix.Headers.Commands.{set_var}
use broadcom_bcm4312_fix.Iovar.Laws.{MkiovarFits}
use broadcom_bcm4312_fix.Iovar.Total.{status-Total, wl_dev_intvar_set-Total}

-- How many of the calls in a log the firmware accepted.
abbrev pub accepted_calls : Platform → List Effect → ℕ
accepted_calls x [] = 0
accepted_calls x (ioctl_call c ∷ log) =
    let rest = accepted_calls x log in if is_ok (x.reply log c).status then rest + 1 else rest
accepted_calls x (_ ∷ log) = accepted_calls x log

abbrev pub one_if : Bool → ℕ
one_if b = if b then 1 else 0

module _ (x : Platform) where
  -- A block, and what follows it, where `d` says whether any parameter is due.
  abbrev Accepts : Bool → Status → World → Status → World → Type 0
  Accepts d err w s w' =
      (accepted_calls x w'.log ≡ accepted_calls x w.log + one_if (d && is_ok s))
      × ((d ≡ true) ⊎ (s ≡ err))

  abbrev Sent : World → Status → World → Type 0
  Sent w s w' = accepted_calls x w'.log ≡ accepted_calls x w.log + one_if (is_ok s)

  status-Sent :
      (cmd : ℕ) (arg : Arg) (len : ℕ) (w : World)
      → Ends (Sent w) (wl_dev_ioctl x cmd arg len >>= λ r. pure r.status) w
  unfolding wl_dev_ioctl call
  status-Sent cmd arg len w = record { apply = λ s w' e. ground (arith, e) }

  wl_dev_intvar_set-Sent :
      (v : IoVar) (n : ℕ) (w : World) → Ends (Sent w) (wl_dev_intvar_set x v n) w
  unfolding wl_dev_intvar_set
  wl_dev_intvar_set-Sent v n w = record {
    apply = λ s w' e. elim (Bool-cases (x.mkiovar v int_size ioctl_smlen == 0)) [
      | inl bad ↦ ground (arith, bad, e)
      | inr good ↦ (status-Sent set_var (var_word v n) _ w).apply s w' (rw good at e)
    ];
  }

  apply_param-Accepts :
      (is_due d : Bool) (store : Conf → Conf) (send : M Status) (later : Status → M Status)
      → ((w : World) → Ends (Sent w) send w)
      → ((err : Status) (w : World) → Ends (Accepts d err w) (later err) w)
      → (err : Status) (w : World)
      → Ends (Accepts (is_due || d) err w) (apply_param is_due store send later err) w
  unfolding apply_param
  apply_param-Accepts false d store send later hs hn err w = hn err w
  apply_param-Accepts true d store send later hs hn err w =
      modify-Ends _ (λ p. record p { conf = store p.conf })
        (λ _. send >>= λ r. if is_ok r then pure r else later r) w
        (bind-Ends _ send (λ r. if is_ok r then pure r else later r) _ after)
    where
      after :
          (r : Status) (w1 : World)
          → send (record w { priv = record (w.priv) { conf = store w.priv.conf } }) ≡ some (r, w1)
          → Ends (Accepts true err w) (if is_ok r then pure r else later r) w1
      after ok w1 e = record {
        apply = λ s w' h. let q = (hs _).apply ok w1 e in (ground (arith, h, q), inl refl);
      }
      after (fail n) w1 e = record {
        apply = λ s w' h.
            let q = (hs _).apply (fail n) w1 e in
            let t = (hn (fail n) w1).apply s w' h in (ground (arith, q, t), inl refl);
      }

  apply_param-Total :
      (is_due : Bool) (store : Conf → Conf) (send : M Status) (later : Status → M Status)
      → Total send
      → ((err : Status) → Total (later err))
      → (err : Status) → Total (apply_param is_due store send later err)
  unfolding apply_param
  apply_param-Total false store send later hs hl err = hl err
  apply_param-Total true store send later hs hl err =
      bind-Total _ _ (modify-Total _)
        λ _. bind-Total _ _ hs λ r. if-Total (is_ok r) _ _ (pure-Total r) (hl r)

  wl_set_rts-Sent : (n : ℕ) (w : World) → Ends (Sent w) (wl_set_rts x n) w
  unfolding wl_set_rts
  wl_set_rts-Sent n w = wl_dev_intvar_set-Sent rtsthresh n w

  wl_set_frag-Sent : (n : ℕ) (w : World) → Ends (Sent w) (wl_set_frag x n) w
  unfolding wl_set_frag
  wl_set_frag-Sent n w = wl_dev_intvar_set-Sent fragthresh n w

  wl_set_retry-Sent : (n : ℕ) (l : Bool) (w : World) → Ends (Sent w) (wl_set_retry x n l) w
  unfolding wl_set_retry
  wl_set_retry-Sent n l w = status-Sent _ (int_arg n) int_size w

  nothing_left : (err : Status) (w : World) → Ends (Accepts false err w) (pure err) w
  nothing_left err w = record { apply = λ s w' e. (ground (arith, e), inr (ground (arith, e))) }

  -- Whether any parameter is to be changed.
  abbrev pub any_due : Wiphy → ℕ → Conf → Bool
  any_due wiphy changed c =
      due x changed x.param_rts_threshold c.rts_threshold wiphy.rts_threshold
      || (due x changed x.param_frag_threshold c.frag_threshold wiphy.frag_threshold
          || (due x changed x.param_retry_long c.retry_long wiphy.retry_long
              || (due x changed x.param_retry_short c.retry_short wiphy.retry_short || false)))

  set_params-Accepts :
      (wiphy : Wiphy) (changed : ℕ) (w : World)
      → Ends
          (Accepts (any_due wiphy changed w.priv.conf) ok w)
          (wl_cfg80211_set_wiphy_params x wiphy changed)
          w
  unfolding wl_cfg80211_set_wiphy_params
  set_params-Accepts wiphy changed w = record {
    apply =
        (apply_param-Accepts
          (due x changed x.param_rts_threshold w.priv.conf.rts_threshold wiphy.rts_threshold) _
          (λ c. record c { rts_threshold = wiphy.rts_threshold }) _ _
          (wl_set_rts-Sent wiphy.rts_threshold)
          (apply_param-Accepts
            (due x changed x.param_frag_threshold w.priv.conf.frag_threshold wiphy.frag_threshold) _
            (λ c. record c { frag_threshold = wiphy.frag_threshold }) _ _
            (wl_set_frag-Sent wiphy.frag_threshold)
            (apply_param-Accepts
              (due x changed x.param_retry_long w.priv.conf.retry_long wiphy.retry_long) _
              (λ c. record c { retry_long = wiphy.retry_long }) _ _
              (wl_set_retry-Sent wiphy.retry_long true)
              (apply_param-Accepts
                (due x changed x.param_retry_short w.priv.conf.retry_short wiphy.retry_short) _
                (λ c. record c { retry_short = wiphy.retry_short }) _ _
                (wl_set_retry-Sent wiphy.retry_short false) nothing_left)))
          ok w).apply;
  }

  module _ (fits : MkiovarFits x) where
    set_var-Total : (v : IoVar) (n : ℕ) → Total (wl_dev_intvar_set x v n)
    set_var-Total = wl_dev_intvar_set-Total x fits

    set_int-Total :
        (cmd n : ℕ) → Total (wl_dev_ioctl x cmd (int_arg n) int_size >>= λ r. pure r.status)
    set_int-Total cmd n = status-Total x cmd (int_arg n) int_size (omega arith)

    set_params-Total :
        (wiphy : Wiphy) (changed : ℕ) → Total (wl_cfg80211_set_wiphy_params x wiphy changed)
    unfolding wl_cfg80211_set_wiphy_params wl_set_rts wl_set_frag wl_set_retry
    set_params-Total wiphy changed =
        search (total_rules, apply_param-Total, set_var-Total, set_int-Total) depth 14

  -- Where bcm_mkiovar has room, wl_cfg80211_set_wiphy_params returns. However many of the four
  -- parameters are to be changed, the firmware has accepted exactly one call more if there are any
  -- and 0 is returned, and none if an error is returned or nothing is to be changed, in which case
  -- 0 is returned.
  pub wl_cfg80211_set_wiphy_params_one :
      MkiovarFits x
      → (wiphy : Wiphy) (changed : ℕ) (w : World)
      → (s : Status) × (w' : World) × (wl_cfg80211_set_wiphy_params x wiphy changed w
          ≡ some (s, w'))
        × (accepted_calls x w'.log
            ≡ accepted_calls x w.log + one_if (any_due wiphy changed w.priv.conf && is_ok s))
        × ((any_due wiphy changed w.priv.conf ≡ true) ⊎ (s ≡ ok))
  wl_cfg80211_set_wiphy_params_one fits wiphy changed w =
      let (s, w', h) = runs _ (set_params-Total fits wiphy changed) w in
      let (count, why) = (set_params-Accepts wiphy changed w).apply s w' h in (s, w', h, count, why)
