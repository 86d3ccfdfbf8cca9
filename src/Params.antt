-- ===== src/Params.antt =====
-- wl_set_rts, wl_set_frag, wl_set_retry and wl_cfg80211_set_wiphy_params
-- (src/wl/sys/wl_cfg80211_hybrid.c).
pub mod Order
use broadcom_bcm4312_fix.Prelude.{Bool, bit_and, false, if◌then◌else◌, not, true, ℕ, ◌&&◌, ◌==◌}
use broadcom_bcm4312_fix.Iovar.{wl_dev_intvar_set, wl_dev_ioctl}
use broadcom_bcm4312_fix.Headers.{Status, fragthresh, int_size, ok, rtsthresh}
use broadcom_bcm4312_fix.State.{Conf, M, Platform, get, int_arg, is_ok, modify, pure, ◌>>=◌}
use broadcom_bcm4312_fix.Headers.Commands.{set_lrl, set_srl}

-- The parameters of struct wiphy that the kernel may have changed.
pub record Wiphy : Type 0 where
  pub rts_threshold : ℕ
  pub frag_threshold : ℕ
  pub retry_long : ℕ
  pub retry_short : ℕ

-- One block of wl_cfg80211_set_wiphy_params: where the parameter is to be changed, the new value
-- is stored and sent, and `if (!err) return err`. What follows gets the status so far.
pub apply_param : Bool → (Conf → Conf) → M Status → (Status → M Status) → Status → M Status
apply_param due store send next err =
    if due
    then (modify (λ p. record p { conf = store p.conf }) >>= λ _.
        send >>= λ r. if is_ok r then pure r else next r)
    else next err

module _ (x : Platform) where
  unfoldable pub wl_set_rts : ℕ → M Status
  wl_set_rts threshold = wl_dev_intvar_set x rtsthresh threshold

  unfoldable pub wl_set_frag : ℕ → M Status
  wl_set_frag threshold = wl_dev_intvar_set x fragthresh threshold

  unfoldable pub wl_set_retry : ℕ → Bool → M Status
  wl_set_retry retry l =
      wl_dev_ioctl x (if l then set_lrl else set_srl) (int_arg retry) int_size >>= λ r.
      pure r.status

  -- `changed & mask && conf != wiphy`
  abbrev pub due : ℕ → ℕ → ℕ → ℕ → Bool
  due changed mask old new = not (bit_and changed mask == 0) && not (old == new)

  unfoldable pub wl_cfg80211_set_wiphy_params : Wiphy → ℕ → M Status
  unfolding apply_param
  wl_cfg80211_set_wiphy_params wiphy changed = do
    p ← get
    apply_param (due changed x.param_rts_threshold p.conf.rts_threshold wiphy.rts_threshold)
        (λ c. record c { rts_threshold = wiphy.rts_threshold }) (wl_set_rts wiphy.rts_threshold)
        (apply_param (due changed x.param_frag_threshold p.conf.frag_threshold wiphy.frag_threshold)
          (λ c. record c { frag_threshold = wiphy.frag_threshold })
          (wl_set_frag wiphy.frag_threshold)
          (apply_param (due changed x.param_retry_long p.conf.retry_long wiphy.retry_long)
            (λ c. record c { retry_long = wiphy.retry_long }) (wl_set_retry wiphy.retry_long true)
            (apply_param (due changed x.param_retry_short p.conf.retry_short wiphy.retry_short)
              (λ c. record c { retry_short = wiphy.retry_short })
              (wl_set_retry wiphy.retry_short false) pure)))
        ok
