-- ===== src/Iw/Limits.antt =====
-- Rates, thresholds, powers and retries: wl_iw_set_rate, wl_iw_get_rate, wl_iw_set_rts,
-- wl_iw_get_rts, wl_iw_set_frag, wl_iw_get_frag, wl_iw_set_txpow, wl_iw_get_txpow, wl_iw_set_retry,
-- wl_iw_get_retry, wl_iw_set_power, wl_iw_get_power, wl_iw_set_wpaie and wl_iw_get_wpaie
-- (src/wl/sys/wl_iw.c).
use broadcom_bcm4312_fix.Prelude.{
  Bool, Option, bit_and, bit_or, false, get_elem?, if◌then◌else◌, length, ltb, memcpy, min, none,
  not, some, suc, take, true, zero, ℕ, ◌%◌, ◌&&◌, ◌+◌, ◌-◌, ◌/◌, ◌==◌, ◌^◌, ◌||◌,
}
use broadcom_bcm4312_fix.Iw.{Driver}
use broadcom_bcm4312_fix.Connect.{clear_bits}
use broadcom_bcm4312_fix.Headers.{
  Bytes, IoVar, a_rate, bg_rate, fragthresh, int_size, qtxpower, radio_sw_disable_mask, rtsthresh,
  txpwr_override, wpaie,
}
use broadcom_bcm4312_fix.State.{buffer_arg, int_arg, rateset_arg, var_bytes}
use broadcom_bcm4312_fix.Iw.Monad.{
  IwM, dev_wlc_bufvar_get, dev_wlc_bufvar_set, dev_wlc_intvar_get, dev_wlc_intvar_set,
  dev_wlc_ioctl, has, is_small, is_zero, neg_einval, pure, s32, set_ioctl, unless_error, ◌>>=◌,
  ◌>>◌,
}
use broadcom_bcm4312_fix.Headers.Commands.{
  get_curr_rateset, get_lrl, get_pm, get_radio, get_rate, get_srl, set_lrl, set_pm, set_radio,
  set_rateset, set_srl,
}
use broadcom_bcm4312_fix.Prelude.Int.{bits32, negsuc, pos, scale, ℤ}

-- struct iw_param
pub record Param : Type 0 where
  pub value : ℤ
  pub fixed : Bool
  pub disabled : Bool
  pub flags : ℕ

-- sizeof(wl_rateset_t)
abbrev pub rateset_size : ℕ
rateset_size = 4 + 16

-- The threshold of a request, for a default; `none` is -EINVAL.
unfoldable pub threshold : ℕ → Param → Option ℕ
threshold default vwrq =
    if vwrq.disabled
    then some default
    else elim vwrq.value [ pos v ↦ if ltb default v then none else some v | negsuc v ↦ none ]

-- What is reported for a threshold.
unfoldable pub reported_threshold : ℕ → ℤ → Param → Param
reported_threshold default v vwrq = record vwrq {
  value = v;
  disabled = not (is_small v default);
  fixed = true;
}

-- `error_bg | error_a`
unfoldable pub either_error : ℤ → ℤ → ℤ
either_error error_bg error_a = s32 (bit_or (bits32 error_bg) (bits32 error_a))

module _ (d : Driver) where
  -- The rate at an index of the 16 rates, without its top bit.
  unfoldable pub rate_at : Bytes → ℕ → ℕ
  rate_at rates i = bit_and (elim (get_elem? rates i) [ some r ↦ r | none ↦ d.stray_rate i ]) 0x7f

  -- The rate of a request: the last one for a negative value, where the index of an empty set is
  -- 2 ^ 32 - 1, the one with that index for a small value, or a value in bits per second.
  unfoldable pub asked_rate : ℕ → Bytes → ℤ → ℕ
  asked_rate count rates (negsuc v) = rate_at rates ((count + 2 ^ 32 - 1) % 2 ^ 32)
  asked_rate count rates (pos v) = if ltb v count then rate_at rates v else v / 500000

  -- The first index, from `i` on and with `left` rounds to go, whose rate is larger.
  unfoldable pub larger_from : Bytes → ℕ → ℕ → ℕ → ℕ
  larger_from rates rate zero i = i
  larger_from rates rate (suc left) i =
      let rest = larger_from rates rate left (i + 1) in
      if ltb rate (rate_at rates i) then i else rest

  -- A call that fails in one band is not an error.
  unfoldable pub set_band_rates : ℕ → IwM ℤ
  set_band_rates rate = dev_wlc_intvar_set d bg_rate rate >>= λ error_bg.
      dev_wlc_intvar_set d a_rate rate >>= λ error_a. pure (
        if not (is_zero error_bg) && not (is_zero error_a)
        then either_error error_bg error_a
        else pos 0)

  unfoldable pub wl_iw_set_rate : Param → IwM ℤ
  wl_iw_set_rate vwrq = dev_wlc_ioctl d get_curr_rateset (buffer_arg 0) rateset_size >>= λ r.
      unless_error r.status (
        let rate = asked_rate r.value r.bytes vwrq.value in
        if vwrq.fixed then set_band_rates rate else (do
          set_band_rates 0
          set_ioctl d set_rateset (rateset_arg (larger_from r.bytes rate r.value 0) r.bytes)
              rateset_size
          pure (pos 0)))

  unfoldable pub wl_iw_get_rate : Param → IwM (ℤ × Param)
  wl_iw_get_rate vwrq = dev_wlc_ioctl d get_rate (int_arg 0) int_size >>= λ r. pure (
      if is_zero r.status
      then (pos 0, record vwrq { value = s32 (bits32 (scale 500000 r.signed)) })
      else (r.status, vwrq))

  -- A threshold is written, or the request is refused.
  unfoldable pub set_threshold : IoVar → Option ℕ → IwM ℤ
  set_threshold name none = pure neg_einval
  set_threshold name (some v) = dev_wlc_intvar_set d name v

  unfoldable pub get_threshold : IoVar → ℕ → Param → IwM (ℤ × Param)
  get_threshold name default vwrq = dev_wlc_intvar_get d name >>= λ r. pure (
      if is_zero r.status
      then (pos 0, reported_threshold default r.signed vwrq)
      else (r.status, vwrq))

  unfoldable pub wl_iw_set_rts : Param → IwM ℤ
  wl_iw_set_rts vwrq = set_threshold rtsthresh (threshold d.default_rts_len vwrq)

  unfoldable pub wl_iw_get_rts : Param → IwM (ℤ × Param)
  wl_iw_get_rts vwrq = get_threshold rtsthresh d.default_rts_len vwrq

  unfoldable pub wl_iw_set_frag : Param → IwM ℤ
  wl_iw_set_frag vwrq = set_threshold fragthresh (threshold d.default_frag_len vwrq)

  unfoldable pub wl_iw_get_frag : Param → IwM (ℤ × Param)
  wl_iw_get_frag vwrq = get_threshold fragthresh d.default_frag_len vwrq

  -- WL_RADIO_SW_DISABLE is 1. A disabled radio, or a negative power, is all that is asked for.
  unfoldable pub wl_iw_set_txpow : Param → IwM ℤ
  wl_iw_set_txpow vwrq = do
    set_ioctl d set_radio (int_arg (radio_sw_disable_mask + (if vwrq.disabled then 1 else 0)))
        int_size
    (if vwrq.disabled
        then pure (pos 0)
        else if not (has vwrq.flags d.txpow_mwatt)
        then pure neg_einval
        else elim vwrq.value [
          | negsuc v ↦ pure (pos 0)
          | pos v ↦ dev_wlc_intvar_set d qtxpower (d.mw_to_qdbm (min v 0xffff))
        ])

  -- The word without the override bit, as a u8. The radio is off by software or by hardware.
  unfoldable pub wl_iw_get_txpow : Param → IwM (ℤ × Param)
  wl_iw_get_txpow vwrq = dev_wlc_ioctl d get_radio (int_arg 0) int_size >>= λ r.
      if not (is_zero r.status)
      then pure (r.status, vwrq)
      else (dev_wlc_intvar_get d qtxpower >>= λ q. pure (
          if is_zero q.status
          then (
            pos 0,
            record {
              value = pos (d.qdbm_to_mw (clear_bits q.value txpwr_override % 256));
              fixed = false;
              disabled = has r.value 3;
              flags = d.txpow_mwatt;
            },
          )
          else (q.status, vwrq)))

  -- `when` for a status.
  abbrev pub only_if : Bool → IwM ℤ → IwM ℤ
  only_if b m = if b then m else pure (pos 0)

  -- A limit that names neither kind sets both.
  unfoldable pub sets_long : ℕ → Bool
  sets_long flags =
      has flags d.retry_long
      || has flags d.retry_max
      || not (has flags d.retry_short || has flags d.retry_min)

  unfoldable pub sets_short : ℕ → Bool
  sets_short flags =
      has flags d.retry_short
      || has flags d.retry_min
      || not (has flags d.retry_long || has flags d.retry_max)

  unfoldable pub wl_iw_set_retry : Param → IwM ℤ
  wl_iw_set_retry vwrq =
      if vwrq.disabled || has vwrq.flags d.retry_lifetime
      then pure neg_einval
      else only_if (has vwrq.flags d.retry_limit) (do
        only_if (sets_long vwrq.flags) (set_ioctl d set_lrl (int_arg (bits32 vwrq.value)) int_size)
        only_if (sets_short vwrq.flags)
            (set_ioctl d set_srl (int_arg (bits32 vwrq.value)) int_size))

  -- What is reported for the two limits.
  unfoldable pub reported_retry : ℕ → ℕ → Param → Param
  reported_retry lrl srl vwrq =
      if has vwrq.flags d.retry_max
      then record vwrq { flags = bit_or d.retry_limit d.retry_max; value = s32 lrl }
      else record vwrq {
        flags = if srl == lrl then d.retry_limit else bit_or d.retry_limit d.retry_min;
        value = s32 srl;
      }

  unfoldable pub wl_iw_get_retry : Param → IwM (ℤ × Param)
  wl_iw_get_retry vwrq =
      let cleared : Param = record vwrq { disabled = false } in
      if bit_and vwrq.flags d.retry_type == d.retry_lifetime
      then pure (neg_einval, cleared)
      else (dev_wlc_ioctl d get_lrl (int_arg 0) int_size >>= λ r.
          if not (is_zero r.status)
          then pure (r.status, cleared)
          else (dev_wlc_ioctl d get_srl (int_arg 0) int_size >>= λ s. pure (
              if is_zero s.status
              then (pos 0, reported_retry r.value s.value cleared)
              else (s.status, cleared))))

  -- PM_MAX is 1, PM_OFF is 0.
  unfoldable pub wl_iw_set_power : Param → IwM ℤ
  wl_iw_set_power vwrq = set_ioctl d set_pm (int_arg (if vwrq.disabled then 0 else 1)) int_size

  unfoldable pub wl_iw_get_power : Param → IwM (ℤ × Param)
  wl_iw_get_power vwrq = dev_wlc_ioctl d get_pm (int_arg 0) int_size >>= λ r. pure (
      if is_zero r.status
      then (pos 0, record vwrq { disabled = r.value == 0; flags = d.power_all_r })
      else (r.status, vwrq))

  -- The status is dropped, here and below.
  unfoldable pub wl_iw_set_wpaie : Bytes → ℕ → IwM ℤ
  wl_iw_set_wpaie extra len =
      dev_wlc_bufvar_set d (var_bytes wpaie (take len extra)) wpaie len >>= λ _. pure (pos 0)

  -- 64 bytes, which stay as they were where the call fails.
  unfoldable pub wl_iw_get_wpaie : Bytes → IwM (ℤ × (ℕ × Bytes))
  wl_iw_get_wpaie extra = dev_wlc_bufvar_get d wpaie 64 >>= λ (error, answer).
      pure (
        pos 0,
        (64, elim answer [ none ↦ extra | some r ↦ memcpy extra 0 r.bytes (length r.bytes) ]),
      )
