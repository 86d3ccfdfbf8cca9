-- ===== src/Iw/Radio.antt =====
-- The channel, the mode and the name of the interface: wl_iw_set_leddc, wl_iw_set_vlanmode,
-- wl_iw_set_pm, wl_iw_config_commit, wl_iw_get_name, wl_iw_set_freq, wl_iw_get_freq, wl_iw_set_mode
-- and wl_iw_get_mode (src/wl/sys/wl_iw.c).
use broadcom_bcm4312_fix.Prelude.{
  Option, ap, if◌then◌else◌, leb, ltb, none, not, some, suc, zero, ℕ, ◌&&◌, ◌*◌, ◌+◌, ◌-◌, ◌/◌,
  ◌==◌, ◌||◌,
}
use broadcom_bcm4312_fix.Iw.{Driver}
use broadcom_bcm4312_fix.Headers.{addr_len, int_size, leddc, ssid_size, vlan_mode, zero_addr}
use broadcom_bcm4312_fix.State.{addr_arg, buffer_arg, int_arg}
use broadcom_bcm4312_fix.Iw.Monad.{
  IwM, dev_wlc_intvar_set, dev_wlc_ioctl, is_small, is_zero, neg_einprogress, neg_einval, pure, s32,
  set_ioctl, unless_error, ◌>>=◌, ◌>>◌,
}
use broadcom_bcm4312_fix.Headers.Commands.{
  get_ap, get_bandlist, get_channel, get_infra, get_phytype, get_ssid, reassoc, set_ap, set_channel,
  set_infra, set_pm,
}
use broadcom_bcm4312_fix.Prelude.Int.{bits32, is_negative, negsuc, pos, scale, ℤ}

-- IW_MODE_*
pub data IwMode : Type 0 where
  mode_auto mode_adhoc mode_infra mode_master : IwMode
  mode_other : ℕ → IwMode

-- The strings that `cap` can hold.
pub data Cap : Type 0 where
  cap_none cap_a cap_b cap_bg cap_abg cap_bgn cap_abgn : Cap

-- `m *= 10` on an int that wraps, and `m /= 10`, towards 0; each is done a number of times.
unfoldable pub times_ten : ℕ → ℤ → ℤ
times_ten zero m = m
times_ten (suc e) m = times_ten e (s32 (bits32 (scale 10 m)))

unfoldable pub tenth : ℤ → ℤ
tenth (pos n) = pos (n / 10)
tenth (negsuc n) = elim (suc n / 10) [ zero ↦ pos 0 | suc k ↦ negsuc k ]

unfoldable pub over_ten : ℕ → ℤ → ℤ
over_ten zero m = m
over_ten (suc e) m = over_ten e (tenth m)

-- struct iw_freq in MHz: `e` is a signed exponent.
unfoldable pub in_mhz : ℤ → ℤ → ℤ
in_mhz (pos e) m = if ltb e 6 then over_ten (6 - e) m else times_ten (e - 6) m
in_mhz (negsuc e) m = over_ten (7 + e) m

-- `infra` and `ap`; `none` is the default of the switch.
unfoldable pub infra_and_ap : IwMode → Option (ℕ × ℕ)
infra_and_ap mode_master = some (1, 1)
infra_and_ap mode_adhoc = some (0, 0)
infra_and_ap mode_auto = some (0, 0)
infra_and_ap mode_infra = some (1, 0)
infra_and_ap (mode_other n) = none

unfoldable pub mode_of : ℕ → ℕ → IwMode
mode_of infra ap = if infra == 0 then mode_adhoc else if ap == 0 then mode_infra else mode_master

-- The switch on the type of the PHY; a band list of at least two words has both bands.
unfoldable pub cap_of : ℕ → ℕ → Cap
cap_of phytype bands =
    if phytype == 0
    then cap_a
    else if phytype == 1
    then cap_b
    else if (phytype == 5) || (phytype == 2)
    then (if leb 2 bands then cap_abg else cap_bg)
    else if phytype == 4
    then (if leb 2 bands then cap_abgn else cap_bgn)
    else cap_none

module _ (d : Driver) where
  unfoldable pub wl_iw_set_leddc : ℕ → IwM ℤ
  wl_iw_set_leddc dc = dev_wlc_intvar_set d leddc dc

  unfoldable pub wl_iw_set_vlanmode : ℕ → IwM ℤ
  wl_iw_set_vlanmode mode = dev_wlc_intvar_set d vlan_mode mode

  unfoldable pub wl_iw_set_pm : ℕ → IwM ℤ
  wl_iw_set_pm pm = set_ioctl d set_pm (int_arg pm) int_size

  -- The empty SSID is that of a station that has not joined: there is nothing to do. A reassociation
  -- with the zero address.
  unfoldable pub wl_iw_config_commit : IwM ℤ
  wl_iw_config_commit = dev_wlc_ioctl d get_ssid (buffer_arg 0) ssid_size >>= λ r.
      unless_error r.status (
        if r.ssid.ssid_len == 0
        then pure (pos 0)
        else set_ioctl d reassoc (addr_arg zero_addr) addr_len)

  -- Only a negative status stops the two calls; the result is 0 in each case.
  unfoldable pub wl_iw_get_name : IwM (ℤ × Cap)
  wl_iw_get_name = dev_wlc_ioctl d get_phytype (int_arg 0) int_size >>= λ r.
      if is_negative r.status
      then pure (pos 0, cap_none)
      else (dev_wlc_ioctl d get_bandlist (buffer_arg 0) (3 * int_size) >>= λ s.
          pure (pos 0, if is_negative s.status then cap_none else cap_of r.value s.value))

  -- The channel for a struct iw_freq: a small mantissa with exponent 0 is a channel already.
  unfoldable pub freq_channel : ℤ → ℤ → ℕ
  freq_channel e m =
      if is_zero e && is_small m d.maxchannel
      then bits32 m
      else (let mhz = in_mhz e m in
          d.mhz2channel (bits32 mhz)
            (if not (is_small mhz 4001) && is_small mhz 5000 then d.chan_factor_4_g else 0))

  unfoldable pub wl_iw_set_freq : ℤ → ℤ → IwM ℤ
  wl_iw_set_freq e m = do
    set_ioctl d set_channel (int_arg (freq_channel e m)) int_size
    pure neg_einprogress

  -- The channel as the mantissa; the exponent is 0. Nothing is written on an error.
  unfoldable pub wl_iw_get_freq : IwM (ℤ × Option ℕ)
  wl_iw_get_freq = dev_wlc_ioctl d get_channel (buffer_arg 0) (3 * int_size) >>= λ r.
      pure (if is_zero r.status then (pos 0, some r.value) else (r.status, none))

  unfoldable pub wl_iw_set_mode : IwMode → IwM ℤ
  wl_iw_set_mode mode = elim (infra_and_ap mode) [
    | none ↦ pure neg_einval
    | some (infra, ap) ↦ do
      set_ioctl d set_infra (int_arg infra) int_size
      set_ioctl d set_ap (int_arg ap) int_size
      pure neg_einprogress
  ]

  unfoldable pub wl_iw_get_mode : IwM (ℤ × Option IwMode)
  wl_iw_get_mode = dev_wlc_ioctl d get_infra (int_arg 0) int_size >>= λ r.
      if is_zero r.status
      then (dev_wlc_ioctl d get_ap (int_arg 0) int_size >>= λ s.
          pure (
            if is_zero s.status then (pos 0, some (mode_of r.value s.value)) else (s.status, none)))
      else pure (r.status, none)
