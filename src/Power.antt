-- ===== src/Power.antt =====
-- wl_cfg80211_set_tx_power, wl_cfg80211_get_tx_power and wl_cfg80211_set_power_mgmt
-- (src/wl/sys/wl_cfg80211_hybrid.c).
pub mod Quarter
use broadcom_bcm4312_fix.Prelude.{
  Bool, Option, bit_and, bit_or, false, if◌then◌else◌, none, some, ℕ, ◌%◌, ◌-◌, ◌/◌, ◌^◌,
}
use broadcom_bcm4312_fix.Iovar.{wl_dev_intvar_get, wl_dev_intvar_set, wl_dev_ioctl}
use broadcom_bcm4312_fix.Headers.{
  Status, TxPowerSetting, automatic, einval, fail, fixed, int_size, limited, ok, pm_fast,
  pm_force_off, qtxpower, radio_sw_disable_mask, txpwr_override,
}
use broadcom_bcm4312_fix.State.{M, Platform, int_arg, modify, pure, ◌>>=◌, ◌>>◌}
use broadcom_bcm4312_fix.Headers.Commands.{set_pm, set_radio}
use broadcom_bcm4312_fix.Prelude.Int.{bits32, cap_at, is_negative, scale, ℤ}

-- The quarter-dBm word: capped at 127, with the override bit.
unfoldable pub qdbm_word : ℤ → ℕ
qdbm_word dbm = bit_or (bits32 (cap_at 127 (scale 4 dbm))) txpwr_override

-- The dBm that a quarter-dBm word stands for: its low byte without the override bit.
unfoldable pub dbm_of : ℕ → ℕ
dbm_of txpwrdbm = bit_and txpwrdbm (2 ^ 32 - 1 - txpwr_override) % 256 / 4

-- A negative power is refused, unless the setting is automatic.
unfoldable pub refuses : TxPowerSetting → ℤ → Bool
refuses automatic dbm = false
refuses limited dbm = is_negative dbm
refuses fixed dbm = is_negative dbm

module _ (x : Platform) where
  unfoldable pub wl_cfg80211_set_tx_power : TxPowerSetting → ℤ → M Status
  wl_cfg80211_set_tx_power type mbm =
      let dbm = x.mbm_to_dbm mbm in
      if refuses type dbm then pure (fail einval) else do
        wl_dev_ioctl x set_radio (int_arg radio_sw_disable_mask) int_size >>= λ r. pure r.status
        wl_dev_intvar_set x qtxpower (qdbm_word dbm)
        modify (λ p. record p { conf = record (p.conf) { tx_power = dbm } })

  unfoldable pub wl_cfg80211_get_tx_power : M (Status × Option ℕ)
  wl_cfg80211_get_tx_power = wl_dev_intvar_get x qtxpower >>= λ (err, txpwrdbm).
      pure (elim err [ ok ↦ (ok, some (dbm_of txpwrdbm)) | fail e ↦ (fail e, none) ])

  unfoldable pub wl_cfg80211_set_power_mgmt : Bool → M Status
  wl_cfg80211_set_power_mgmt enabled =
      wl_dev_ioctl x set_pm (int_arg (if enabled then pm_fast else pm_force_off)) int_size >>= λ r.
      pure r.status
