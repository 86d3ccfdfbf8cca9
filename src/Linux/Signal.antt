-- ===== src/Linux/Signal.antt =====
-- The statistics of the wireless extensions that the glue keeps: wl_get_wireless_stats
-- (src/wl/sys/wl_linux.c).
pub mod Collected
use broadcom_bcm4312_fix.Prelude.{
  Bool, Option, bit_or, false, get_elem?, if◌then◌else◌, none, some, true, ℕ,
}
use broadcom_bcm4312_fix.Linux.Stats.{IfStats, NetStats}
use broadcom_bcm4312_fix.Iw.Monad.{is_zero}
use broadcom_bcm4312_fix.Iw.Spy.{Stats, at_most, level_of}
use broadcom_bcm4312_fix.Prelude.Int.{pos, ℤ}

-- WLC_RSSI_NO_SIGNAL, _VERY_LOW, _LOW, _GOOD and _VERY_GOOD.
unfoldable pub signal_quality : ℤ → ℕ
signal_quality rssi =
    if at_most rssi 91
    then 0
    else if at_most rssi 80
    then 1
    else if at_most rssi 70
    then 2
    else if at_most rssi 68
    then 3
    else if at_most rssi 58
    then 4
    else 5

-- The counters that are copied first, from the copy in use.
unfoldable pub copy_discards : NetStats → Stats → Stats
copy_discards n w = record w {
  code = n.discard_code;
  fragment = n.discard_fragment;
  retries = n.discard_retries;
  misc = n.discard_misc;
}

-- IW_QUAL_ALL_UPDATED | IW_QUAL_DBM of the kernel is `updated`.
unfoldable pub store_signal : ℕ → ℤ → ℤ → Stats → Stats
store_signal updated rssi noise w = record w {
  stat_qual = record {
    qual = signal_quality rssi;
    level = level_of rssi;
    noise = level_of noise;
    updated = bit_or w.stat_qual.updated updated;
  };
}

-- For an access point (AP_ENAB) or with what WLC_GET_RSSI answers, its status and its value; the bool
-- is whether the statistics are returned. The counters that are copied before a refusal stay.
unfoldable pub wl_get_wireless_stats : ℕ → Bool → ℤ × ℤ → NetStats → ℤ → Stats → Bool × Stats
wl_get_wireless_stats updated is_ap answer n noise w =
    if is_ap
    then (true, store_signal updated (pos 0) noise (copy_discards n w))
    else if is_zero (answer.0)
    then (true, store_signal updated (answer.1) noise (copy_discards n w))
    else (false, copy_discards n w)

-- The copy in use is wstats_watchdog[stats_id]; there are two.
unfoldable pub wireless_stats_of : ℕ → Bool → ℤ × ℤ → IfStats → Stats → Option (Bool × Stats)
wireless_stats_of updated is_ap answer s w = elim (get_elem? s.stats_watchdog s.stats_id) [
  | none ↦ none
  | some n ↦ some (wl_get_wireless_stats updated is_ap answer n s.phy_noise w)
]
