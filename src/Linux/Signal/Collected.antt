-- ===== src/Linux/Signal/Collected.antt =====
-- What wl_get_wireless_stats reports after wl_linux_watchdog (src/wl/sys/wl_linux.c).
use broadcom_bcm4312_fix.Prelude.{
  Bool, Bool-cases, Option, ap, bit_or, false, get_elem?, if◌then◌else◌, inl, inr, length, none,
  refl, some, true, ℕ, ◌%◌, ◌+◌, ◌<◌, ◌^◌, ◌∙◌, ◌≡◌,
}
use broadcom_bcm4312_fix.Linux.Signal.{
  copy_discards, signal_quality, store_signal, wireless_stats_of, wl_get_wireless_stats,
}
use broadcom_bcm4312_fix.Linux.Stats.{
  DeviceCounters, IfCounters, IfStats, collect, watchdog_round, wl_get_stats,
}
use broadcom_bcm4312_fix.Linux.Stats.Latest.{wl_get_stats-watchdog_round}
use broadcom_bcm4312_fix.Iw.Monad.{is_zero}
use broadcom_bcm4312_fix.Iw.Spy.{Stats, quality_of, rssi_to_qual}
use broadcom_bcm4312_fix.Prelude.Int.{pos, ℤ}

-- The statistics with the counters of a round, a signal and a noise.
abbrev pub filled : ℕ → DeviceCounters → IfCounters → ℤ → ℤ → Stats → Stats
filled updated c i rssi noise w = record {
  stat_qual = quality_of (bit_or w.stat_qual.updated updated) rssi noise;
  code = c.rxundec;
  fragment = i.rxfragerr;
  retries = i.txfail;
  misc = (c.rxrunt + c.rxgiant) % 2 ^ 32;
}

-- What the caller gets, `none` for NULL.
abbrev pub returned : Option (Bool × Stats) → Option Stats
returned none = none
returned (some x) = if x.0 then some (x.1) else none

same_quality : (rssi : ℤ) → signal_quality rssi ≡ rssi_to_qual rssi
unfolding signal_quality rssi_to_qual
same_quality rssi = refl

-- The copy in use is what the round collected.
in_use :
    (c : DeviceCounters) (i : IfCounters) (noise : ℤ) (s : IfStats)
    → length s.stats_watchdog ≡ 2
    → s.stats_id < 2
    → get_elem?
        (watchdog_round true c i (some noise) s).stats_watchdog
        (watchdog_round true c i (some noise) s).stats_id
      ≡ some (collect i c)
unfolding wl_get_stats
in_use c i noise s two used = (wl_get_stats-watchdog_round c i (some noise) s two used).0

newest_noise :
    (c : DeviceCounters) (i : IfCounters) (noise : ℤ) (s : IfStats)
    → (watchdog_round true c i (some noise) s).phy_noise ≡ noise
unfolding watchdog_round
newest_noise c i noise s = refl

stored :
    (updated : ℕ) (c : DeviceCounters) (i : IfCounters) (rssi noise : ℤ) (w : Stats)
    → store_signal updated rssi noise (copy_discards (collect i c) w)
      ≡ filled updated c i rssi noise w
unfolding store_signal copy_discards collect
stored updated c i rssi noise w = rw (same_quality rssi) refl

seen :
    (updated : ℕ) (is_ap : Bool) (answer : ℤ × ℤ) (noise : ℤ) (c : DeviceCounters) (i : IfCounters)
    (s : IfStats) (w : Stats)
    → length s.stats_watchdog ≡ 2
    → s.stats_id < 2
    → wireless_stats_of updated is_ap answer (watchdog_round true c i (some noise) s) w
      ≡ some (wl_get_wireless_stats updated is_ap answer (collect i c) noise w)
unfolding wireless_stats_of wl_get_wireless_stats
seen updated is_ap answer noise c i s w two used =
    rw (wireless_stats_of, in_use c i noise s two used, newest_noise c i noise s) refl

answered :
    (updated : ℕ) (is_ap : Bool) (status rssi noise : ℤ) (c : DeviceCounters) (i : IfCounters)
    (w : Stats)
    → returned (some (wl_get_wireless_stats updated is_ap (status, rssi) (collect i c) noise w)) ≡ (
        if is_ap
        then some (filled updated c i (pos 0) noise w)
        else if is_zero status
        then some (filled updated c i rssi noise w)
        else none)
unfolding wl_get_wireless_stats
answered updated true status rssi noise c i w = ap some (stored updated c i (pos 0) noise w)
answered updated false status rssi noise c i w = elim (Bool-cases (is_zero status)) [
  | inl e ↦ rw e (ap some (stored updated c i rssi noise w))
  | inr e ↦ rw e refl
]

-- For an interface with two copies, of which one is in use, and a round of the watchdog on a running
-- device to which the binary part answers the noise: wl_get_wireless_stats reports the counters of
-- that round and its noise, with the signal that the binary part answers, 0 for an access point,
-- and with the quality that the handler of the wireless extensions computes for it. Where the signal
-- cannot be asked it reports nothing.
pub wl_get_wireless_stats-watchdog_round :
    (updated : ℕ) (is_ap : Bool) (status rssi noise : ℤ) (c : DeviceCounters) (i : IfCounters)
    (s : IfStats) (w : Stats)
    → length s.stats_watchdog ≡ 2
    → s.stats_id < 2
    → let r =
        wireless_stats_of updated is_ap (status, rssi) (watchdog_round true c i (some noise) s) w in
      returned r ≡ (
        if is_ap
        then some (filled updated c i (pos 0) noise w)
        else if is_zero status
        then some (filled updated c i rssi noise w)
        else none)
wl_get_wireless_stats-watchdog_round updated is_ap status rssi noise c i s w two used =
    ap returned (seen updated is_ap (status, rssi) noise c i s w two used)
    ∙ answered updated is_ap status rssi noise c i w
