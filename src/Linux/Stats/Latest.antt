-- ===== src/Linux/Stats/Latest.antt =====
-- What wl_get_stats reports after wl_linux_watchdog (src/wl/sys/wl_linux.c).
use broadcom_bcm4312_fix.Prelude.{
  List, Option, [], arith, get_elem?, length, none, refl, set, some, suc, true, zero, ℕ, ◌%◌, ◌+◌,
  ◌-◌, ◌<◌, ◌^◌, ◌∷◌, ◌≡◌,
}
use broadcom_bcm4312_fix.Linux.Stats.{
  DeviceCounters, IfCounters, IfStats, NetStats, collect, watchdog_round, wl_get_stats,
}
use broadcom_bcm4312_fix.Prelude.Int.{ℤ}

abbrev other : ℕ → ℕ
other id = (1 + 2 ^ 32 - id) % 2 ^ 32

other_small : (id : ℕ) → id < 2 → other id < 2
other_small id h = omega arith

in_range :
    (s : IfStats)
    → length s.stats_watchdog ≡ 2
    → s.stats_id < 2
    → other s.stats_id < length s.stats_watchdog
in_range s two h = omega (arith, two, other_small s.stats_id h)

get_elem-set :
    (xs : List NetStats) (i : ℕ) (v : NetStats) → i < length xs → get_elem? (set xs i v) i ≡ some v
get_elem-set [] i v h = absurd (omega arith)
get_elem-set (x ∷ xs) zero v h = refl
get_elem-set (x ∷ xs) (suc i) v h = get_elem-set xs i v (omega arith)

reported :
    (s : IfStats) (v : NetStats) (i : ℕ)
    → i < length s.stats_watchdog
    → (wl_get_stats (record s { stats_watchdog = set s.stats_watchdog i v; stats_id = i })).0
      ≡ some v
unfolding wl_get_stats
reported s v i h = get_elem-set s.stats_watchdog i v h

-- For an interface with two copies, of which one is in use, wl_get_stats reports after a round of
-- the watchdog on a running device what that round collected, and again one of the two copies
-- is in use.
pub wl_get_stats-watchdog_round :
    (c : DeviceCounters) (i : IfCounters) (noise : Option ℤ) (s : IfStats)
    → length s.stats_watchdog ≡ 2
    → s.stats_id < 2
    → ((wl_get_stats (watchdog_round true c i noise s)).0 ≡ some (collect i c))
      × ((watchdog_round true c i noise s).stats_id < 2)
unfolding wl_get_stats watchdog_round
wl_get_stats-watchdog_round c i none s two used =
    (reported s (collect i c) (other s.stats_id) (in_range s two used), other_small s.stats_id used)
wl_get_stats-watchdog_round c i (some n) s two used = (
  reported (record s { phy_noise = n }) (collect i c) (other s.stats_id) (in_range s two used),
  other_small s.stats_id used,
)
