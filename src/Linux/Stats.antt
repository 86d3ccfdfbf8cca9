-- ===== src/Linux/Stats.antt =====
-- The counters of an interface, kept twice: wl_linux_watchdog and wl_get_stats
-- (src/wl/sys/wl_linux.c).
pub mod Latest
use broadcom_bcm4312_fix.Prelude.{
  Bool, List, Option, [], get_elem?, if◌then◌else◌, none, set, some, ℕ, ◌%◌, ◌+◌, ◌-◌, ◌^◌, ◌∷◌,
}
use broadcom_bcm4312_fix.Prelude.Int.{ℤ}

-- The fields of struct net_device_stats that are not always 0, with those of iw_statistics.
pub record NetStats : Type 0 where
  pub rx_packets : ℕ
  pub tx_packets : ℕ
  pub rx_bytes : ℕ
  pub tx_bytes : ℕ
  pub rx_errors : ℕ
  pub tx_errors : ℕ
  pub rx_over_errors : ℕ
  pub rx_crc_errors : ℕ
  pub rx_fifo_errors : ℕ
  pub discard_code : ℕ
  pub discard_fragment : ℕ
  pub discard_retries : ℕ
  pub discard_misc : ℕ

-- wlc_if_stats_t, and the counters of the device.
pub record IfCounters : Type 0 where
  pub rxframe : ℕ
  pub txframe : ℕ
  pub rxbyte : ℕ
  pub txbyte : ℕ
  pub rxerror : ℕ
  pub txerror : ℕ
  pub rxfragerr : ℕ
  pub txfail : ℕ

pub record DeviceCounters : Type 0 where
  pub rxoflo : ℕ
  pub rxcrc : ℕ
  pub rxundec : ℕ
  pub rxrunt : ℕ
  pub rxgiant : ℕ

-- The fields of struct wl_if.
pub record IfStats : Type 0 where
  pub stats : NetStats
  pub stats_id : ℕ
  pub stats_watchdog : List NetStats
  pub phy_noise : ℤ

unfoldable pub collect : IfCounters → DeviceCounters → NetStats
collect i c = record {
  rx_packets = i.rxframe;
  tx_packets = i.txframe;
  rx_bytes = i.rxbyte;
  tx_bytes = i.txbyte;
  rx_errors = i.rxerror;
  tx_errors = i.txerror;
  rx_over_errors = c.rxoflo;
  rx_crc_errors = c.rxcrc;
  rx_fifo_errors = c.rxoflo;
  discard_code = c.rxundec;
  discard_fragment = i.rxfragerr;
  discard_retries = i.txfail;
  discard_misc = (c.rxrunt + c.rxgiant) % 2 ^ 32;
}

-- The round for one interface: the copy that is not in use is filled and then used. `noise` is what
-- WLC_GET_PHY_NOISE answers, `none` where it fails.
unfoldable pub watchdog_round : Bool → DeviceCounters → IfCounters → Option ℤ → IfStats → IfStats
watchdog_round is_up c i noise s =
    let id = (1 + 2 ^ 32 - s.stats_id) % 2 ^ 32 in
    let counted : IfStats =
      if is_up
      then record s { stats_watchdog = set s.stats_watchdog id (collect i c); stats_id = id }
      else s in
    elim noise [ none ↦ counted | some n ↦ record counted { phy_noise = n } ]

-- The interfaces in their order, with what the binary part answers for each.
unfoldable pub wl_linux_watchdog :
    Bool → DeviceCounters → List (IfCounters × (Option ℤ × IfStats)) → List IfStats
wl_linux_watchdog is_up c [] = []
wl_linux_watchdog is_up c ((i, (noise, s)) ∷ ifs) =
    watchdog_round is_up c i noise s ∷ wl_linux_watchdog is_up c ifs

-- What is reported, and the interface with it stored.
unfoldable pub wl_get_stats : IfStats → Option NetStats × IfStats
wl_get_stats s =
    let latest = get_elem? s.stats_watchdog s.stats_id in
    (latest, elim latest [ none ↦ s | some n ↦ record s { stats = n } ])
