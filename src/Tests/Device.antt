-- ===== src/Tests/Device.antt =====
-- Examples of the theorems on taking a device up and down.
use broadcom_bcm4312_fix.Prelude.{
  List, [], arith, false, if◌then◌else◌, refl, some, true, ℕ, ◌-◌, ◌<◌, ◌==◌, ◌∷◌, ◌≡◌, ◌≤◌, ◌⊎◌,
}
use broadcom_bcm4312_fix.Headers.{Bytes, zero_addr}
use broadcom_bcm4312_fix.Linux.Multicast.{
  Multicast, MulticastReach, asked, begin_work, begun, count_off, end_work, multicast_new,
  multicast_step, no_multicast, read_context, schedule_multicast, set_list, setting, took,
  work_begun, work_counted, work_ended, work_read,
}
use broadcom_bcm4312_fix.Linux.Signal.{wireless_stats_of}
use broadcom_bcm4312_fix.Linux.Requests.{
  Glue, GlueCall, GlueState, get_csum, ioctl_glue, read_var, set_csum, toe_ol, wl_proc_write,
  write_var,
}
use broadcom_bcm4312_fix.Linux.Stats.{DeviceCounters, IfCounters, IfStats, NetStats, watchdog_round}
use broadcom_bcm4312_fix.Linux.Power.{
  Power, PowerCall, PowerGlue, chip_match, down_rounds, wait_rounds,
}
use broadcom_bcm4312_fix.Linux.Rfkill.{allocated, radio_event, wl_init_rfkill, wl_uninit_rfkill}
use broadcom_bcm4312_fix.Linux.Proc.{wl_proc_read}
use broadcom_bcm4312_fix.Linux.Multicast.Overtaken.{MulticastReach-Settled, Settled}
use broadcom_bcm4312_fix.Linux.Proc.Echo.{wl_proc_read-wl_proc_write}
use broadcom_bcm4312_fix.Linux.Rfkill.Lifetime.{and_then, no_switch, rfkill_outcomes}
use broadcom_bcm4312_fix.Linux.Signal.Collected.{
  filled, returned, wl_get_wireless_stats-watchdog_round,
}
use broadcom_bcm4312_fix.Linux.Power.Waiting.{down_rounds_end}
use broadcom_bcm4312_fix.Linux.Requests.Checksum.{get_csum-set_csum}
use broadcom_bcm4312_fix.Iw.Spy.{Stats, zero_quality}
use broadcom_bcm4312_fix.Headers.Commands.{set_monitor}
use broadcom_bcm4312_fix.Prelude.Int.{negsuc, pos, ℤ}

abbrev known_chip : PowerCall → ℤ
known_chip chip_match = pos 1
known_chip _ = pos 0

-- A binary part that knows the chip, accepts every call and has two callbacks under way, of which one ends.
abbrev willing : PowerGlue
willing = record {
  answer = λ es c. (known_chip c, (false, 2));
  reads = λ es k. 4 - k;
  passive = false;
  pci = true;
  cfg_fails = λ es. false;
}

abbrev running : Power
running = record {
  is_up = true;
  hw_up = true;
  offload = true;
  wowl_active = false;
  ifs = record { has_dev = true; dev_registed = true; stopped = false } ∷ [];
  has_monitor = true;
  callbacks = 2;
  events = [];
}

down_rounds_end_example :
    (down_rounds willing 2 running ≡ some (wait_rounds (λ k. 4 - k) 2 10000 0))
    × (wait_rounds (λ k. 4 - k) 2 10000 0 ≤ 10000)
    × ((wait_rounds (λ k. 4 - k) 2 10000 0 ≤ 1) ⊎ (2 < 3))
    × ((wait_rounds (λ k. 4 - k) 2 10000 0 ≡ 10000) ⊎ (4 - wait_rounds (λ k. 4 - k) 2 10000 0 ≤ 2))
down_rounds_end_example = down_rounds_end willing 2 1 running

-- Both bits of the radio are set, then only the one of the software.
rfkill_outcomes_example :
    let s = (wl_init_rfkill true (negsuc 0, 0) true no_switch).1 in
    ((wl_init_rfkill true (negsuc 0, 0) true no_switch).0 ≡ pos 1)
    × ((wl_uninit_rfkill s).object ≡ allocated)
    × (radio_event 3 s ≡ some (record s { hw_state = true; last_phyind = 2 }))
    × (and_then (radio_event 3 s) 1 ≡ some s)
rfkill_outcomes_example = rfkill_outcomes true true (negsuc 0, 0) 3 1 refl

-- A binary part that answers a read with the last value that was written.
abbrev last_bytes : List GlueCall → Bytes
last_bytes [] = []
last_bytes (ioctl_glue c v ∷ cs) = if c == set_monitor then v else last_bytes cs
last_bytes (c ∷ cs) = last_bytes cs

abbrev last_toe : List GlueCall → ℕ
last_toe (write_var toe_ol v ∷ cs) = v
last_toe (c ∷ cs) = last_toe cs
last_toe [] = 3

abbrev remembers : List GlueCall → GlueCall → ℤ × (ℕ × Bytes)
remembers log (ioctl_glue c v) = (pos 0, (0, last_bytes log))
remembers log (read_var x) = (pos 0, (last_toe log, []))
remembers log c = (pos 0, (0, []))

abbrev glue : Glue
glue = record {
  answer = remembers;
  capable = true;
  granted = true;
  osl_error = λ e. e;
  fresh = λ n. [];
}

abbrev idle : GlueState
idle = record { bcmerror = pos 0; ip_csum = true; dev_addr = zero_addr; locked = false; calls = [] }

wl_proc_read-wl_proc_write_example :
    ((wl_proc_write glue (0x31 ∷ 0x0a ∷ []) true idle).0 ≡ pos 2)
    × ((wl_proc_read glue 0 80 true ((wl_proc_write glue (0x31 ∷ 0x0a ∷ []) true idle).1)).0
        ≡ (pos 2, 0x31 ∷ 0x0a ∷ []))
wl_proc_read-wl_proc_write_example =
    wl_proc_read-wl_proc_write glue 1 80 (0x0a ∷ []) idle
      (record { takes = λ log v. refl; keeps = λ log v. refl }) (omega arith) (omega arith)
      (omega arith)

get_csum-set_csum_example :
    ((set_csum glue true 0 idle).0 ≡ pos 0)
    × ((get_csum glue true ((set_csum glue true 0 idle).1)).0 ≡ (pos 0, some 0))
    × ((get_csum glue false ((set_csum glue true 0 idle).1)).0 ≡ (get_csum glue false idle).0)
    × (((set_csum glue true 0 idle).1).ip_csum ≡ false)
get_csum-set_csum_example =
    get_csum-set_csum glue true 0 idle
      (record { reads = λ log. refl; takes = λ log x v. refl; keeps = λ log v on. refl })
      (omega arith)

abbrev no_counters : NetStats
no_counters = record {
  rx_packets = 0;
  tx_packets = 0;
  rx_bytes = 0;
  tx_bytes = 0;
  rx_errors = 0;
  tx_errors = 0;
  rx_over_errors = 0;
  rx_crc_errors = 0;
  rx_fifo_errors = 0;
  discard_code = 0;
  discard_fragment = 0;
  discard_retries = 0;
  discard_misc = 0;
}

abbrev two_copies : IfStats
two_copies = record {
  stats = no_counters;
  stats_id = 1;
  stats_watchdog = no_counters ∷ no_counters ∷ [];
  phy_noise = negsuc 90;
}

abbrev if_counters : IfCounters
if_counters = record {
  rxframe = 9;
  txframe = 8;
  rxbyte = 900;
  txbyte = 800;
  rxerror = 1;
  txerror = 2;
  rxfragerr = 3;
  txfail = 4;
}

abbrev device_counters : DeviceCounters
device_counters = record { rxoflo = 1; rxcrc = 2; rxundec = 3; rxrunt = 4; rxgiant = 5 }

abbrev no_stats : Stats
no_stats = record { stat_qual = zero_quality; code = 0; fragment = 0; retries = 0; misc = 0 }

wl_get_wireless_stats-watchdog_round_example :
    returned (
      wireless_stats_of 15 false
        (pos 0, negsuc 64)
        (watchdog_round true device_counters if_counters (some (negsuc 89)) two_copies)
        no_stats)
    ≡ some (filled 15 device_counters if_counters (negsuc 64) (negsuc 89) no_stats)
wl_get_wireless_stats-watchdog_round_example =
    wl_get_wireless_stats-watchdog_round 15 false (pos 0) (negsuc 64) (negsuc 89) device_counters
      if_counters two_copies no_stats refl (omega arith)

-- Two devices ask for their lists before the work runs.
abbrev asked_once : Multicast
asked_once = record no_multicast { context = some 1; pending = true; callbacks = 1 }

abbrev asked_twice : Multicast
asked_twice = record asked_once { context = some 2 }

abbrev now_begun : Multicast
now_begun = record asked_twice { pending = false; worker = begun }

abbrev read_second : Multicast
read_second = record now_begun { worker = took (some 2) }

abbrev counted_second : Multicast
counted_second = record read_second { callbacks = 0; worker = setting (some 2) }

two_asked : MulticastReach asked_twice
unfolding schedule_multicast
two_asked =
    multicast_step (multicast_step multicast_new (set_list no_multicast true true 1))
      (set_list asked_once true true 2)

second_counted : MulticastReach counted_second
unfolding begin_work read_context count_off
second_counted =
    multicast_step
      (multicast_step (multicast_step two_asked (work_begun asked_twice refl refl))
        (work_read now_begun refl))
      (work_counted read_second (some 2) refl)

-- The device is up, but there is no memory for the list.
second_done : MulticastReach (end_work true false (some 2) counted_second)
second_done = multicast_step second_counted (work_ended counted_second true false (some 2) refl)

MulticastReach-Settled_example :
    Settled (end_work true false (some 2) counted_second) (asked second_done)
MulticastReach-Settled_example = MulticastReach-Settled second_done
