-- ===== src/Tests/Glue.antt =====
-- Examples of the theorems on the transmit queue, the timers, the monitor and the interrupts of the
-- Linux glue.
use broadcom_bcm4312_fix.Prelude.{
  [], arith, false, length-replicate, none, refl, replicate, some, true, ◌++◌, ◌∷◌, ◌≡◌, ◌⊎◌,
}
use broadcom_bcm4312_fix.Linux.Txq.{
  Tx, TxReach, dispatch, empty_tx, is_full, start_packet, tx_new, tx_step, txqwork_round, wl_start,
  wl_start_int, work_begin, work_packet,
}
use broadcom_bcm4312_fix.Linux.Timer.{
  Timer, TimerReach, add, add_timer, begin, expire, fire, timer_new, timer_rearm, timer_step,
  timer_test, wl_add_timer, wl_init_timer,
}
use broadcom_bcm4312_fix.Linux.Monitor.{Received, wl_monitor}
use broadcom_bcm4312_fix.Linux.Interrupts.{
  Dpc, DpcReach, dpc_new, dpc_step, go_down, go_up, idle_dpc, interrupt, schedule_dpc, wl_isr,
  wl_reset,
}
use broadcom_bcm4312_fix.Linux.Radiotap.{Radiotap, RxStatus}
use broadcom_bcm4312_fix.Linux.Attach.{Answers, wl_free, wl_pci_probe}
use broadcom_bcm4312_fix.Linux.Txq.Order.{IsSound, TxReach-in_order, taken}
use broadcom_bcm4312_fix.Linux.Attach.Released.{
  no_device, switch_of, whole_device, wl_pci_probe_holds,
}
use broadcom_bcm4312_fix.Linux.Rfkill.{wl_uninit_rfkill}
use broadcom_bcm4312_fix.Headers.{ok}
use broadcom_bcm4312_fix.Lifecycle.{
  wl_alloc_wdev, wl_cfg80211_attach, wl_create_event_handler, wl_free_wdev, wl_init_cfg80211_priv,
  wl_init_priv_mem,
}
use broadcom_bcm4312_fix.Linux.Monitor.Frame.{IsLaid, wl_monitor-IsLaid}
use broadcom_bcm4312_fix.Linux.Interrupts.Deferred.{
  Continues, Counts, DpcReach-Continues, came_late,
}
use broadcom_bcm4312_fix.Linux.Timer.Callbacks.{Runs, TimerReach-Runs}
use broadcom_bcm4312_fix.Prelude.Int.{negsuc, pos}

-- Two packets are queued, and the work function, which the first of them scheduled, sends one.
abbrev queued : Tx
queued = record empty_tx { queue = 7 ∷ 8 ∷ []; txq_cnt = 2; txq_dispatched = true; callbacks = 1 }

abbrev sending : Tx
sending = record queued { queue = 8 ∷ []; txq_cnt = 1; working = true; sent = 7 ∷ [] }

abbrev one_queued : Tx
one_queued = record queued { queue = 7 ∷ []; txq_cnt = 1 }

first_queued : TxReach 4 one_queued
unfolding wl_start is_full dispatch
first_queued = tx_step tx_new (start_packet empty_tx true 7)

both_queued : TxReach 4 queued
unfolding wl_start is_full dispatch
both_queued = tx_step first_queued (start_packet one_queued true 8)

one_sent : TxReach 4 sending
unfolding txqwork_round wl_start_int
one_sent =
    tx_step (tx_step both_queued (work_begin queued refl refl))
      (work_packet (record queued { working = true }) 7 (8 ∷ []) refl refl)

TxReach-in_order_example : IsSound sending × (sending.sent ++ sending.queue ≡ taken one_sent)
TxReach-in_order_example = TxReach-in_order one_sent

-- A periodic timer was added and fired, its callback runs, and the timer is pending again.
abbrev added : Timer
added = record (wl_init_timer 0) {
  ms = 10;
  periodic = true;
  set = true;
  pending = true;
  callbacks = 1;
}

abbrev fired_once : Timer
fired_once = record added { pending = false; fired = 1 }

abbrev called : Timer
called = record added { running = 1; callbacks = 2 }

timer_added : TimerReach (some added)
unfolding wl_add_timer add_timer wl_init_timer
timer_added = timer_step timer_new (add (wl_init_timer 0) 10 true)

timer_fired : TimerReach (some fired_once)
unfolding expire wl_init_timer
timer_fired = timer_step timer_added (fire added refl)

timer_called : TimerReach (some called)
unfolding timer_rearm timer_test add_timer wl_init_timer
timer_called =
    timer_step timer_fired (begin fired_once (record added { callbacks = 2 }) 0 refl refl)

TimerReach-Runs_example : Runs (some called)
TimerReach-Runs_example = TimerReach-Runs timer_called

-- A kernel's constants, with memory that holds zeros.
abbrev kernel : Radiotap
kernel = record {
  is_2g = λ c. true;
  mhz_2g = λ c. 2412;
  mhz_5g = λ c. 5180;
  fresh = λ n. replicate n 0;
  fc_wep = 0x4000;
  fc_morefrag = 0x400;
  fc_kind_mask = 0xfc;
  fc_rts = 0xb4;
  fc_cts = 0xc4;
  chan_2ghz = 0x80;
  chan_5ghz = 0x100;
  chan_dyn = 0x400;
  chan_ofdm = 0x40;
  f_fcs = 0x10;
  f_shortpre = 0x02;
  f_wep = 0x04;
  f_frag = 0x08;
  f_badfcs = 0x40;
  rtap_tsft = 0;
  rtap_flags = 1;
  rtap_rate = 2;
  rtap_channel = 3;
  rtap_antsignal = 5;
  rtap_antnoise = 6;
  rtap_antenna = 11;
  rtap_vendor = 30;
  rtap_ext = 31;
  rtap_mcs = 19;
  rtap_ampdu = 20;
  rtap_vht = 21;
  mcs_have = 0x1f;
  vht_have = 0x1ff;
  mcs_bw_20 = 0;
  mcs_bw_40 = 1;
  mcs_bw_20l = 2;
  mcs_bw_20u = 3;
  mcs_sgi = 4;
  mcs_fmt_gf = 8;
  mcs_fec_ldpc = 0x10;
  vht_nss = 0x0f;
  ampdu_is_last = 8;
  ampdu_mpdu_only = 4;
}

-- A VHT frame on channel 1, with one sk_buff behind it.
abbrev heard : RxStatus
heard = record {
  pkterror = 0;
  phytype = 4;
  chanspec = 0x1001;
  datarate = 12;
  mcs = 3;
  htflags = 0;
  antenna = 1;
  pktlength = 10;
  mactime = 77;
  sq = 5;
  signal = negsuc 59;
  noise = negsuc 90;
  preamble = 2;
  encoding = 4;
  nfrmtype = 0;
  nss = 1;
  coding = 1;
  aid = 7;
  gid = 2;
  bw = 4;
  vhtflags = 4;
  bw_nonht = 0;
  ampdu_counter = 9;
}

abbrev packet : Received
packet = record {
  data_of = 0 ∷ 0 ∷ 0 ∷ 0 ∷ 0 ∷ 0 ∷ 8 ∷ 0 ∷ 1 ∷ 2 ∷ [];
  behind = [];
  chain = (3 ∷ 4 ∷ []) ∷ [];
}

wl_monitor-IsLaid_example :
    IsLaid 3 packet (wl_monitor kernel true 3 true (119 ∷ 108 ∷ []) 5 heard packet)
wl_monitor-IsLaid_example =
    wl_monitor-IsLaid kernel (λ n. length-replicate n 0) 3 (119 ∷ 108 ∷ []) 5 heard packet
      (omega arith) (omega arith) (omega arith) (omega arith)

-- The device came up, and an interrupt wants the deferred call, which is scheduled as work.
abbrev ready : Dpc
ready = record idle_dpc { is_up = true; interrupts = true }

abbrev interrupted : Dpc
interrupted = record ready { interrupts = false; scheduled = true; callbacks = 1 }

came_up : DpcReach true (some ready)
unfolding wl_reset
came_up = dpc_step dpc_new (go_up idle_dpc)

called_for : DpcReach true (some interrupted)
unfolding wl_isr schedule_dpc
called_for = dpc_step came_up (interrupt ready true refl)

-- Taken down and up again while the call is scheduled, it comes up late, and an interrupt that
-- wants a deferred call fails the assertion of wl_isr.
abbrev late : Dpc
late = record interrupted { interrupts = true }

came_up_again : DpcReach true (some late)
unfolding wl_reset
came_up_again =
    dpc_step (dpc_step called_for (go_down interrupted))
      (go_up (record interrupted { is_up = false; interrupts = false }))

stopped : DpcReach true none
unfolding wl_isr schedule_dpc
stopped = dpc_step came_up_again (interrupt late true refl)

DpcReach-Continues_example :
    Counts true (some interrupted)
    × ((came_late called_for ≡ true) ⊎ Continues true (some interrupted))
DpcReach-Continues_example = DpcReach-Continues called_for

-- Every call is accepted but the start of the event thread.
abbrev no_thread : Answers
no_thread = record {
  unit_allowed = true;
  has_wl = true;
  has_wlif = true;
  has_dev = true;
  has_regs = true;
  wlc_attached = true;
  has_irq = true;
  pci = true;
  cfg_grants = record {
    wdev = true;
    wiphy = true;
    registered = ok;
    conf = true;
    profile = true;
    scan_req_int = true;
    ioctl_buf = true;
    extra_buf = true;
    pmk_list = true;
    event_thread = false;
  };
  rfkill_room = true;
  radio = (pos 0, 0);
  rfkill_accepts = true;
  dev_accepted = true;
  watchdog_accepted = true;
}

wl_pci_probe_holds_example :
    (wl_pci_probe true true no_thread no_device ≡ none)
    × (wl_free (whole_device true (switch_of no_thread))
        ≡ some
            (record no_device { enabled = true; rfkill = wl_uninit_rfkill (switch_of no_thread) }))
unfolding wl_cfg80211_attach wl_alloc_wdev wl_init_cfg80211_priv wl_init_priv_mem
    wl_create_event_handler wl_free_wdev
wl_pci_probe_holds_example = wl_pci_probe_holds true no_thread
