-- ===== src/Events.antt =====
-- The event queue and its thread: wl_init_eq, wl_enq_event, wl_deq_event, wl_flush_eq, wl_put_event,
-- wl_cfg80211_event, wl_wakeup_event, wl_init_eloop_handler and wl_event_handler
-- (src/wl/sys/wl_cfg80211_hybrid.c).
pub mod Loop
pub mod Handlers
pub mod Progress
use broadcom_bcm4312_fix.Prelude.{
  Bool, List, Option, [], if◌then◌else◌, none, some, suc, ℕ, ◌++◌, ◌+◌, ◌∷◌, ◌≡◌,
}
use broadcom_bcm4312_fix.Link.{
  EventMsg, EventType, deauth_ind, disassoc_ind, join, link, mic_error, ndis_link, roam,
  scan_complete, set_ssid_done, start, wl_notify_connect_status, wl_notify_mic_status,
  wl_notify_roaming_status,
}
use broadcom_bcm4312_fix.Headers.{Status, enomem, fail, ok}
use broadcom_bcm4312_fix.State.{M, Platform, pure, ◌>>=◌}
use broadcom_bcm4312_fix.Scan.{wl_notify_scan_status}

-- struct wl_cfg80211_event_q; its list node is the list that it stands in.
pub record QueuedEvent : Type 0 where
  pub etype : EventType
  pub emsg : EventMsg

-- `eq_list`, oldest first.
abbrev pub EventQueue : Type 0
EventQueue = List QueuedEvent

unfoldable pub wl_init_eq : EventQueue
wl_init_eq = []

-- The event goes to the tail; without memory it is dropped.
unfoldable pub wl_enq_event : Bool → EventQueue → EventMsg → Status × EventQueue
wl_enq_event allocated q msg =
    if allocated
    then (ok, q ++ record { etype = msg.event_type; emsg = msg } ∷ [])
    else (fail enomem, q)

unfoldable pub wl_deq_event : EventQueue → Option QueuedEvent × EventQueue
wl_deq_event [] = (none, [])
wl_deq_event (e ∷ q) = (some e, q)

-- `while (!list_empty(&wl->eq_list))`: each round frees the first entry.
unfoldable pub wl_flush_eq : EventQueue → EventQueue
wl_flush_eq [] = []
wl_flush_eq (e ∷ q) = wl_flush_eq q

-- The functions that the handler table holds.
pub data Handler : Type 0 where
  scan_status connect_status roaming_status mic_status : Handler

-- wl_init_eloop_handler: the table after it; `none` is a NULL entry.
unfoldable pub handler_of : EventType → Option Handler
handler_of scan_complete = some scan_status
handler_of join = some connect_status
handler_of start = some connect_status
handler_of link = some connect_status
handler_of ndis_link = some connect_status
handler_of set_ssid_done = some connect_status
handler_of disassoc_ind = some connect_status
handler_of deauth_ind = some connect_status
handler_of roam = some roaming_status
handler_of mic_error = some mic_status
handler_of (EventType.raw n) = none

-- The thread: before `down_interruptible`, after it, with an event, and ended.
pub data Phase : Type 0 where
  waiting woken : Phase
  holding : QueuedEvent → Phase
  ended : Phase

-- The queue, the semaphore, the producers that have enqueued and not yet woken the thread, and the
-- events that were handled, oldest first.
pub record EventLoop : Type 0 where
  pub queue : EventQueue
  pub event_sync : ℕ
  pub unposted : ℕ
  pub phase : Phase
  pub handled : List QueuedEvent

abbrev pub new_loop : EventLoop
new_loop = record {
  queue = wl_init_eq;
  event_sync = 0;
  unposted = 0;
  phase = waiting;
  handled = [];
}

-- Whether an enqueueing producer goes on to wl_wakeup_event.
abbrev pub owes : Status → ℕ → ℕ
owes ok n = n + 1
owes (fail e) n = n

-- Producers (wl_cfg80211_event, in any context) and the thread, interleaved. `stop` is
-- wl_destroy_event_handler's signal or kthread_stop, seen by the thread as it waits; `Panics` is the
-- BUG() on an empty queue.
pub data Step : EventLoop → EventLoop → Type 0 where
  enqueue :
      (s : EventLoop) (allocated : Bool) (msg : EventMsg)
      → Step s (record s {
        queue = (wl_enq_event allocated s.queue msg).1;
        unposted = owes (wl_enq_event allocated s.queue msg).0 s.unposted;
      })
  up :
      (s : EventLoop) (n : ℕ)
      → s.unposted ≡ suc n
      → Step s (record s { unposted = n; event_sync = s.event_sync + 1 })
  down :
      (s : EventLoop) (n : ℕ)
      → s.phase ≡ waiting
      → s.event_sync ≡ suc n
      → Step s (record s { event_sync = n; phase = woken })
  dequeue :
      (s : EventLoop) (e : QueuedEvent)
      → s.phase ≡ woken
      → (wl_deq_event s.queue).0 ≡ some e
      → Step s (record s { queue = (wl_deq_event s.queue).1; phase = holding e })
  handle :
      (s : EventLoop) (e : QueuedEvent)
      → s.phase ≡ holding e
      → Step s (record s { phase = waiting; handled = s.handled ++ e ∷ [] })
  stop : (s : EventLoop) → s.phase ≡ waiting → Step s (record s { phase = ended })
  stop_woken : (s : EventLoop) → s.phase ≡ woken → Step s (record s { phase = ended })

-- The state in which the thread runs into BUG().
abbrev pub Panics : EventLoop → Type 0
Panics s = (s.phase ≡ woken) × ((wl_deq_event s.queue).0 ≡ none)

pub data Reach : EventLoop → Type 0 where
  here : Reach new_loop
  next : {s t : EventLoop} → Reach s → Step s t → Reach t

module _ (x : Platform) where
  -- The call through the table.
  unfoldable pub run_handler : Handler → EventMsg → M Status
  run_handler scan_status e = wl_notify_scan_status x
  run_handler connect_status e = wl_notify_connect_status x e
  run_handler roaming_status e = wl_notify_roaming_status x e
  run_handler mic_status e = wl_notify_mic_status x e

  -- The body of wl_event_handler's loop for an event; the handler's status is dropped.
  unfoldable pub handle_event : QueuedEvent → M Status
  handle_event q = elim (handler_of q.etype) [
    | none ↦ pure ok
    | some h ↦ run_handler h q.emsg >>= λ _. pure ok
  ]

  -- The events of a queue, one after the other.
  unfoldable pub handle_all : EventQueue → M Status
  handle_all [] = pure ok
  handle_all (q ∷ rest) = handle_event q >>= λ _. handle_all rest
