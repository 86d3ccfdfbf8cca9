-- ===== src/Events/Loop.antt =====
-- The event thread and its queue over all interleavings: wakeups and order.
use broadcom_bcm4312_fix.Prelude.{
  Bool, List, [], ap, append-nil, append_assoc, arith, false, length, length-append, none, refl,
  some, suc, sym, true, ℕ, ◌++◌, ◌+◌, ◌∙◌, ◌∷◌, ◌≡◌, ◌≤◌,
}
use broadcom_bcm4312_fix.Link.{EventMsg}
use broadcom_bcm4312_fix.Events.{
  EventLoop, EventQueue, Panics, Phase, QueuedEvent, Reach, Step, dequeue, down, ended, enqueue,
  handle, here, holding, next, owes, stop, stop_woken, up, waiting, wl_deq_event, wl_enq_event,
  wl_init_eq, woken,
}

-- The event in the thread's hands.
abbrev pub in_flight : Phase → List QueuedEvent
in_flight waiting = []
in_flight woken = []
in_flight (holding e) = e ∷ []
in_flight ended = []

-- One entry of the queue is promised to a thread that was woken.
abbrev pub claims : Phase → ℕ
claims waiting = 0
claims woken = 1
claims (holding e) = 0
claims ended = 0

-- Every count of the semaphore, every producer that has not posted yet and a woken thread have an
-- entry of the queue of their own.
abbrev pub Backed : EventLoop → Type 0
Backed s = s.event_sync + s.unposted + claims s.phase ≤ length s.queue

enqueue-Backed :
    (s : EventLoop) (allocated : Bool) (msg : EventMsg)
    → Backed s
    → s.event_sync + owes (wl_enq_event allocated s.queue msg).0 s.unposted + claims s.phase
      ≤ length (wl_enq_event allocated s.queue msg).1
unfolding wl_enq_event
enqueue-Backed s allocated msg h =
    ground (arith, length-append s.queue (record { etype = msg.event_type; emsg = msg } ∷ []))

pub dequeue-length :
    (q : EventQueue) (e : QueuedEvent)
    → (wl_deq_event q).0 ≡ some e
    → length q ≡ suc (length (wl_deq_event q).1)
unfolding wl_deq_event
dequeue-length [] e h = cc
dequeue-length (a ∷ q) e h = refl

Step-Backed : {s t : EventLoop} → Step s t → Backed s → Backed t
Step-Backed (enqueue s allocated msg) h = enqueue-Backed s allocated msg h
Step-Backed (up s n e) h = omega arith
Step-Backed (down s n p e) h = ground arith
Step-Backed (dequeue s e p d) h = ground (arith, dequeue-length s.queue e d)
Step-Backed (handle s e p) h = ground arith
Step-Backed (stop s p) h = ground arith
Step-Backed (stop_woken s p) h = ground arith

Reach-Backed : {s : EventLoop} → Reach s → Backed s
Reach-Backed here = unfold wl_init_eq in omega arith
Reach-Backed (next r st) = Step-Backed st (Reach-Backed r)

deq_none : (q : EventQueue) → (wl_deq_event q).0 ≡ none → length q ≡ 0
unfolding wl_deq_event
deq_none [] h = refl
deq_none (e ∷ q) h = cc

-- However producers and the thread are interleaved, also where allocations fail or the thread is
-- stopped, the thread is never woken to an empty queue: its BUG() is out of reach.
pub Reach-no_panic : {s : EventLoop} → Reach s → ¬ Panics s
Reach-no_panic {s} r (w, e) = ground (arith, Reach-Backed r, deq_none s.queue e)

-- The events that the queue accepted, in the order of their arrival.
abbrev pub accepted_now : Bool → EventMsg → List QueuedEvent
accepted_now true msg = record { etype = msg.event_type; emsg = msg } ∷ []
accepted_now false msg = []

abbrev pub step_accepts : {s t : EventLoop} → Step s t → List QueuedEvent
step_accepts (enqueue s allocated msg) = accepted_now allocated msg
step_accepts (up s n e) = []
step_accepts (down s n p e) = []
step_accepts (dequeue s e p d) = []
step_accepts (handle s e p) = []
step_accepts (stop s p) = []
step_accepts (stop_woken s p) = []

abbrev pub accepted : {s : EventLoop} → Reach s → List QueuedEvent
accepted here = []
accepted (next r st) = accepted r ++ step_accepts st

abbrev pub in_order : EventLoop → List QueuedEvent
in_order s = s.handled ++ (in_flight s.phase ++ s.queue)

enqueue-in_order :
    (s : EventLoop) (allocated : Bool) (msg : EventMsg)
    → s.handled ++ (in_flight s.phase ++ (wl_enq_event allocated s.queue msg).1)
      ≡ in_order s ++ accepted_now allocated msg
unfolding wl_enq_event
enqueue-in_order s true msg = simp append_assoc
enqueue-in_order s false msg = sym (append-nil (in_order s))

dequeue-in_order :
    (q : EventQueue) (e : QueuedEvent) → (wl_deq_event q).0 ≡ some e → q ≡ e ∷ (wl_deq_event q).1
unfolding wl_deq_event
dequeue-in_order [] e h = cc
dequeue-in_order (a ∷ q) e h = cc

Step-in_order : {s t : EventLoop} (st : Step s t) → in_order t ≡ in_order s ++ step_accepts st
Step-in_order (enqueue s allocated msg) = enqueue-in_order s allocated msg
Step-in_order (up s n e) = sym (append-nil (in_order s))
Step-in_order (down s n p e) = rw append-nil (rw p)
Step-in_order (dequeue s e p d) =
    rw append-nil (rw p (ap (λ q. s.handled ++ q) (sym (dequeue-in_order s.queue e d))))
Step-in_order (handle s e p) = rw append-nil (rw p (append_assoc s.handled (e ∷ []) s.queue))
Step-in_order (stop s p) = rw append-nil (rw p)
Step-in_order (stop_woken s p) = rw append-nil (rw p)

-- However producers and the thread are interleaved, every accepted event is handled, in the
-- thread's hands or still queued, exactly once, and in the order of arrival.
pub Reach-in_order : {s : EventLoop} (r : Reach s) → in_order s ≡ accepted r
Reach-in_order here = unfold wl_init_eq in refl
Reach-in_order (next r st) = Step-in_order st ∙ ap (λ q. q ++ step_accepts st) (Reach-in_order r)
