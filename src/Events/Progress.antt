-- ===== src/Events/Progress.antt =====
-- The event thread's progress: from every state in which it has not ended, its queue can be worked
-- off.
use broadcom_bcm4312_fix.Prelude.{
  Bool, List, [], append-nil, append_assoc, arith, inl, inr, length, length-append, refl, subst,
  suc, sym, zero, ℕ, ◌++◌, ◌+◌, ◌∷◌, ◌≡◌, ◌≢◌, ◌⊎◌,
}
use broadcom_bcm4312_fix.Link.{EventMsg}
use broadcom_bcm4312_fix.Events.{
  EventLoop, EventQueue, Phase, QueuedEvent, Reach, Step, dequeue, down, ended, enqueue, handle,
  here, holding, next, owes, stop, stop_woken, up, waiting, wl_deq_event, wl_enq_event, wl_init_eq,
  woken,
}
use broadcom_bcm4312_fix.Events.Loop.{Reach-in_order, accepted, claims, dequeue-length, in_flight}

-- A sequence of steps.
pub data Steps : EventLoop → EventLoop → Type 0 where
  done : {s : EventLoop} → Steps s s
  then_ : {s t u : EventLoop} → Step s t → Steps t u → Steps s u

-- While the thread runs, each entry of the queue is promised to it exactly once.
abbrev pub Balanced : EventLoop → Type 0
Balanced s = (s.phase ≡ ended) ⊎ (s.event_sync + s.unposted + claims s.phase ≡ length s.queue)

enqueue-Balanced :
    (s : EventLoop) (allocated : Bool) (msg : EventMsg)
    → s.event_sync + s.unposted + claims s.phase ≡ length s.queue
    → s.event_sync + owes (wl_enq_event allocated s.queue msg).0 s.unposted + claims s.phase
      ≡ length (wl_enq_event allocated s.queue msg).1
unfolding wl_enq_event
enqueue-Balanced s allocated msg h =
    ground (arith, length-append s.queue (record { etype = msg.event_type; emsg = msg } ∷ []))

Step-Balanced : {s t : EventLoop} → Step s t → Balanced s → Balanced t
Step-Balanced (enqueue s allocated msg) (inl h) = inl h
Step-Balanced (enqueue s allocated msg) (inr h) = inr (enqueue-Balanced s allocated msg h)
Step-Balanced (up s n e) (inl h) = inl h
Step-Balanced (up s n e) (inr h) = inr (omega arith)
Step-Balanced (down s n p e) (inl h) = absurd (cc)
Step-Balanced (down s n p e) (inr h) = inr (ground arith)
Step-Balanced (dequeue s e p d) (inl h) = absurd (cc)
Step-Balanced (dequeue s e p d) (inr h) = inr (ground (arith, dequeue-length s.queue e d))
Step-Balanced (handle s e p) (inl h) = absurd (cc)
Step-Balanced (handle s e p) (inr h) = inr (ground arith)
Step-Balanced (stop s p) h = inl refl
Step-Balanced (stop_woken s p) h = inl refl

Reach-Balanced : {s : EventLoop} → Reach s → Balanced s
Reach-Balanced here = unfold wl_init_eq in inr (omega arith)
Reach-Balanced (next r st) = Step-Balanced st (Reach-Balanced r)

-- A state in which the thread is in a phase.
abbrev pub loop_at : Phase → EventQueue → ℕ → ℕ → List QueuedEvent → EventLoop
loop_at p q posted owed h = record {
  queue = q;
  event_sync = posted;
  unposted = owed;
  phase = p;
  handled = h;
}

-- The thread takes the first entry and handles it.
handle_first :
    (e : QueuedEvent) (q : EventQueue) (posted owed : ℕ) (h : List QueuedEvent) {t : EventLoop}
    → Steps (loop_at waiting q posted owed (h ++ e ∷ [])) t
    → Steps (loop_at woken (e ∷ q) posted owed h) t
unfolding wl_deq_event
handle_first e q posted owed h rest =
    then_ (dequeue (loop_at woken (e ∷ q) posted owed h) e refl refl)
      (then_ (handle (loop_at (holding e) q posted owed h) e refl) rest)

regroup :
    {s : EventLoop} (h : List QueuedEvent) (a : QueuedEvent) (q : EventQueue)
    → Steps s (loop_at waiting [] 0 0 ((h ++ a ∷ []) ++ q))
    → Steps s (loop_at waiting [] 0 0 (h ++ a ∷ q))
regroup {s} h a q st =
    subst (λ k. Steps s (loop_at waiting [] 0 0 k)) (append_assoc h (a ∷ []) q) st

drain :
    (q : EventQueue) (posted owed : ℕ) (h : List QueuedEvent)
    → posted + owed ≡ length q
    → Steps (loop_at waiting q posted owed h) (loop_at waiting [] 0 0 (h ++ q))
drain [] zero zero h e =
    subst (λ k. Steps (loop_at waiting [] 0 0 h) (loop_at waiting [] 0 0 k)) (sym (append-nil h))
      done
drain [] zero (suc owed) h e = absurd (omega arith)
drain [] (suc posted) owed h e = absurd (omega arith)
drain (a ∷ q) zero zero h e = absurd (omega arith)
drain (a ∷ q) zero (suc owed) h e = then_ (up (loop_at waiting (a ∷ q) 0 (suc owed) h) owed refl) (
    then_ (down (loop_at waiting (a ∷ q) (0 + 1) owed h) 0 refl (omega arith))
      (handle_first a q 0 owed h (regroup h a q (drain q 0 owed (h ++ a ∷ []) (omega arith)))))
drain (a ∷ q) (suc posted) owed h e =
    then_ (down (loop_at waiting (a ∷ q) (suc posted) owed h) posted refl refl) (
      handle_first a q posted owed h
        (regroup h a q (drain q posted owed (h ++ a ∷ []) (omega arith))))

drain_from :
    (p : Phase) (q : EventQueue) (posted owed : ℕ) (h : List QueuedEvent)
    → p ≢ ended
    → posted + owed + claims p ≡ length q
    → Steps (loop_at p q posted owed h) (loop_at waiting [] 0 0 (h ++ (in_flight p ++ q)))
drain_from waiting q posted owed h running e = drain q posted owed h (omega arith)
drain_from woken [] posted owed h running e = absurd (omega arith)
drain_from woken (a ∷ q) posted owed h running e =
    handle_first a q posted owed h (regroup h a q (drain q posted owed (h ++ a ∷ []) (omega arith)))
drain_from (holding a) q posted owed h running e =
    then_ (handle (loop_at (holding a) q posted owed h) a refl)
      (regroup h a q (drain q posted owed (h ++ a ∷ []) (omega arith)))
drain_from ended q posted owed h running e = absurd (running refl)

-- However producers and the thread have been interleaved, as long as the thread has not ended there
-- are steps that lead to an empty queue, with the thread waiting and each accepted event
-- handled, in the order of arrival.
pub Reach-drains :
    {s : EventLoop} (r : Reach s) → s.phase ≢ ended → Steps s (loop_at waiting [] 0 0 (accepted r))
Reach-drains {s} r running = elim (Reach-Balanced r) [
  | inl over ↦ absurd (running over)
  | inr balanced ↦
      subst (λ k. Steps s (loop_at waiting [] 0 0 k)) (Reach-in_order r)
        (drain_from s.phase s.queue s.event_sync s.unposted s.handled running balanced)
]
