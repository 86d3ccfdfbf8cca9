-- ===== src/Linux/Multicast/Overtaken.antt =====
-- Which multicast lists are set (src/wl/sys/wl_linux.c).
use broadcom_bcm4312_fix.Prelude.{
  Bool, List, Option, [], ap, arith, false, if◌then◌else◌, inl, inr, length, none, refl, some, sym,
  true, ℕ, ◌+◌, ◌∙◌, ◌∷◌, ◌≡◌, ◌≤◌, ◌⊎◌,
}
use broadcom_bcm4312_fix.Linux.Multicast.{
  Multicast, MulticastReach, Worker, asked, at_rest, begin_work, begun, count_off, end_work,
  multicast_new, multicast_step, read_context, schedule_multicast, set_list, set_multicast, setting,
  took, work_begun, work_counted, work_ended, work_read,
}

abbrev pub first : List ℕ → Option ℕ
first [] = none
first (x ∷ xs) = some x

abbrev pub last_call : List (Option ℕ × Bool) → Option ℕ
last_call [] = none
last_call (c ∷ cs) = c.0

-- The callback that the function has to count off, and the call that it has to make then.
abbrev pub owed : Worker → ℕ
owed at_rest = 0
owed begun = 1
owed (took dev) = 1
owed (setting dev) = 0

abbrev pub calls_due : Worker → ℕ
calls_due at_rest = 0
calls_due begun = 0
calls_due (took dev) = 0
calls_due (setting dev) = 1

-- The device that _wl_set_multicast_list is called for by the function, or was last.
abbrev pub works_for : Worker → Option ℕ → List (Option ℕ × Bool) → Option ℕ
works_for at_rest context calls = last_call calls
works_for begun context calls = context
works_for (took dev) context calls = dev
works_for (setting dev) context calls = dev

-- What is counted, whom the context names, whom the function works for, and how many calls there
-- were.
abbrev pub Settled : Multicast → List ℕ → Type 0
Settled s devs =
    (s.callbacks ≡ (if s.pending then 1 else 0) + owed s.worker)
    × (s.context ≡ first devs)
    × ((s.pending ≡ true) ⊎ (works_for s.worker s.context s.calls ≡ first devs))
    × (length s.calls + calls_due s.worker + s.callbacks ≤ length devs)

asked_again :
    (b : Bool) (dev : ℕ) (s : Multicast) (devs : List ℕ)
    → s.pending ≡ b
    → s.callbacks ≡ (if b then 1 else 0) + owed s.worker
    → length s.calls + calls_due s.worker + s.callbacks ≤ length devs
    → Settled
        (if b
          then record s { context = some dev }
          else record s { context = some dev; pending = true; callbacks = s.callbacks + 1 })
        (dev ∷ devs)
asked_again true dev s devs e counted fewer =
    (counted ∙ ap (λ b. (if b then 1 else 0) + owed s.worker) (sym e), refl, inl e, omega arith)
asked_again false dev s devs e counted fewer = (omega (arith, counted), refl, inl refl, omega arith)

schedule-Settled :
    (is_up granted : Bool) (dev : ℕ) (s : Multicast) (devs : List ℕ)
    → Settled s devs
    → Settled (schedule_multicast true is_up granted dev s) (dev ∷ devs)
unfolding schedule_multicast
schedule-Settled is_up granted dev s devs (counted, context, more, fewer) =
    asked_again s.pending dev s devs refl counted fewer

begin-Settled :
    (s : Multicast) (devs : List ℕ)
    → s.pending ≡ true
    → s.worker ≡ at_rest
    → Settled s devs
    → Settled (begin_work s) devs
unfolding begin_work
begin-Settled s devs p e (counted, context, more, fewer) =
    let one = counted ∙ ap (λ b. (if b then 1 else 0) + owed s.worker) p ∙ ap (λ w. 1 + owed w) e in
    let none_due = ap calls_due e in (one, context, inr context, omega (arith, none_due, fewer))

read-Settled :
    (s : Multicast) (devs : List ℕ)
    → s.worker ≡ begun
    → Settled s devs
    → Settled (read_context s) devs
unfolding read_context
read-Settled s devs e (counted, context, more, fewer) =
    let none_due = ap calls_due e in
    (
      counted ∙ ap (λ w. (if s.pending then 1 else 0) + owed w) e,
      context,
      inr context,
      omega (arith, none_due, fewer),
    )

counted-Settled :
    (s : Multicast) (dev : Option ℕ) (devs : List ℕ)
    → s.worker ≡ took dev
    → Settled s devs
    → Settled (count_off dev s) devs
unfolding count_off
counted-Settled s dev devs e (counted, context, more, fewer) =
    let one = ap owed e in
    let none_due = ap calls_due e in
    (
      omega (arith, counted, one),
      context,
      elim more [
        | inl p ↦ inl p
        | inr h ↦ inr (sym (ap (λ w. works_for w s.context s.calls) e) ∙ h)
      ],
      omega (arith, counted, one, none_due, fewer),
    )

ended-Settled :
    (s : Multicast) (is_up granted : Bool) (dev : Option ℕ) (devs : List ℕ)
    → s.worker ≡ setting dev
    → Settled s devs
    → Settled (end_work is_up granted dev s) devs
unfolding end_work set_multicast
ended-Settled s is_up granted dev devs e (counted, context, more, fewer) =
    let one_due = ap calls_due e in
    (
      counted ∙ ap (λ w. (if s.pending then 1 else 0) + owed w) e,
      context,
      elim more [
        | inl p ↦ inl p
        | inr h ↦ inr (sym (ap (λ w. works_for w s.context s.calls) e) ∙ h)
      ],
      omega (arith, one_due, fewer),
    )

-- However calls of wl_set_multicast_list, where all work is passive, and the parts of its work
-- function are interleaved, one callback is counted for pending work and one for a function that was
-- called and has not counted it off yet; the context is the device that was asked for last; where no
-- work is pending, the function at work reads or has read that device, or _wl_set_multicast_list was
-- called for it last. There were no more such calls, with those still due, than were asked for.
pub MulticastReach-Settled : {s : Multicast} (r : MulticastReach s) → Settled s (asked r)
MulticastReach-Settled multicast_new = (refl, refl, inr refl, omega arith)
MulticastReach-Settled (multicast_step r (set_list s is_up granted dev)) =
    schedule-Settled is_up granted dev s (asked r) (MulticastReach-Settled r)
MulticastReach-Settled (multicast_step r (work_begun s p h)) =
    begin-Settled s (asked r) p h (MulticastReach-Settled r)
MulticastReach-Settled (multicast_step r (work_read s h)) =
    read-Settled s (asked r) h (MulticastReach-Settled r)
MulticastReach-Settled (multicast_step r (work_counted s dev h)) =
    counted-Settled s dev (asked r) h (MulticastReach-Settled r)
MulticastReach-Settled (multicast_step r (work_ended s is_up granted dev h)) =
    ended-Settled s is_up granted dev (asked r) h (MulticastReach-Settled r)
