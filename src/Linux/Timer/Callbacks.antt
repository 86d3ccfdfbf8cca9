-- ===== src/Linux/Timer/Callbacks.antt =====
-- The count of callbacks and the kernel's BUG_ON over all interleavings of a timer's functions
-- (src/wl/sys/wl_linux.c).
use broadcom_bcm4312_fix.Prelude.{
  Bool, Bool-cases, Option, arith, false, if◌then◌else◌, inl, inr, none, refl, some, subst, suc,
  true, ℕ, ◌*◌, ◌+◌, ◌≡◌, ◌⊎◌,
}
use broadcom_bcm4312_fix.Linux.Timer.{
  Timer, TimerReach, TimerStep, add, add_timer, begin, begin_task, defer, del_timer, delete,
  end_task, expire, fire, rearm_stops, return, timer_end, timer_new, timer_rearm, timer_step,
  timer_test, wl_add_timer, wl_del_timer, wl_init_timer, wl_schedule_task, wl_timer_passive,
}

-- What is still to give back to the count: a pending timer, a call that has begun, a task, which
-- counts twice, a running callback, the end of a task, and each call that was given up.
abbrev pub due_back : Timer → ℕ
due_back t =
    (if t.pending then 1 else 0) + t.fired + 2 * t.tasks + t.running + t.task_ends + t.given_up

-- A pending timer is set, and the count is what is still to be given back.
abbrev pub IsAccounted : Timer → Type 0
IsAccounted t = ((t.pending ≡ false) ⊎ (t.set ≡ true)) × (t.callbacks ≡ due_back t)

-- A kernel that has not stopped.
abbrev pub Runs : Option Timer → Type 0
Runs none = ⊥
Runs (some t) = IsAccounted t

add-Runs :
    (ms : ℕ) (periodic : Bool) (t : Timer) → IsAccounted t → Runs (wl_add_timer ms periodic t)
unfolding wl_add_timer add_timer
add-Runs ms periodic t (held, count) = elim (Bool-cases t.set) [
  | inl on ↦ rw on (inr refl, count)
  | inr off ↦ elim held [
    | inr on ↦ absurd (cc)
    | inl idle ↦ rw (off, idle) (inr refl, ground (arith, count, idle))
  ]
]

delete-IsAccounted : (t : Timer) → IsAccounted t → IsAccounted (wl_del_timer t)
unfolding wl_del_timer del_timer
delete-IsAccounted t (held, count) = elim (Bool-cases t.set) [
  | inr off ↦ rw off (elim held [ inl idle ↦ inl idle | inr on ↦ absurd (cc) ], count)
  | inl on ↦ elim (Bool-cases t.pending) [
    | inl busy ↦ rw (on, busy) (inl refl, ground (arith, count, busy))
    | inr idle ↦ rw (on, idle) (inl refl, ground (arith, count, idle))
  ]
]

-- What the first part of _wl_timer leaves.
abbrev Rearmed : Timer → Option Timer → Type 0
Rearmed t none = ⊥
Rearmed t (some u) =
    ((u.pending ≡ false) ⊎ (u.set ≡ true)) × (u.callbacks + due_back t ≡ t.callbacks + due_back u)

rearm-Rearmed : (t : Timer) → (t.pending ≡ false) ⊎ (t.set ≡ true) → Rearmed t (timer_rearm t)
unfolding timer_rearm timer_test add_timer
rearm-Rearmed t held = elim (Bool-cases t.set) [
  | inr off ↦ rw off (elim held [ inl idle ↦ inl idle | inr on ↦ absurd (cc) ], refl)
  | inl on ↦ elim (Bool-cases t.pending) [
    | inl busy ↦ rw (on, busy) (inr refl, refl)
    | inr idle ↦ elim (Bool-cases t.periodic) [
      | inl again ↦ rw (on, idle, again) (inr refl, omega arith)
      | inr once ↦ rw (on, idle, once) (inl refl, omega arith)
    ]
  ]
]

passive-IsAccounted :
    (granted : Bool) (t : Timer) (n : ℕ)
    → t.fired ≡ suc n
    → IsAccounted t
    → IsAccounted (wl_timer_passive granted (record t { fired = n }))
unfolding wl_timer_passive wl_schedule_task
passive-IsAccounted true t n e (held, count) = (held, omega arith)
passive-IsAccounted false t n e (held, count) = (held, omega arith)

TimerStep-Runs : {t : Timer} {u : Option Timer} → TimerStep t u → IsAccounted t → Runs u
unfolding expire timer_end
TimerStep-Runs (add t ms periodic) h = add-Runs ms periodic t h
TimerStep-Runs (delete t) h = delete-IsAccounted t h
TimerStep-Runs (fire t busy) (held, count) = (inl refl, ground (arith, count, busy))
TimerStep-Runs (defer t n granted e) h = passive-IsAccounted granted t n e h
TimerStep-Runs (begin t u n e again) (held, count) =
    let r =
      subst (Rearmed (record t { fired = n })) again
        (rearm-Rearmed (record t { fired = n }) held) in
    (r.0, omega (arith, r.1, count, e))
TimerStep-Runs (begin_task t u n e again) (held, count) =
    let r =
      subst (Rearmed (record t { tasks = n })) again
        (rearm-Rearmed (record t { tasks = n }) held) in
    (r.0, omega (arith, r.1, count, e))
TimerStep-Runs (rearm_stops t n e stops) (held, count) =
    subst (Rearmed t) stops (rearm-Rearmed t held)
TimerStep-Runs (return t n e) (held, count) = (held, omega (arith, count, e))
TimerStep-Runs (end_task t n e) (held, count) = (held, omega (arith, count, e))

-- However the kernel, the driver and the timer's own callback interleave the addition, the deletion,
-- the expiry and the callbacks of a timer, also as tasks and where those cannot be scheduled, no
-- pending timer is added again, which would stop the kernel; and the count of callbacks is what the
-- pending timer, the calls, tasks and callbacks under way and the calls that were given up have
-- still to give back.
pub TimerReach-Runs : {u : Option Timer} → TimerReach u → Runs u
TimerReach-Runs timer_new = unfold wl_init_timer in (inl refl, refl)
TimerReach-Runs (timer_step r st) = TimerStep-Runs st (TimerReach-Runs r)
