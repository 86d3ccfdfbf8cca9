-- ===== src/Linux/Timer.antt =====
-- A driver timer: wl_init_timer, wl_add_timer, wl_del_timer, wl_free_timer, wl_timer, _wl_timer and
-- wl_timer_task, with wl_schedule_task (src/wl/sys/wl_linux.c). A callback runs under the lock and may
-- add and delete its own timer.
pub mod Callbacks
use broadcom_bcm4312_fix.Prelude.{
  Bool, List, Option, [], false, if◌then◌else◌, none, not, set, some, suc, true, ℕ, ◌&&◌, ◌+◌, ◌-◌,
  ◌==◌, ◌∷◌, ◌≡◌,
}
use broadcom_bcm4312_fix.Prelude.Int.{is_negative, negsuc, pos, ℤ}

-- One wl_timer_t and what the kernel keeps of it: whether it is in the kernel's list, the calls of
-- wl_timer that have begun, the tasks that were scheduled for it, the callbacks that run, with
-- those of them that run in a task, and the calls that were given up; with the count `callbacks` of
-- struct wl_info.
pub record Timer : Type 0 where
  pub ms : ℕ
  pub periodic : Bool
  pub set : Bool
  pub pending : Bool
  pub fired : ℕ
  pub tasks : ℕ
  pub running : ℕ
  pub task_ends : ℕ
  pub given_up : ℕ
  pub callbacks : ℕ

-- bzero and the initialisation of the kernel's timer.
unfoldable pub wl_init_timer : ℕ → Timer
wl_init_timer callbacks = record {
  ms = 0;
  periodic = false;
  set = false;
  pending = false;
  fired = 0;
  tasks = 0;
  running = 0;
  task_ends = 0;
  given_up = 0;
  callbacks = callbacks;
}

-- add_timer of the kernel, which stops it (BUG_ON) for a timer that is pending: `none`.
unfoldable pub add_timer : Timer → Option Timer
add_timer t = if t.pending then none else some (record t { pending = true })

-- A timer that is set gets only the new period.
unfoldable pub wl_add_timer : ℕ → Bool → Timer → Option Timer
wl_add_timer ms periodic t =
    if t.set
    then some (record t { ms = ms; periodic = periodic })
    else add_timer
        (record t { ms = ms; periodic = periodic; set = true; callbacks = t.callbacks + 1 })

-- del_timer of the kernel: whether the timer was pending.
unfoldable pub del_timer : Timer → Bool × Timer
del_timer t = (t.pending, record t { pending = false })

-- The count goes down only for a timer that the kernel had not fired yet; the result is TRUE.
unfoldable pub wl_del_timer : Timer → Timer
wl_del_timer t =
    if t.set
    then (let r = del_timer (record t { set = false }) in
        if r.0 then record (r.1) { callbacks = (r.1).callbacks - 1 } else r.1)
    else t

-- The timer expires: the kernel calls wl_timer.
unfoldable pub expire : Timer → Timer
expire t = record t { pending = false; fired = t.fired + 1 }

-- _wl_timer up to the call of the timer's function, which is made just where the test succeeds; a
-- periodic timer is added again.
unfoldable pub timer_test : Timer → Bool
timer_test t = t.set && not t.pending

unfoldable pub timer_rearm : Timer → Option Timer
timer_rearm t =
    if timer_test t
    then (if t.periodic
        then add_timer (record t { callbacks = t.callbacks + 1; set = true })
        else some (record t { set = false }))
    else some t

-- The end of _wl_timer.
unfoldable pub timer_end : Timer → Timer
timer_end t = record t { callbacks = t.callbacks - 1 }

-- wl_schedule_task for wl_timer_task, where there is memory and schedule_work takes the task.
unfoldable pub wl_schedule_task : Bool → Timer → ℤ × Timer
wl_schedule_task granted t =
    if granted
    then (pos 0, record t { tasks = t.tasks + 1; callbacks = t.callbacks + 1 })
    else (negsuc 11, t)

-- wl_timer: the callback is run at once, or in a task where all work is passive; the status of
-- wl_schedule_task is dropped.
unfoldable pub wl_timer_passive : Bool → Timer → Timer
wl_timer_passive granted t =
    let r = wl_schedule_task granted t in
    if is_negative (r.0) then record (r.1) { given_up = (r.1).given_up + 1 } else r.1

-- The kernel, the driver and the callback, interleaved. Where a function ends in `none` the kernel
-- stops: `Stops`.
pub data TimerStep : Timer → Option Timer → Type 0 where
  add : (t : Timer) (ms : ℕ) (periodic : Bool) → TimerStep t (wl_add_timer ms periodic t)
  delete : (t : Timer) → TimerStep t (some (wl_del_timer t))
  fire : (t : Timer) → t.pending ≡ true → TimerStep t (some (expire t))
  -- wl_timer, passive: the call becomes a task
  defer :
      (t : Timer) (n : ℕ) (granted : Bool)
      → t.fired ≡ suc n
      → TimerStep t (some (wl_timer_passive granted (record t { fired = n })))
  -- wl_timer, not passive, and wl_timer_task: the callback begins
  begin :
      (t u : Timer) (n : ℕ)
      → t.fired ≡ suc n
      → timer_rearm (record t { fired = n }) ≡ some u
      → TimerStep t (some (record u { running = u.running + 1 }))
  begin_task :
      (t u : Timer) (n : ℕ)
      → t.tasks ≡ suc n
      → timer_rearm (record t { tasks = n }) ≡ some u
      → TimerStep t (some (record u { running = u.running + 1; task_ends = u.task_ends + 1 }))
  rearm_stops :
      (t : Timer) (n : ℕ) → t.fired + t.tasks ≡ suc n → timer_rearm t ≡ none → TimerStep t none
  -- the end of _wl_timer, and that of wl_timer_task
  return :
      (t : Timer) (n : ℕ)
      → t.running ≡ suc n
      → TimerStep t (some (timer_end (record t { running = n })))
  end_task :
      (t : Timer) (n : ℕ)
      → t.task_ends ≡ suc n
      → TimerStep t (some (record t { task_ends = n; callbacks = t.callbacks - 1 }))

pub data TimerReach : Option Timer → Type 0 where
  timer_new : TimerReach (some (wl_init_timer 0))
  timer_step : {t : Timer} {u : Option Timer} → TimerReach (some t) → TimerStep t u → TimerReach u

-- wl_free_timer's search of the list of timers, by their numbers: the first one that is `t` is
-- unlinked.
unfoldable pub unlink : ℕ → List ℕ → List ℕ
unlink t [] = []
unlink t (x ∷ timers) = let rest = unlink t timers in if x == t then timers else x ∷ rest
