-- ===== src/Linux/Multicast.antt =====
-- The task for the multicast list: wl_set_multicast_list and wl_set_multicast_list_workitem
-- (src/wl/sys/wl_linux.c). A device is a number; what _wl_set_multicast_list sends stands in Requests,
-- here whether it sends it. schedule_work and the atomic_inc behind it are one step. A work function
-- of the kernel does not run twice at once.
pub mod Overtaken
use broadcom_bcm4312_fix.Prelude.{
  Bool, List, Option, [], false, if◌then◌else◌, none, not, some, true, ℕ, ◌&&◌, ◌+◌, ◌-◌, ◌∷◌, ◌≡◌,
}

-- How far wl_set_multicast_list_workitem is: not called, called, with the context read, and with
-- the callback counted off.
pub data Worker : Type 0 where
  at_rest begun : Worker
  took setting : Option ℕ → Worker

-- The context of wl->multicast_task, whether its work is pending, the count of callbacks that it
-- has, its function, and the calls of _wl_set_multicast_list, the newest first: for which device,
-- and whether the list was set.
pub record Multicast : Type 0 where
  pub context : Option ℕ
  pub pending : Bool
  pub callbacks : ℕ
  pub worker : Worker
  pub calls : List (Option ℕ × Bool)

-- It returns early for no device, a device that is down and without memory.
unfoldable pub set_multicast : Bool → Bool → Option ℕ → Multicast → Multicast
set_multicast is_up granted dev s = record s {
  calls = (dev, elim dev [ none ↦ false | some d ↦ is_up && granted ]) ∷ s.calls;
}

-- schedule_work of the kernel answers whether the work was not pending yet; `passive` is
-- WL_ALL_PASSIVE_ENAB.
unfoldable pub schedule_multicast : Bool → Bool → Bool → ℕ → Multicast → Multicast
schedule_multicast passive is_up granted dev s =
    if not passive
    then set_multicast is_up granted (some dev) s
    else (let t : Multicast = record s { context = some dev } in
        if s.pending then t else record t { pending = true; callbacks = t.callbacks + 1 })

-- The work is not pending any more when the kernel calls its function.
unfoldable pub begin_work : Multicast → Multicast
begin_work s = record s { pending = false; worker = begun }

-- wl_set_multicast_list_workitem in its three parts.
unfoldable pub read_context : Multicast → Multicast
read_context s = record s { worker = took s.context }

unfoldable pub count_off : Option ℕ → Multicast → Multicast
count_off dev s = record s { callbacks = s.callbacks - 1; worker = setting dev }

unfoldable pub end_work : Bool → Bool → Option ℕ → Multicast → Multicast
end_work is_up granted dev s = record (set_multicast is_up granted dev s) { worker = at_rest }

-- What happens to the task where all work is passive.
pub data MulticastStep : Multicast → Multicast → Type 0 where
  set_list :
      (s : Multicast) (is_up granted : Bool) (dev : ℕ)
      → MulticastStep s (schedule_multicast true is_up granted dev s)
  work_begun :
      (s : Multicast) → s.pending ≡ true → s.worker ≡ at_rest → MulticastStep s (begin_work s)
  work_read : (s : Multicast) → s.worker ≡ begun → MulticastStep s (read_context s)
  work_counted :
      (s : Multicast) (dev : Option ℕ) → s.worker ≡ took dev → MulticastStep s (count_off dev s)
  work_ended :
      (s : Multicast) (is_up granted : Bool) (dev : Option ℕ)
      → s.worker ≡ setting dev
      → MulticastStep s (end_work is_up granted dev s)

abbrev pub no_multicast : Multicast
no_multicast = record {
  context = none;
  pending = false;
  callbacks = 0;
  worker = at_rest;
  calls = [];
}

pub data MulticastReach : Multicast → Type 0 where
  multicast_new : MulticastReach no_multicast
  multicast_step : {s t : Multicast} → MulticastReach s → MulticastStep s t → MulticastReach t

-- The devices for which wl_set_multicast_list was called on the way, newest first.
abbrev pub asked : {s : Multicast} → MulticastReach s → List ℕ
asked multicast_new = []
asked (multicast_step r (set_list s is_up granted dev)) = dev ∷ asked r
asked (multicast_step r (work_begun s p h)) = asked r
asked (multicast_step r (work_read s h)) = asked r
asked (multicast_step r (work_counted s dev h)) = asked r
asked (multicast_step r (work_ended s is_up granted dev h)) = asked r
