-- ===== src/Linux/Interfaces.antt =====
-- The list of interfaces and the monitor interface: wl_alloc_if, wl_free_if, wl_set_monitor,
-- _wl_add_monitor_if and _wl_del_monitor (src/wl/sys/wl_linux.c).
pub mod Dangling
use broadcom_bcm4312_fix.Prelude.{
  Bool, List, Option, [], false, if◌then◌else◌, is_none, leb, none, not, some, true, ℕ, ◌&&◌, ◌++◌,
  ◌+◌, ◌-◌, ◌==◌, ◌∷◌,
}
use broadcom_bcm4312_fix.Events.{ended}
use broadcom_bcm4312_fix.Linux.Timer.{unlink}
use broadcom_bcm4312_fix.Events.Loop.{accepted}

-- The two tasks, with the interface of the first.
pub data MonitorTask : Type 0 where
  add_monitor : ℕ → MonitorTask
  del_monitor : MonitorTask

-- The fields of struct wl_info, where interfaces are numbers, which of them are allocated, have a
-- net_device and are registered, and the tasks that were scheduled.
pub record Interfaces : Type 0 where
  pub if_list : List ℕ
  pub allocated : List ℕ
  pub with_dev : List ℕ
  pub registered : List ℕ
  pub monitor_dev : Option ℕ
  pub monitor_type : ℕ
  pub callbacks : ℕ
  pub tasks : List MonitorTask

-- A new interface goes to the end of the list; `none` is NULL.
unfoldable pub wl_alloc_if : Bool → ℕ → Interfaces → Option Interfaces
wl_alloc_if granted i s =
    if granted
    then some (record s { if_list = s.if_list ++ i ∷ []; allocated = i ∷ s.allocated })
    else none

-- The device is unregistered where it was registered, the interface is unlinked, and both are freed;
-- wl_cfg80211_detach is left out (Lifecycle).
unfoldable pub wl_free_if : ℕ → Interfaces → Interfaces
wl_free_if i s = record s {
  registered = unlink i s.registered;
  if_list = unlink i s.if_list;
  with_dev = unlink i s.with_dev;
  allocated = unlink i s.allocated;
}

-- wl_schedule_task for one of the two.
unfoldable pub schedule_monitor : Bool → MonitorTask → Interfaces → Bool × Interfaces
schedule_monitor granted task s =
    if granted
    then (true, record s { tasks = s.tasks ++ task ∷ []; callbacks = s.callbacks + 1 })
    else (false, s)

-- An unknown type is reported and the type left as it was. Without the task the interface is freed
-- and stays in the list.
unfoldable pub add_monitor_if : ℕ → Bool → Bool → ℕ → Interfaces → Interfaces
add_monitor_if val granted scheduled i s =
    let typed : Interfaces =
      if leb 1 val && leb val 3 then record s { monitor_type = val } else s in
    elim (wl_alloc_if granted i typed) [
      | none ↦ typed
      | some u ↦
          let r = schedule_monitor scheduled (add_monitor i) u in
          if r.0 then r.1 else record (r.1) { allocated = unlink i (r.1).allocated }
    ]

-- `i` is the number that a new interface has.
unfoldable pub wl_set_monitor : ℕ → Bool → Bool → ℕ → Interfaces → Interfaces
wl_set_monitor val granted scheduled i s =
    if val == 0
    then (if is_none s.monitor_dev then s else (schedule_monitor scheduled del_monitor s).1)
    else if is_none s.monitor_dev
    then add_monitor_if val granted scheduled i s
    else s

-- `granted` is whether wl_alloc_linux_if has a device, `accepted` whether register_netdev takes it.
unfoldable pub wl_add_monitor_if : Bool → Bool → ℕ → Interfaces → Interfaces
wl_add_monitor_if granted accepted i s =
    let ended : Interfaces = record s { callbacks = s.callbacks - 1 } in
    if not granted
    then ended
    else if accepted
    then record ended {
      with_dev = i ∷ s.with_dev;
      registered = i ∷ s.registered;
      monitor_dev = some i;
    }
    else record ended { with_dev = i ∷ s.with_dev; monitor_dev = none }

-- For a NULL monitor_dev, which an assertion excludes, nothing is freed here.
unfoldable pub wl_del_monitor : Interfaces → Interfaces
wl_del_monitor s = elim s.monitor_dev [
  | none ↦ record s { callbacks = s.callbacks - 1 }
  | some i ↦ record (wl_free_if i s) { monitor_dev = none; callbacks = s.callbacks - 1 }
]
