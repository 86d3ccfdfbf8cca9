-- ===== src/Linux/Power.antt =====
-- Taking a device up and down: wl_txflowcontrol, wl_up, wl_down, wl_open, wl_close, wl_suspend,
-- wl_resume and wl_remove (src/wl/sys/wl_linux.c). The device, its wl_info and the binary part are
-- there: the tests for NULL are left out, and with them wl_txflowcontrol without an interface.
pub mod Queues
pub mod Locking
pub mod Waiting
use broadcom_bcm4312_fix.Prelude.{
  Bool, List, Option, [], false, if◌then◌else◌, leb, ltb, map, none, not, some, suc, true, zero, ℕ,
  ◌%◌, ◌&&◌, ◌*◌, ◌+◌, ◌-◌, ◌^◌, ◌∷◌,
}
use broadcom_bcm4312_fix.Linux.Attach.{Device, wl_free}
use broadcom_bcm4312_fix.Iw.Monad.{is_zero}
use broadcom_bcm4312_fix.Prelude.Int.{bits32, negsuc, pos, ℤ}

-- An interface of wl->if_list: whether it has a net_device and is registed, and whether the queue
-- of that is stopped.
pub record NetIf : Type 0 where
  pub has_dev : Bool
  pub dev_registed : Bool
  pub stopped : Bool

-- wlc_up, wlc_down, wlc_ioctl for WLC_SET_MONITOR with 0, wlc_set for WLC_SET_PROMISC with
-- `dev->flags & IFF_PROMISC`, wlc_iovar_setint for "wowl_activate", wlc_wowl_wake_reason_process,
-- wlc_chipmatch, and wlc_module_unregister and wlc_detach of wl_free.
pub data PowerCall : Type 0 where
  up_call down_call monitor_off wake_reason : PowerCall
  chip_match module_unregister detach_call : PowerCall
  promisc_call : Bool → PowerCall
  wowl_activate : ℕ → PowerCall

-- What happens to the device in its order: the lock is taken and released, the binary part is
-- called, a wait for callbacks takes so many rounds, si_pci_sleep, si_pci_pmeclr, and the calls of
-- cfg80211.
pub data PowerEvent : Type 0 where
  lock_taken lock_freed pci_sleep pci_pmeclr cfg_up cfg_down : PowerEvent
  called : PowerCall → PowerEvent
  waited : ℕ → PowerEvent

-- `up`, `hw_up`, `_ol` and `_wowl_active` of wl->pub, wl->if_list, whether there is a monitor
-- device, the count of callbacks, and the events, newest first.
pub record Power : Type 0 where
  pub is_up : Bool
  pub hw_up : Bool
  pub offload : Bool
  pub wowl_active : Bool
  pub ifs : List NetIf
  pub has_monitor : Bool
  pub callbacks : ℕ
  pub events : List PowerEvent

-- A call of the binary part answers its status, the new wl->pub->up and the new count of callbacks;
-- `reads` is the count at each test of a wait; `passive` is WL_ALL_PASSIVE_ENAB, `pci` whether the
-- bus is PCI, and `cfg_fails` what wl_cfg80211_up answers.
pub record PowerGlue : Type 0 where
  pub answer : List PowerEvent → PowerCall → ℤ × (Bool × ℕ)
  pub reads : List PowerEvent → ℕ → ℕ
  pub passive : Bool
  pub pci : Bool
  pub cfg_fails : List PowerEvent → Bool

abbrev pub happen : PowerEvent → Power → Power
happen e s = record s { events = e ∷ s.events }

-- ON is true.
unfoldable pub wl_txflowcontrol : Bool → NetIf → NetIf
wl_txflowcontrol on i = if i.dev_registed then record i { stopped = on } else i

-- The queue of a net_device is stopped, registed or not.
unfoldable pub stop_queue : NetIf → NetIf
stop_queue i = if i.has_dev then record i { stopped = true } else i

-- The rounds of `while (callbacks > target && rounds are left)`, where `k` have been made.
unfoldable pub wait_rounds : (ℕ → ℕ) → ℕ → ℕ → ℕ → ℕ
wait_rounds read target zero k = k
wait_rounds read target (suc n) k =
    let rest = wait_rounds read target n (suc k) in if ltb target (read k) then rest else k

-- SPINWAIT: the loop on `countdown`, by fuel.
unfoldable pub spin_loop : (ℕ → ℕ) → ℕ → ℕ → ℕ → ℕ → Option ℕ
spin_loop read target zero countdown k = none
spin_loop read target (suc fuel) countdown k =
    let rest = spin_loop read target fuel (countdown - 10) (suc k) in
    if ltb target (read k) && leb 10 countdown then rest else some k

unfoldable pub spinwait : (ℕ → ℕ) → ℕ → ℕ → Option ℕ
spinwait read target us = spin_loop read target (us + 10) (us + 9) 0

module _ (g : PowerGlue) where
  unfoldable pub power_call : PowerCall → Power → ℤ × Power
  power_call c s =
      let a = g.answer s.events c in
      (a.0, record s { is_up = (a.1).0; callbacks = (a.1).1; events = called c ∷ s.events })

  unfoldable pub wl_up : Power → ℤ × Power
  wl_up s =
      if s.is_up
      then (pos 0, s)
      else (let r = power_call up_call s in
          if is_zero (r.0)
          then (r.0, record (r.1) { ifs = map (wl_txflowcontrol false) ((r.1).ifs) })
          else r)

  -- The rounds of the wait; both ways compare unsigned words.
  unfoldable pub down_rounds : ℕ → Power → Option ℕ
  down_rounds target s =
      if g.passive
      then some (wait_rounds (g.reads s.events) target 10000 0)
      else spinwait (g.reads s.events) target (100 * 1000)

  -- The wait with the lock free, at the end of which the count is what was read last.
  unfoldable pub wait_callbacks : ℕ → Power → Power
  wait_callbacks target s =
      let t = happen lock_freed s in
      elim (down_rounds target t) [
        | none ↦ t
        | some r ↦
            happen lock_taken (record (happen (waited r) t) { callbacks = g.reads t.events r })
      ]

  -- netif_down is empty for the kernels that the driver is built for.
  unfoldable pub wl_down : Power → Power
  wl_down s =
      let q : Power = record s { ifs = map stop_queue s.ifs } in
      let m = if q.has_monitor then (power_call monitor_off q).1 else q in
      let d = power_call down_call m in
      wait_callbacks (((d.1).callbacks + 2 ^ 32 - bits32 (d.0)) % 2 ^ 32) (d.1)

  -- `promisc` is IFF_PROMISC of the device's flags. -ENODEV is -19.
  unfoldable pub wl_open : Bool → Power → ℤ × Power
  wl_open promisc s =
      let u = wl_up (happen lock_taken s) in
      let p = if is_zero (u.0) then power_call (promisc_call promisc) (u.1) else u in
      let c = happen cfg_up (happen lock_freed (p.1)) in
      if g.cfg_fails (happen lock_freed (p.1)).events
      then (negsuc 0, c)
      else (if is_zero (p.0) then pos 0 else negsuc 18, c)

  unfoldable pub wl_close : Power → ℤ × Power
  wl_close s =
      let t = happen lock_taken (happen cfg_down s) in
      (pos 0, happen lock_freed (elim (t.ifs) [ [] ↦ wl_down t | _ ∷ _ ↦ t ]))

  unfoldable pub suspend_locked : Power → Power
  suspend_locked s =
      let w = power_call (wowl_activate 1) s in
      if not s.offload
      then record (wl_down s) { hw_up = false }
      else if is_zero (w.0)
      then w.1
      else record (wl_down (w.1)) { hw_up = false }

  unfoldable pub wl_suspend : Power → ℤ × Power
  wl_suspend s =
      let t = happen lock_freed (suspend_locked (happen lock_taken s)) in
      (pos 0, if g.pci then happen pci_sleep t else t)

  -- WOWL_ACTIVE is read after the two calls, which answer nothing that is used.
  unfoldable pub resume_offload : Power → Power
  resume_offload s =
      if s.offload
      then (let w = (power_call wake_reason ((power_call (wowl_activate 0) s).1)).1 in
          if w.wowl_active && g.pci then happen pci_pmeclr w else w)
      else s

  unfoldable pub wl_resume : Power → ℤ × Power
  wl_resume s =
      let u = wl_up (happen lock_taken (resume_offload s)) in (u.0, happen lock_freed (u.1))

  -- wl_free, which takes no lock: its calls of the binary part, and what is given back (Attach).
  unfoldable pub free_calls : Power → Power
  free_calls s = (power_call detach_call ((power_call module_unregister s).1)).1

  -- wlc_chipmatch answers 0 for a chip that is not of the vendor's.
  unfoldable pub wl_remove : Power → Device → Power × Option Device
  wl_remove s h =
      let m = power_call chip_match s in
      if is_zero (m.0) then (m.1, some h) else (
        free_calls (happen lock_freed (wl_down (happen lock_taken (m.1)))),
        elim (wl_free h) [ none ↦ none | some t ↦ some (record t { enabled = false }) ],
      )
