-- ===== src/Linux/Interfaces/Dangling.antt =====
-- The interface that wl_set_monitor frees (src/wl/sys/wl_linux.c).
use broadcom_bcm4312_fix.Prelude.{
  Bool-cases, [], arith, false, inl, inr, leb, none, refl, true, ℕ, ◌&&◌, ◌++◌, ◌==◌, ◌∷◌, ◌≡◌,
}
use broadcom_bcm4312_fix.Linux.Timer.{unlink}
use broadcom_bcm4312_fix.Linux.Interfaces.{
  Interfaces, add_monitor_if, schedule_monitor, wl_alloc_if, wl_set_monitor,
}

-- Where the task cannot be scheduled, wl_set_monitor leaves an interface in the list that it has
-- freed.
pub wl_set_monitor_dangles :
    (val i : ℕ) (s : Interfaces)
    → (val == 0) ≡ false
    → s.monitor_dev ≡ none
    → ((wl_set_monitor val true false i s).if_list ≡ s.if_list ++ i ∷ [])
      × ((wl_set_monitor val true false i s).allocated ≡ s.allocated)
unfolding wl_set_monitor add_monitor_if wl_alloc_if schedule_monitor unlink
wl_set_monitor_dangles val i s positive absent = elim (Bool-cases (leb 1 val && leb val 3)) [
  | inl known ↦ rw (positive, absent, known) (refl, ground arith)
  | inr unknown ↦ rw (positive, absent, unknown) (refl, ground arith)
]
