-- ===== src/Linux/Power/Locking.antt =====
-- The lock while a device is taken up and down (src/wl/sys/wl_linux.c).
use broadcom_bcm4312_fix.Prelude.{Bool, List, Option, [], false, none, some, true, ◌∷◌, ◌≡◌}
use broadcom_bcm4312_fix.Linux.Power.{
  Power, PowerEvent, called, cfg_down, cfg_up, lock_freed, lock_taken, pci_pmeclr, pci_sleep,
  waited,
}

-- Whether the lock is held behind a run of events, where it was free before. `none`: a lock was
-- taken that was held or freed that was free, something else than a call of a wlc_ function was done
-- under it, or, where `strict`, a wlc_ function was called without it.
abbrev pub take_lock : Option Bool → Option Bool
take_lock (some false) = some true
take_lock _ = none

abbrev pub free_lock : Option Bool → Option Bool
free_lock (some true) = some false
free_lock _ = none

abbrev pub under_lock : Bool → Option Bool → Option Bool
under_lock false o = o
under_lock true (some true) = some true
under_lock true _ = none

abbrev pub without_lock : Option Bool → Option Bool
without_lock (some false) = some false
without_lock _ = none

abbrev pub lock_state : Bool → List PowerEvent → Option Bool
lock_state strict [] = some false
lock_state strict (lock_taken ∷ es) = take_lock (lock_state strict es)
lock_state strict (lock_freed ∷ es) = free_lock (lock_state strict es)
lock_state strict (called c ∷ es) = under_lock strict (lock_state strict es)
lock_state strict (pci_sleep ∷ es) = without_lock (lock_state strict es)
lock_state strict (pci_pmeclr ∷ es) = without_lock (lock_state strict es)
lock_state strict (cfg_up ∷ es) = without_lock (lock_state strict es)
lock_state strict (cfg_down ∷ es) = without_lock (lock_state strict es)
lock_state strict (waited r ∷ es) = without_lock (lock_state strict es)

abbrev pub LockFree : Bool → Power → Type 0
LockFree strict s = lock_state strict s.events ≡ some false

abbrev LockHeld : Bool → Power → Type 0
LockHeld strict s = lock_state strict s.events ≡ some true
