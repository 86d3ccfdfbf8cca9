-- ===== src/Linux/Interrupts.antt =====
-- Interrupts: wl_isr, wl_dpc with wl_dpc_rxwork, and wl_reset (src/wl/sys/wl_linux.c). The calls of
-- the binary part come with what they leave: wlc_isr turns the interrupts off where it wants the
-- deferred call. Assertions stop the kernel: `none`.
pub mod Deferred
use broadcom_bcm4312_fix.Prelude.{
  Bool, Option, false, if◌then◌else◌, none, not, some, true, ℕ, ◌+◌, ◌-◌, ◌||◌, ◌≡◌,
}

-- pub->up, the fields of struct wl_info, whether the work or the tasklet is scheduled, and whether
-- the device's interrupts are on.
pub record Dpc : Type 0 where
  pub is_up : Bool
  pub resched : Bool
  pub callbacks : ℕ
  pub scheduled : Bool
  pub interrupts : Bool

-- schedule_work, which fails for work that is scheduled already.
unfoldable pub schedule_dpc : Dpc → Bool × Dpc
schedule_dpc s = (not s.scheduled, record s { scheduled = true })

-- For an interrupt of the device; `wantdpc` is what wlc_isr answers.
unfoldable pub wl_isr : Bool → Bool → Dpc → Option Dpc
wl_isr passive wantdpc s =
    if not wantdpc
    then some s
    else if s.resched
    then none
    else (let r = schedule_dpc (record s { interrupts = false }) in
        if not passive
        then some (r.1)
        else if r.0
        then some (record (r.1) { callbacks = (r.1).callbacks + 1 })
        else none)

-- The first part: wlc_dpc answers `again`, and `still_up` is pub->up behind it.
unfoldable pub dpc_called : Bool → Bool → Dpc → Dpc
dpc_called still_up again s = if s.is_up then record s { is_up = still_up; resched = again } else s

unfoldable pub dpc_done : Bool → Dpc → Dpc
dpc_done passive s = if passive then record s { callbacks = s.callbacks - 1 } else s

unfoldable pub wl_dpc : Bool → Bool → Bool → Dpc → Option Dpc
wl_dpc passive still_up again s =
    let t = dpc_called still_up again s in
    if not t.is_up
    then some (dpc_done passive t)
    else if t.resched
    then (let r = schedule_dpc t in if not passive || r.0 then some (r.1) else none)
    else some (record (dpc_done passive t) { interrupts = true })

-- wlc_intrsrestore brings back what wl_intrsoff found.
unfoldable pub wl_reset : Dpc → Dpc
wl_reset s = record s { resched = false }

abbrev pub idle_dpc : Dpc
idle_dpc = record {
  is_up = false;
  resched = false;
  callbacks = 0;
  scheduled = false;
  interrupts = false;
}

-- An interrupt comes while interrupts are on; a scheduled call is taken and runs under the lock.
-- The binary part takes the device down with its interrupts off, and up behind wl_reset with its
-- interrupts on, whether or not a call is scheduled still.
pub data DpcStep (passive : Bool) : Dpc → Option Dpc → Type 0 where
  interrupt :
      (s : Dpc) (wantdpc : Bool)
      → s.interrupts ≡ true
      → DpcStep passive s (wl_isr passive wantdpc s)
  deferred :
      (s : Dpc) (still_up again : Bool)
      → s.scheduled ≡ true
      → DpcStep passive s (wl_dpc passive still_up again (record s { scheduled = false }))
  go_down : (s : Dpc) → DpcStep passive s (some (record s { is_up = false; interrupts = false }))
  go_up :
      (s : Dpc) → DpcStep passive s (some (record (wl_reset s) { is_up = true; interrupts = true }))
  reset : (s : Dpc) → DpcStep passive s (some (wl_reset s))

pub data DpcReach (passive : Bool) : Option Dpc → Type 0 where
  dpc_new : DpcReach passive (some idle_dpc)
  dpc_step :
      {s : Dpc} {t : Option Dpc}
      → DpcReach passive (some s)
      → DpcStep passive s t
      → DpcReach passive t
