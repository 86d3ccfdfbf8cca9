-- ===== src/Linux/Interrupts/Deferred.antt =====
-- The assertions of the interrupt handler and the count of callbacks (src/wl/sys/wl_linux.c).
use broadcom_bcm4312_fix.Prelude.{
  Bool, Bool-cases, Option, ap, arith, false, if◌then◌else◌, inl, inr, none, refl, some, true, ◌&&◌,
  ◌||◌, ◌≡◌, ◌⊎◌,
}
use broadcom_bcm4312_fix.Linux.Interrupts.{
  Dpc, DpcReach, DpcStep, deferred, dpc_called, dpc_done, dpc_new, dpc_step, go_down, go_up,
  idle_dpc, interrupt, reset, schedule_dpc, wl_dpc, wl_isr, wl_reset,
}
use broadcom_bcm4312_fix.Pmk.Removal.{live}

-- The count is 1 while a call is scheduled as work, and 0 otherwise.
abbrev pub IsCounted : Bool → Dpc → Type 0
IsCounted passive s = s.callbacks ≡ (if passive && s.scheduled then 1 else 0)

-- With interrupts on, no call is scheduled and none is due again.
abbrev pub IsQuiet : Bool → Dpc → Type 0
IsQuiet passive s =
    ((s.interrupts ≡ false) ⊎ ((s.scheduled ≡ false) × (s.resched ≡ false))) × IsCounted passive s

-- The count, where the kernel still runs.
abbrev pub Counts : Bool → Option Dpc → Type 0
Counts passive none = Unit
Counts passive (some s) = IsCounted passive s

-- Whether the device once came up while a call was scheduled still.
abbrev pub came_up_late : {passive : Bool} {s : Dpc} {t : Option Dpc} → DpcStep passive s t → Bool
came_up_late (interrupt s wantdpc on) = false
came_up_late (deferred s still_up again busy) = false
came_up_late (go_down s) = false
came_up_late (go_up s) = s.scheduled
came_up_late (reset s) = false

abbrev pub came_late : {passive : Bool} {s : Option Dpc} → DpcReach passive s → Bool
came_late dpc_new = false
came_late (dpc_step r st) = came_late r || came_up_late st

abbrev pub Continues : Bool → Option Dpc → Type 0
Continues passive none = ⊥
Continues passive (some s) = IsQuiet passive s

isr-Continues :
    (passive wantdpc : Bool) (s : Dpc)
    → s.interrupts ≡ true
    → IsQuiet passive s
    → Continues passive (wl_isr passive wantdpc s)
unfolding wl_isr schedule_dpc
isr-Continues passive false s on h = h
isr-Continues passive true s on (inl off, count) = absurd (cc)
isr-Continues true true s on (inr (free, calm), count) =
    rw (calm, free) (inl refl, ground (arith, count, free))
isr-Continues false true s on (inr (free, calm), count) = rw calm (inl refl, count)

-- The call that was taken counts no longer as scheduled.
taken_count :
    (passive : Bool) (s : Dpc)
    → s.scheduled ≡ true
    → s.callbacks ≡ (if passive && s.scheduled then 1 else 0)
    → s.callbacks ≡ (if passive then 1 else 0)
taken_count true s busy count = ground (arith, count, busy)
taken_count false s busy count = count

called-Continues :
    (passive still_up again : Bool) (s : Dpc)
    → s.is_up ≡ true
    → s.interrupts ≡ false
    → s.callbacks ≡ (if passive then 1 else 0)
    → Continues passive (wl_dpc passive still_up again (record s { scheduled = false }))
unfolding wl_dpc dpc_called dpc_done schedule_dpc
called-Continues true true true s live off count = rw live (inl off, count)
called-Continues true true false s live off count = rw live (inr (refl, refl), omega (arith, count))
called-Continues true false again s live off count = rw live (inl off, omega (arith, count))
called-Continues false true true s live off count = rw live (inl off, count)
called-Continues false true false s live off count = rw live (inr (refl, refl), count)
called-Continues false false again s live off count = rw live (inl off, count)

down-Continues :
    (passive still_up again : Bool) (s : Dpc)
    → s.is_up ≡ false
    → s.interrupts ≡ false
    → s.callbacks ≡ (if passive then 1 else 0)
    → Continues passive (wl_dpc passive still_up again (record s { scheduled = false }))
unfolding wl_dpc dpc_called dpc_done
down-Continues true still_up again s dead off count = rw dead (inl off, omega (arith, count))
down-Continues false still_up again s dead off count = rw dead (inl off, count)

dpc-Continues :
    (passive still_up again : Bool) (s : Dpc)
    → s.scheduled ≡ true
    → IsQuiet passive s
    → Continues passive (wl_dpc passive still_up again (record s { scheduled = false }))
dpc-Continues passive still_up again s busy (inr (free, calm), count) = absurd (cc)
dpc-Continues passive still_up again s busy (inl off, count) =
    let one = taken_count passive s busy count in
    elim (Bool-cases s.is_up) [
      | inl live ↦ called-Continues passive still_up again s live off one
      | inr dead ↦ down-Continues passive still_up again s dead off one
    ]

isr-Counts :
    (passive wantdpc : Bool) (s : Dpc)
    → IsCounted passive s
    → Counts passive (wl_isr passive wantdpc s)
unfolding wl_isr schedule_dpc
isr-Counts true false s count = count
isr-Counts false wantdpc s count = ground (arith, count)
isr-Counts true true s count = ground (arith, count)

dpc-Counts :
    (passive still_up again : Bool) (s : Dpc)
    → s.scheduled ≡ true
    → IsCounted passive s
    → Counts passive (wl_dpc passive still_up again (record s { scheduled = false }))
unfolding wl_dpc dpc_called dpc_done schedule_dpc
dpc-Counts passive still_up again s busy count =
    let one = taken_count passive s busy count in ground (arith, one)

DpcStep-Counts :
    {passive : Bool} {s : Dpc} {t : Option Dpc}
    → DpcStep passive s t
    → IsCounted passive s
    → Counts passive t
unfolding wl_reset
DpcStep-Counts (interrupt s wantdpc on) h = isr-Counts _ wantdpc s h
DpcStep-Counts (deferred s still_up again busy) h = dpc-Counts _ still_up again s busy h
DpcStep-Counts (go_down s) h = h
DpcStep-Counts (go_up s) h = h
DpcStep-Counts (reset s) h = h

DpcStep-Continues :
    {passive : Bool} {s : Dpc} {t : Option Dpc} (st : DpcStep passive s t)
    → IsQuiet passive s
    → (came_up_late st ≡ true) ⊎ Continues passive t
unfolding wl_reset
DpcStep-Continues (interrupt s wantdpc on) h = inr (isr-Continues _ wantdpc s on h)
DpcStep-Continues (deferred s still_up again busy) h = inr (dpc-Continues _ still_up again s busy h)
DpcStep-Continues (go_down s) (quiet, count) = inr (inl refl, count)
DpcStep-Continues (go_up s) (quiet, count) = elim (Bool-cases s.scheduled) [
  | inl busy ↦ inl busy
  | inr free ↦ inr (inr (free, refl), count)
]
DpcStep-Continues (reset s) (inl off, count) = inr (inl off, count)
DpcStep-Continues (reset s) (inr (free, calm), count) = inr (inr (free, refl), count)

idle_dpc-IsQuiet : (passive : Bool) → IsQuiet passive idle_dpc
idle_dpc-IsQuiet true = (inl refl, refl)
idle_dpc-IsQuiet false = (inl refl, refl)

DpcReach-Counts : {passive : Bool} {s : Option Dpc} → DpcReach passive s → Counts passive s
DpcReach-Counts dpc_new = (idle_dpc-IsQuiet _).1
DpcReach-Counts (dpc_step r st) = DpcStep-Counts st (DpcReach-Counts r)

-- What a step adds to whether the device came up late.
later : {P : Type 0} (before now : Bool) → (now ≡ true) ⊎ P → ((before || now) ≡ true) ⊎ P
later true now _ = inl refl
later false now (inl late) = inl late
later false now (inr quiet) = inr quiet

Reach-Continues :
    {passive : Bool} {s : Option Dpc} (r : DpcReach passive s)
    → (came_late r ≡ true) ⊎ Continues passive s
Reach-Continues dpc_new = inr (idle_dpc-IsQuiet _)
Reach-Continues (dpc_step r st) = elim (Reach-Continues r) [
  | inl late ↦ inl (ap (λ b. b || came_up_late st) late)
  | inr quiet ↦ later (came_late r) (came_up_late st) (DpcStep-Continues st quiet)
]

-- However interrupts, deferred calls, resets and the device's way up and down are interleaved, the
-- count of callbacks is 1 while the deferred call is scheduled as work and 0 otherwise, until an
-- assertion fails. As long as the device never came up while a deferred call was scheduled still, no
-- assertion of wl_isr and wl_dpc fails, and no call is scheduled or due again while the interrupts
-- are on.
pub DpcReach-Continues :
    {passive : Bool} {s : Option Dpc} (r : DpcReach passive s)
    → Counts passive s × ((came_late r ≡ true) ⊎ Continues passive s)
DpcReach-Continues r = (DpcReach-Counts r, Reach-Continues r)
