-- ===== src/Linux/Rfkill/Lifetime.antt =====
-- The life of the radio switch (src/wl/sys/wl_linux.c).
use broadcom_bcm4312_fix.Prelude.{
  Bool, Option, arith, bit_and, false, if◌then◌else◌, inl, inr, none, not, refl, some, true, ℕ,
  ◌==◌, ◌≡◌, ◌⊎◌,
}
use broadcom_bcm4312_fix.Linux.Rfkill.{
  Rfkill, Switch, absent, allocated, destroyed, radio_event, radio_hw_disable, set_hw_state,
  wl_init_rfkill, wl_report_radio_state, wl_uninit_rfkill,
}
use broadcom_bcm4312_fix.Linux.Requests.Checksum.{next_bit}
use broadcom_bcm4312_fix.Prelude.Int.{is_negative, negsuc, pos, ℤ}

-- bzero of wl_info.
abbrev pub no_switch : Rfkill
no_switch = record {
  object = absent;
  has_pointer = false;
  registered = false;
  sw_state = false;
  hw_state = false;
  last_phyind = 0;
}

-- What wl_init_rfkill comes to: no room, no answer about the radio, refused by the kernel, shown.
pub data Outcome : Type 0 where
  no_room no_radio refused shown : Outcome

abbrev pub outcome : Bool → ℤ × ℕ → Bool → Outcome
outcome room radio accepts =
    if not room
    then no_room
    else if is_negative (radio.0)
    then no_radio
    else if accepts
    then shown
    else refused

abbrev pub status_of : Outcome → ℤ
status_of no_room = negsuc 11
status_of no_radio = pos 1
status_of refused = pos 2
status_of shown = pos 0

-- The object behind wl_uninit_rfkill, and whether the state can be reported before it.
abbrev pub object_left : Outcome → Switch
object_left no_room = absent
object_left no_radio = allocated
object_left refused = destroyed
object_left shown = destroyed

abbrev pub reportable : Outcome → Bool
reportable no_room = false
reportable no_radio = true
reportable refused = false
reportable shown = true

two_digit : (i : ℕ) → (bit_and i radio_hw_disable ≡ 0) ⊎ (bit_and i radio_hw_disable ≡ 2)
two_digit i = ground (arith, next_bit i)

-- A second event behind the first.
abbrev pub and_then : Option Rfkill → ℕ → Option Rfkill
and_then none j = none
and_then (some s) j = radio_event j s

-- The event behind each way out of wl_init_rfkill.
abbrev pub Reported : Outcome → ℕ → Rfkill → Type 0
Reported o i s = radio_event i s ≡ (
    if bit_and i radio_hw_disable == 0
    then some s
    else if reportable o
    then some (record s { hw_state = true; last_phyind = 2 })
    else none)

-- wl_init_rfkill on a fresh wl_info answers by how far it comes. wl_uninit_rfkill then leaves no
-- object of the kernel's but where the radio could not be asked: there it stays allocated. For
-- every word that WLC_GET_RADIO answers to a radio event, whatever its other bits: where the
-- bit for the hardware is set the state is given to a live object when the switch is shown or the
-- radio could not be asked, and to no object without room or when the kernel refused the switch;
-- where the bit is clear nothing happens. When the bit is cleared again behind a report, the
-- object is told so and all is as before it.
pub rfkill_outcomes :
    (room accepts : Bool) (radio : ℤ × ℕ) (i j : ℕ)
    → bit_and j radio_hw_disable ≡ 0
    → let o = outcome room radio accepts in
      let s = (wl_init_rfkill room radio accepts no_switch).1 in
      ((wl_init_rfkill room radio accepts no_switch).0 ≡ status_of o)
      × ((wl_uninit_rfkill s).object ≡ object_left o)
      × Reported o i s
      × (and_then (radio_event i s) j ≡ (
          if bit_and i radio_hw_disable == 0
          then some s
          else if reportable o
          then some s
          else none))
unfolding wl_init_rfkill wl_uninit_rfkill radio_event wl_report_radio_state set_hw_state
rfkill_outcomes false accepts radio i j h = elim (two_digit i) [
  | inl e ↦ rw (e, h) (refl, refl, refl, refl)
  | inr e ↦ rw e (refl, refl, refl, refl)
]
rfkill_outcomes true accepts (negsuc n, v) i j h = elim (two_digit i) [
  | inl e ↦ rw (e, h) (refl, refl, refl, refl)
  | inr e ↦ rw (e, h) (refl, refl, refl, refl)
]
rfkill_outcomes true false (pos n, v) i j h = elim (two_digit i) [
  | inl e ↦ rw (e, h) (refl, refl, refl, refl)
  | inr e ↦ rw e (refl, refl, refl, refl)
]
rfkill_outcomes true true (pos n, v) i j h = elim (two_digit i) [
  | inl e ↦ rw (e, h) (refl, refl, refl, refl)
  | inr e ↦ rw (e, h) (refl, refl, refl, refl)
]
