-- ===== src/Linux/Rfkill.antt =====
-- The radio switch that the kernel shows: wl_init_rfkill, wl_uninit_rfkill, wl_report_radio_state and
-- the radio event of wl_event (src/wl/sys/wl_linux.c), with WL_CONFIG_RFKILL.
pub mod Lifetime
use broadcom_bcm4312_fix.Prelude.{
  Bool, Option, bit_and, false, if◌then◌else◌, none, not, some, true, ℕ, ◌==◌,
}
use broadcom_bcm4312_fix.Prelude.Int.{is_negative, negsuc, pos, ℤ}

-- The kernel's object.
pub data Switch : Type 0 where
  absent allocated listed destroyed : Switch

-- The object, whether wl_rfkill.rfkill points to it (it is NULL else), `registered`, its two states
-- in the kernel, and `last_phyind`.
pub record Rfkill : Type 0 where
  pub object : Switch
  pub has_pointer : Bool
  pub registered : Bool
  pub sw_state : Bool
  pub hw_state : Bool
  pub last_phyind : ℕ

-- WL_RADIO_HW_DISABLE
abbrev pub radio_hw_disable : ℕ
radio_hw_disable = 2

-- The arguments: whether rfkill_alloc has room, what WLC_GET_RADIO answers, whether
-- rfkill_register accepts. -ENOMEM is -12.
unfoldable pub wl_init_rfkill : Bool → ℤ × ℕ → Bool → Rfkill → ℤ × Rfkill
wl_init_rfkill room radio accepts s =
    if not room
    then (negsuc 11, record s { has_pointer = false })
    else (let a : Rfkill = record s { object = allocated; has_pointer = true } in
        if is_negative (radio.0)
        then (pos 1, a)
        else (let i : Rfkill = record a { sw_state = not (radio.1 == 0) } in
            if not accepts
            then (pos 2, record i { object = destroyed })
            else (pos 0, record i { object = listed; registered = true })))

unfoldable pub wl_uninit_rfkill : Rfkill → Rfkill
wl_uninit_rfkill s =
    if s.registered
    then record s { object = destroyed; registered = false; has_pointer = false }
    else s

-- rfkill_set_hw_state of the kernel needs an object: `none` without one.
unfoldable pub set_hw_state : Bool → Rfkill → Option Rfkill
set_hw_state blocked s =
    if s.has_pointer
    then elim s.object [
      | allocated ↦ some (record s { hw_state = blocked })
      | listed ↦ some (record s { hw_state = blocked })
      | _ ↦ none
    ]
    else none

unfoldable pub wl_report_radio_state : Rfkill → Option Rfkill
wl_report_radio_state s = set_hw_state (not (s.last_phyind == 0)) s

-- WLC_E_RADIO of wl_event; `i` is what the variable holds behind WLC_GET_RADIO, whose failure is
-- only reported.
unfoldable pub radio_event : ℕ → Rfkill → Option Rfkill
radio_event i s =
    if s.last_phyind == bit_and i radio_hw_disable
    then some s
    else wl_report_radio_state (record s { last_phyind = bit_and i radio_hw_disable })

-- What wl_event does behind the handler of the control interface; a change of the link is only
-- reported.
pub data GlueEvent : Type 0 where
  link_changed other_glue_event : GlueEvent
  radio_changed : ℕ → GlueEvent

unfoldable pub wl_event : GlueEvent → Rfkill → Option Rfkill
wl_event link_changed s = some s
wl_event (radio_changed i) s = radio_event i s
wl_event other_glue_event s = some s
