-- ===== src/Linux/Attach/Released.antt =====
-- What is held behind wl_pci_probe and wl_free (src/wl/sys/wl_linux.c).
use broadcom_bcm4312_fix.Prelude.{
  Bool, Option, [], arith, false, if◌then◌else◌, inl, inr, none, not, refl, some, subst, sym, true,
  ◌&&◌, ◌≡◌, ◌≢◌, ◌⊎◌,
}
use broadcom_bcm4312_fix.Lifecycle.{
  Held, nothing, wl_cfg80211_attach, wl_cfg80211_detach, wl_deinit_cfg80211_priv,
  wl_deinit_priv_mem, wl_destroy_event_handler, wl_free_wdev,
}
use broadcom_bcm4312_fix.Link.{no_ies}
use broadcom_bcm4312_fix.Headers.{Status, enomem, fail, ok}
use broadcom_bcm4312_fix.State.{is_ok}
use broadcom_bcm4312_fix.Events.{wl_flush_eq}
use broadcom_bcm4312_fix.Linux.Rfkill.{Rfkill, wl_init_rfkill, wl_uninit_rfkill}
use broadcom_bcm4312_fix.Linux.Attach.{
  Answers, Device, attach_cfg, attach_fails, attach_netdev, attach_wlc, free_rest, wl_attach,
  wl_free, free_if, wl_pci_probe,
}
use broadcom_bcm4312_fix.Linux.Rfkill.Lifetime.{no_switch}
use broadcom_bcm4312_fix.Lifecycle.Resources.{
  everything, leaked, nothing_but, wl_cfg80211_attach_cases,
}

abbrev pub no_device : Device
no_device = record {
  osl_held = false;
  wl_info = false;
  wlif_held = false;
  net_device = false;
  regs = false;
  bar1 = false;
  bar1_stored = false;
  wlc = false;
  irq = false;
  cfg80211 = nothing;
  rfkill = no_switch;
  dev_registed = false;
  watchdog = false;
  proc_entry = false;
  enabled = false;
}

-- What is held when wl_cfg80211_attach is called, and at the end.
abbrev pub before_cfg : Bool → Device
before_cfg mapped = record {
  osl_held = true;
  wl_info = true;
  wlif_held = true;
  net_device = true;
  regs = true;
  bar1 = mapped;
  bar1_stored = true;
  wlc = true;
  irq = true;
  cfg80211 = nothing;
  rfkill = no_switch;
  dev_registed = false;
  watchdog = false;
  proc_entry = false;
  enabled = true;
}

abbrev pub whole_device : Bool → Rfkill → Device
whole_device mapped switch = record (before_cfg mapped) {
  cfg80211 = everything;
  rfkill = switch;
  dev_registed = true;
  watchdog = true;
  proc_entry = true;
}

-- Whether wl_attach has its net_device, comes to store the mapping, and calls wl_cfg80211_attach.
abbrev pub comes_to_dev : Answers → Bool
comes_to_dev g = g.unit_allowed && g.has_wl && g.has_wlif

abbrev pub comes_to_store : Answers → Bool
comes_to_store g = comes_to_dev g && g.has_dev && g.has_regs

abbrev pub comes_to_cfg : Answers → Bool
comes_to_cfg g = comes_to_store g && g.wlc_attached && g.has_irq && g.pci

abbrev pub left_over : Bool → Answers → Device
left_over mapped g = record no_device {
  enabled = true;
  bar1 = mapped && not (comes_to_store g);
  wlif_held = comes_to_dev g && not g.has_dev;
}

-- The radio switch where a registered device comes to have it.
abbrev pub switch_of : Answers → Rfkill
switch_of g = (wl_init_rfkill g.rfkill_room g.radio g.rfkill_accepts no_switch).1

-- What is left behind wl_cfg80211_attach, by its answer and what it holds then.
abbrev pub outcome : Bool → Answers → Status × Held → Option (Bool × Device)
outcome mapped g r =
    if not (is_ok (r.0))
    then (if (r.1).ieee80211_ptr then none else some (false, record no_device { enabled = true }))
    else if not g.dev_accepted
    then some (false, record no_device { enabled = true })
    else if not g.watchdog_accepted
    then some (false, record no_device { enabled = true; rfkill = wl_uninit_rfkill (switch_of g) })
    else some (true, whole_device mapped (switch_of g))

abbrev behind_cfg : Bool → Answers → Status × Held → Option (Bool × Device)
behind_cfg mapped g r =
    let t : Device = record (before_cfg mapped) { cfg80211 = r.1 } in
    if is_ok (r.0) then attach_netdev g t else attach_fails t

all_attached :
    (mapped : Bool) (g : Answers)
    → behind_cfg mapped g (ok, everything) ≡ outcome mapped g (ok, everything)
unfolding attach_netdev attach_fails wl_free free_if free_rest wl_cfg80211_detach wl_free_wdev
    wl_deinit_cfg80211_priv wl_destroy_event_handler wl_deinit_priv_mem wl_flush_eq wl_uninit_rfkill
all_attached mapped g = ground arith

refused :
    (mapped : Bool) (g : Answers) (err : Status) (held : Held)
    → is_ok err ≡ false
    → (held ≡ nothing) ⊎ (held ≡ nothing_but true) ⊎ (held ≡ leaked)
    → behind_cfg mapped g (err, held) ≡ outcome mapped g (err, held)
unfolding attach_fails wl_free free_if free_rest wl_cfg80211_detach wl_uninit_rfkill
refused mapped g err held bad (inl e) = rw (bad, e) (ground arith)
refused mapped g err held bad (inr (inl e)) = rw (bad, e) (ground arith)
refused mapped g err held bad (inr (inr e)) = rw (bad, e) (ground arith)

not_ok : (err : Status) → err ≢ ok → is_ok err ≡ false
not_ok err bad = ground (arith, bad)

behind_cfg-outcome :
    (mapped : Bool) (g : Answers)
    → behind_cfg mapped g (wl_cfg80211_attach true g.cfg_grants nothing)
      ≡ outcome mapped g (wl_cfg80211_attach true g.cfg_grants nothing)
behind_cfg-outcome mapped g =
    let c = wl_cfg80211_attach true g.cfg_grants nothing in
    elim (wl_cfg80211_attach_cases true g.cfg_grants [] no_ies) [
      | inl (e, gone) ↦
          subst (λ r. behind_cfg mapped g r ≡ outcome mapped g r) (sym e) (all_attached mapped g)
      | inr (inl (bad, e, gone)) ↦ refused mapped g (c.0) (c.1) (not_ok (c.0) bad) (inl e)
      | inr (inr (inl (bad, e, gone))) ↦
          refused mapped g (c.0) (c.1) (not_ok (c.0) bad) (inr (inl e))
      | inr (inr (inr (thread, e, gone))) ↦
          subst (λ r. behind_cfg mapped g r ≡ outcome mapped g r) (sym e)
            (refused mapped g (fail enomem) leaked refl (inr (inr refl)))
    ]

freed :
    (mapped : Bool) (switch : Rfkill)
    → wl_free (whole_device mapped switch)
      ≡ some (record no_device { enabled = true; rfkill = wl_uninit_rfkill switch })
unfolding wl_free free_if free_rest wl_cfg80211_detach wl_free_wdev wl_deinit_cfg80211_priv
    wl_destroy_event_handler wl_deinit_priv_mem wl_flush_eq
freed mapped switch = ground arith

-- What wl_pci_probe leaves of a device that can be enabled. Where a call before wl_cfg80211_attach
-- fails, the device stays enabled, the mapping of the second base address stays where wl_attach does
-- not come to store it, the interface stays where there is no net_device for it, and nothing else is
-- held. Where wl_cfg80211_attach fails with the net_device's pointer set, wl_free reads freed memory;
-- with the pointer NULL, and where register_netdev or the watchdog is refused, only the device stays
-- enabled, and in the last case the radio switch is as wl_uninit_rfkill leaves it. Otherwise all is
-- held, whatever became of the second mapping and the radio switch, and a wl_free then leaves the
-- enabled device alone, and the switch as wl_uninit_rfkill leaves it.
pub wl_pci_probe_holds :
    (mapped : Bool) (g : Answers)
    → (wl_pci_probe true mapped g no_device ≡ (
        if comes_to_cfg g
        then outcome mapped g (wl_cfg80211_attach true g.cfg_grants nothing)
        else some (false, left_over mapped g)))
      × (wl_free (whole_device mapped (switch_of g))
          ≡ some (record no_device { enabled = true; rfkill = wl_uninit_rfkill (switch_of g) }))
unfolding wl_pci_probe wl_attach attach_wlc attach_cfg attach_fails wl_free free_if free_rest
    wl_cfg80211_detach wl_uninit_rfkill
wl_pci_probe_holds mapped g =
    (ground (arith, behind_cfg-outcome mapped g), freed mapped (switch_of g))
