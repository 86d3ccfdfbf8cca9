-- ===== src/Linux/Attach.antt =====
-- Attaching and freeing a device: wl_attach, wl_free and wl_pci_probe with what they hold
-- (src/wl/sys/wl_linux.c). The settings whose failure wl_attach only reports are left out. A use of
-- freed memory is `none`.
pub mod Released
use broadcom_bcm4312_fix.Prelude.{
  Bool, Option, false, if◌then◌else◌, none, not, some, true, ℕ, ◌&&◌,
}
use broadcom_bcm4312_fix.Lifecycle.{Grants, Held, wl_cfg80211_attach, wl_cfg80211_detach}
use broadcom_bcm4312_fix.State.{is_ok}
use broadcom_bcm4312_fix.Linux.Rfkill.{Rfkill, wl_init_rfkill, wl_uninit_rfkill}
use broadcom_bcm4312_fix.Prelude.Int.{ℤ}

-- Whether each resource is held, what the control interface holds (Lifecycle), and the radio switch
-- (Rfkill); `bar1_stored` is whether wl->bar1_addr has the mapping that
-- wl_pci_probe made, `enabled` whether the PCI device is enabled.
pub record Device : Type 0 where
  pub osl_held : Bool
  pub wl_info : Bool
  pub wlif_held : Bool
  pub net_device : Bool
  pub regs : Bool
  pub bar1 : Bool
  pub bar1_stored : Bool
  pub wlc : Bool
  pub irq : Bool
  pub cfg80211 : Held
  pub rfkill : Rfkill
  pub dev_registed : Bool
  pub watchdog : Bool
  pub proc_entry : Bool
  pub enabled : Bool

-- What each call answers, in their order, the first the two tests of the unit; `pci` is whether the
-- bus is PCI.
pub record Answers : Type 0 where
  pub unit_allowed : Bool
  pub has_wl : Bool
  pub has_wlif : Bool
  pub has_dev : Bool
  pub has_regs : Bool
  pub wlc_attached : Bool
  pub has_irq : Bool
  pub pci : Bool
  pub cfg_grants : Grants
  pub rfkill_room : Bool
  pub radio : ℤ × ℕ
  pub rfkill_accepts : Bool
  pub dev_accepted : Bool
  pub watchdog_accepted : Bool

-- wl_free behind wl_free_if.
unfoldable pub free_rest : Device → Device
free_rest h = record h {
  watchdog = false;
  proc_entry = false;
  wlc = false;
  regs = false;
  bar1 = h.bar1 && not h.bar1_stored;
  bar1_stored = false;
  wl_info = false;
  osl_held = false;
}

-- wl_free_if. It detaches the control interface, whose pointer goes with the net_device.
unfoldable pub free_if : Device → Option Device
free_if h = elim (wl_cfg80211_detach h.cfg80211) [
  | none ↦ none
  | some c ↦ some (record h {
    dev_registed = false;
    cfg80211 = record c { ieee80211_ptr = false };
    net_device = false;
    wlif_held = false;
  })
]

-- Without a net_device neither the interface nor the interrupt is given back.
unfoldable pub wl_free : Device → Option Device
wl_free h =
    let without_switch : Device = record h { rfkill = wl_uninit_rfkill h.rfkill } in
    if h.net_device
    then elim (free_if (record without_switch { irq = false })) [
      | none ↦ none
      | some t ↦ some (free_rest t)
    ]
    else some (free_rest without_switch)

unfoldable pub attach_fails : Device → Option (Bool × Device)
attach_fails h = elim (wl_free h) [ none ↦ none | some t ↦ some (false, t) ]

-- From register_netdev on; a failure of wl_init_rfkill is only reported.
unfoldable pub attach_netdev : Answers → Device → Option (Bool × Device)
attach_netdev g h =
    if not g.dev_accepted
    then attach_fails h
    else (let t : Device = record h {
      dev_registed = true;
      rfkill = (wl_init_rfkill g.rfkill_room g.radio g.rfkill_accepts h.rfkill).1;
    } in
        if not g.watchdog_accepted
        then attach_fails t
        else some (true, record t { watchdog = true; proc_entry = true }))

-- From wl_cfg80211_attach on.
unfoldable pub attach_cfg : Answers → Device → Option (Bool × Device)
attach_cfg g h =
    let r = wl_cfg80211_attach true g.cfg_grants h.cfg80211 in
    let t : Device = record h { cfg80211 = r.1 } in
    if is_ok (r.0) then attach_netdev g t else attach_fails t

-- From wlc_attach on.
unfoldable pub attach_wlc : Answers → Device → Option (Bool × Device)
attach_wlc g h =
    if not g.wlc_attached
    then attach_fails h
    else if not g.has_irq
    then attach_fails (record h { wlc = true })
    else if not g.pci
    then attach_fails (record h { wlc = true; irq = true })
    else attach_cfg g (record h { wlc = true; irq = true })

-- The bool is whether there is a wl_info_t.
unfoldable pub wl_attach : Answers → Device → Option (Bool × Device)
wl_attach g h =
    if not g.unit_allowed
    then some (false, h)
    else if not g.has_wl
    then some (false, record h { osl_held = false })
    else if not g.has_wlif
    then some (false, record h { wl_info = false; osl_held = false })
    else if not g.has_dev
    then some (false, record h { wlif_held = true; wl_info = false; osl_held = false })
    else (let t : Device = record h {
      osl_held = true;
      wl_info = true;
      wlif_held = true;
      net_device = true;
    } in
        if not g.has_regs
        then attach_fails t
        else attach_wlc g (record t { regs = true; bar1_stored = true }))

-- For a device of the vendor; `mapped` is whether ioremap has room. A failure is -ENODEV.
unfoldable pub wl_pci_probe : Bool → Bool → Answers → Device → Option (Bool × Device)
wl_pci_probe enables mapped g h =
    if enables then wl_attach g (record h { enabled = true; bar1 = mapped }) else some (false, h)
