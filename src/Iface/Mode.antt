-- ===== src/Iface/Mode.antt =====
-- The three ways in which the layer writes down an interface type.
use broadcom_bcm4312_fix.Prelude.{arith, inl, inr, none, refl, some, sym, ℕ, ◌∷◌, ◌≡◌, ◌≢◌, ◌⊎◌}
use broadcom_bcm4312_fix.Iface.{
  iface_choice, infra_choice, send_mode, wl_cfg80211_change_iface, wl_mode_to_nl80211_iftype,
}
use broadcom_bcm4312_fix.Iovar.{call, wl_dev_ioctl}
use broadcom_bcm4312_fix.Headers.{
  Errno, IfType, Status, adhoc, einval, eopnotsupp, fail, mode_bss, mode_ibss, monitor, ok, station,
  unspecified, wds,
}
use broadcom_bcm4312_fix.State.{Ioctl, Platform, World, int_arg, ioctl_call}
use broadcom_bcm4312_fix.Headers.Commands.{set_ap, set_infra}

-- What the other two say of a choice.
abbrev Agrees : IfType → Errno ⊎ (ℕ × ℕ) → Type 0
Agrees type (inl e) = infra_choice type ≡ none
Agrees type (inr (mode, infra)) =
    (wl_mode_to_nl80211_iftype mode ≡ type) × (infra_choice type ≡ some infra)

-- For every interface type that wl_cfg80211_change_iface accepts, the driver mode that it stores is
-- turned back into the type by wl_mode_to_nl80211_iftype, and wl_set_mode, which runs when the
-- interface comes up, sends the same `infra`. A type that it refuses is refused by wl_set_mode.
iface_choice_round_trip : (type : IfType) → Agrees type (iface_choice type)
unfolding iface_choice wl_mode_to_nl80211_iftype infra_choice
iface_choice_round_trip adhoc = (refl, refl)
iface_choice_round_trip station = (refl, refl)
iface_choice_round_trip monitor = refl
iface_choice_round_trip wds = refl
iface_choice_round_trip unspecified = refl
iface_choice_round_trip (IfType.raw n) = refl

-- WLC_SET_INFRA and WLC_SET_AP, each with its word.
abbrev pub infra_call : ℕ → Ioctl
infra_call infra = record { cmd = set_infra; arg = int_arg infra; len = 4 }

abbrev pub ap_call : Ioctl
ap_call = record { cmd = set_ap; arg = int_arg 0; len = 4 }

-- The mode and the type are stored and `infra` is sent, then that the device is no access point, unless
-- the first was refused. The status is that of the last call.
abbrev pub Switched : Platform → World → IfType → ℕ → ℕ → Status → World → Type 0
Switched x w type mode infra s w' =
    (w'.priv ≡ record (w.priv) { conf = record (w.priv.conf) { mode = mode }; iftype = type })
    × ((((x.reply w.log (infra_call infra)).status ≡ ok)
          × (w'.log ≡ ioctl_call ap_call ∷ ioctl_call (infra_call infra) ∷ w.log)
          × (s ≡ (x.reply (ioctl_call (infra_call infra) ∷ w.log) ap_call).status))
        ⊎ ((s ≢ ok)
            × (w'.log ≡ ioctl_call (infra_call infra) ∷ w.log)
            × (s ≡ (x.reply w.log (infra_call infra)).status)))

-- What each type does to the world.
abbrev pub Changed : Platform → World → IfType → Status → World → Type 0
Changed x w monitor s w' = (s ≡ fail eopnotsupp) × (w' ≡ w)
Changed x w wds s w' = (s ≡ fail eopnotsupp) × (w' ≡ w)
Changed x w unspecified s w' = (s ≡ fail einval) × (w' ≡ w)
Changed x w (IfType.raw n) s w' = (s ≡ fail einval) × (w' ≡ w)
Changed x w adhoc s w' = Switched x w adhoc mode_ibss 0 s w'
Changed x w station s w' = Switched x w station mode_bss 1 s w'

module _ (x : Platform) where
  -- The two calls, from a world in which mode and type are stored.
  send_mode_lem :
      (w : World) (type : IfType) (mode infra : ℕ)
      → let v = record w {
        priv = record (w.priv) { conf = record (w.priv.conf) { mode = mode }; iftype = type };
      } in
        (s : Status) × (w' : World) × (send_mode x infra v ≡ some (s, w'))
        × Switched x w type mode infra s w'
  unfolding send_mode wl_dev_ioctl call
  send_mode_lem w type mode infra = answered (x.reply w.log (infra_call infra)).status refl
    where
      v : World
      v = record w {
        priv = record (w.priv) { conf = record (w.priv.conf) { mode = mode }; iftype = type };
      }

      answered :
          (t : Status)
          → (x.reply w.log (infra_call infra)).status ≡ t
          → (s : Status) × (w' : World) × (send_mode x infra v ≡ some (s, w'))
            × Switched x w type mode infra s w'
      answered ok e = (
        (x.reply (ioctl_call (infra_call infra) ∷ w.log) ap_call).status,
        record v { log = ioctl_call ap_call ∷ ioctl_call (infra_call infra) ∷ w.log },
        rw e refl,
        (refl, inl (e, refl, refl)),
      )
      answered (fail n) e = (
        fail n,
        record v { log = ioctl_call (infra_call infra) ∷ w.log },
        rw e refl,
        (refl, inr ((λ h. ground (arith, h)), refl, sym e)),
      )

  -- wl_cfg80211_change_iface returns. Monitor and WDS are refused with -EOPNOTSUPP, and types other
  -- than IBSS and station with -EINVAL, and nothing changes. IBSS stores WL_MODE_IBSS and sends `infra`
  -- 0, station stores WL_MODE_BSS and sends 1, and then WLC_SET_AP with 0 unless the first call is
  -- refused; the status is that of the last call, and mode and type stay stored whatever it is.
  pub wl_cfg80211_change_iface-Changed :
      (type : IfType) (w : World)
      → (s : Status) × (w' : World) × (wl_cfg80211_change_iface x type w ≡ some (s, w'))
        × Changed x w type s w'
  unfolding wl_cfg80211_change_iface iface_choice
  wl_cfg80211_change_iface-Changed monitor w = (fail eopnotsupp, w, refl, (refl, refl))
  wl_cfg80211_change_iface-Changed wds w = (fail eopnotsupp, w, refl, (refl, refl))
  wl_cfg80211_change_iface-Changed unspecified w = (fail einval, w, refl, (refl, refl))
  wl_cfg80211_change_iface-Changed (IfType.raw n) w = (fail einval, w, refl, (refl, refl))
  wl_cfg80211_change_iface-Changed adhoc w = send_mode_lem w adhoc mode_ibss 0
  wl_cfg80211_change_iface-Changed station w = send_mode_lem w station mode_bss 1
