-- ===== src/Iw/Auth/Memory.antt =====
-- The WPA version and the key management that wl_iw_set_wpaauth writes and wl_iw_get_wpaauth reads
-- (src/wl/sys/wl_iw.c), both in the variable wpa_auth.
use broadcom_bcm4312_fix.Prelude.{
  Bool, List, [], ap, false, if◌then◌else◌, refl, some, true, ℕ, ◌∙◌, ◌∷◌, ◌≡◌,
}
use broadcom_bcm4312_fix.Iw.{Driver, IwEffect, IwWorld, fw_call, send_event}
use broadcom_bcm4312_fix.Headers.{IoVar}
use broadcom_bcm4312_fix.State.{Ioctl, var_name, var_word}
use broadcom_bcm4312_fix.Iw.Monad.{
  dev_wlc_intvar_get, dev_wlc_intvar_set, dev_wlc_ioctl, has, set_ioctl,
}
use broadcom_bcm4312_fix.Iw.Auth.{
  auth_key_mgmt, auth_wpa_version, key_mgmt_of, key_mgmt_word, report_word, version_of,
  version_word, wl_iw_get_wpaauth, wl_iw_set_wpaauth,
}
use broadcom_bcm4312_fix.Headers.Commands.{get_var}
use broadcom_bcm4312_fix.Prelude.Int.{pos}

-- The wpa_auth word that was written last; `old` where none was.
abbrev pub last_word : ℕ → List IwEffect → ℕ
last_word old [] = old
last_word old (send_event _ _ _ _ ∷ log) = last_word old log
last_word old (fw_call c ∷ log) =
    let before = last_word old log in
    elim c.arg [ var_word name v ↦ elim name [ IoVar.wpa_auth ↦ v | _ ↦ before ] | _ ↦ before ]

module _ (d : Driver) (old : ℕ) where
  -- A firmware that takes each call and keeps the variable.
  abbrev pub Remembers : Type 0
  Remembers =
      ((log : List IwEffect) (c : Ioctl) → (d.answer log c).status ≡ pos 0)
      × ((log : List IwEffect) (len : ℕ)
          → (d.answer log
              (record { cmd = get_var; arg = var_name IoVar.wpa_auth; len = len })).value
            ≡ last_word old log)

  -- The flags of the kernel's header are different bits.
  abbrev pub FlagsApart : Type 0
  FlagsApart =
      (has d.version_wpa d.version_disabled ≡ false)
      × (has d.version_wpa d.version_wpa ≡ true)
      × (has d.version_wpa2 d.version_disabled ≡ false)
      × (has d.version_wpa2 d.version_wpa ≡ false)
      × (has d.version_wpa2 d.version_wpa2 ≡ true)
      × (has d.key_mgmt_psk d.key_mgmt_psk ≡ true)
      × (has d.key_mgmt_802_1x d.key_mgmt_psk ≡ false)

  abbrev pub version_flag : Bool → ℕ
  version_flag wpa2 = if wpa2 then d.version_wpa2 else d.version_wpa

  abbrev pub key_mgmt_flag : Bool → ℕ
  key_mgmt_flag shared = if shared then d.key_mgmt_psk else d.key_mgmt_802_1x

  abbrev word : IwWorld → ℕ
  word w = last_word old w.log

  word-version :
      (v : ℕ) (w : IwWorld) → word ((wl_iw_set_wpaauth d auth_wpa_version v w).1) ≡ version_word d v
  unfolding wl_iw_set_wpaauth dev_wlc_intvar_set set_ioctl dev_wlc_ioctl
  word-version v w = refl

  word-key_mgmt :
      (v : ℕ) (w : IwWorld)
      → Remembers
      → word ((wl_iw_set_wpaauth d auth_key_mgmt v w).1) ≡ key_mgmt_word d (word w) v
  unfolding wl_iw_set_wpaauth dev_wlc_intvar_set dev_wlc_intvar_get set_ioctl dev_wlc_ioctl
  word-key_mgmt v w (taken, kept) = rw (taken, kept) refl

  reported :
      (f : ℕ → ℕ) (w : IwWorld)
      → Remembers
      → (report_word d IoVar.wpa_auth f w).0 ≡ (pos 0, some (f (word w)))
  unfolding report_word dev_wlc_intvar_get dev_wlc_ioctl
  reported f w (taken, kept) = rw (taken, kept) refl

  version_kept :
      (wpa2 shared : Bool)
      → FlagsApart
      → version_of d (key_mgmt_word d (version_word d (version_flag wpa2)) (key_mgmt_flag shared))
        ≡ version_flag wpa2
  unfolding version_of key_mgmt_word version_word
  version_kept true true (a, b, c, e, f, g, h) = rw (c, e, f, g) refl
  version_kept true false (a, b, c, e, f, g, h) = rw (c, e, f, h) refl
  version_kept false true (a, b, c, e, f, g, h) = rw (a, b, g) refl
  version_kept false false (a, b, c, e, f, g, h) = rw (a, b, h) refl

  key_mgmt_kept :
      (wpa2 shared : Bool)
      → FlagsApart
      → key_mgmt_of d (key_mgmt_word d (version_word d (version_flag wpa2)) (key_mgmt_flag shared))
        ≡ key_mgmt_flag shared
  unfolding key_mgmt_of key_mgmt_word version_word
  key_mgmt_kept true true (a, b, c, e, f, g, h) = rw (c, e, f, g) refl
  key_mgmt_kept true false (a, b, c, e, f, g, h) = rw (c, e, f, h) refl
  key_mgmt_kept false true (a, b, c, e, f, g, h) = rw (a, b, g) refl
  key_mgmt_kept false false (a, b, c, e, f, g, h) = rw (a, b, h) refl

  -- The two parameters written one after the other.
  abbrev pub written : Bool → Bool → IwWorld → IwWorld
  written wpa2 shared w =
      (wl_iw_set_wpaauth d auth_key_mgmt (key_mgmt_flag shared)
        ((wl_iw_set_wpaauth d auth_wpa_version (version_flag wpa2) w).1)).1

  -- On a firmware that takes each call and keeps the variable, a WPA version, WPA or WPA2, and a key
  -- management, PSK or 802.1X, that are written one after the other are both read back.
  pub get_wpaauth-set_wpaauth :
      (wpa2 shared : Bool) (w : IwWorld)
      → Remembers
      → FlagsApart
      → ((wl_iw_get_wpaauth d auth_wpa_version (written wpa2 shared w)).0
          ≡ (pos 0, some (version_flag wpa2)))
        × ((wl_iw_get_wpaauth d auth_key_mgmt (written wpa2 shared w)).0
            ≡ (pos 0, some (key_mgmt_flag shared)))
  unfolding wl_iw_get_wpaauth
  get_wpaauth-set_wpaauth wpa2 shared w kept apart =
      let stands =
        word-key_mgmt (key_mgmt_flag shared)
          ((wl_iw_set_wpaauth d auth_wpa_version (version_flag wpa2) w).1) kept
        ∙ ap (λ v. key_mgmt_word d v (key_mgmt_flag shared)) (word-version (version_flag wpa2) w) in
      (
        reported (version_of d) (written wpa2 shared w) kept
            ∙ ap (λ v. (pos 0, some (version_of d v))) stands
            ∙ ap (λ v. (pos 0, some v)) (version_kept wpa2 shared apart),
        reported (key_mgmt_of d) (written wpa2 shared w) kept
            ∙ ap (λ v. (pos 0, some (key_mgmt_of d v))) stands
            ∙ ap (λ v. (pos 0, some v)) (key_mgmt_kept wpa2 shared apart),
      )
