-- ===== src/Iw/Auth.antt =====
-- The parameters of the authentication: wl_iw_set_wpaauth and wl_iw_get_wpaauth
-- (src/wl/sys/wl_iw.c).
pub mod Memory
use broadcom_bcm4312_fix.Prelude.{
  Bool, Option, [], bit_or, get_or, if◌then◌else◌, none, not, or_if, some, ℕ, ◌%◌, ◌&&◌, ◌+◌, ◌==◌,
  ◌||◌, ◌∷◌,
}
use broadcom_bcm4312_fix.Iw.{Driver, WlIw}
use broadcom_bcm4312_fix.Connect.{clear_bits}
use broadcom_bcm4312_fix.Headers.{
  IoVar, aes_enabled, is_wps_enrollee, psk, rx_unencrypted_eapol, tkip_countermeasures,
  tkip_enabled, wep_enabled, wpa2_auth_psk, wpa2_auth_unspecified, wpa_auth_disabled, wpa_auth_none,
  wpa_auth_psk, wpa_auth_unspecified, wsec, wsec_restrict,
}
use broadcom_bcm4312_fix.State.{var_bytes}
use broadcom_bcm4312_fix.Iw.Monad.{
  IwM, dev_wlc_bufvar_get, dev_wlc_bufvar_set, dev_wlc_intvar_get, dev_wlc_intvar_set, has, is_zero,
  iw_dev_if, pure, store, unless_error, ◌>>=◌, ◌>>◌,
}
use broadcom_bcm4312_fix.Prelude.Int.{pos, ℤ}

-- IW_AUTH_*, the values of `paramid`.
pub data AuthParam : Type 0 where
  auth_wpa_version auth_cipher_pairwise auth_cipher_group auth_key_mgmt : AuthParam
  auth_tkip_countermeasures auth_drop_unencrypted auth_80211_auth_alg : AuthParam
  auth_wpa_enabled auth_rx_unencrypted_eapol auth_roaming_control : AuthParam
  auth_privacy_invoked : AuthParam
  auth_other : ℕ → AuthParam

abbrev pub wpa_bits : ℕ
wpa_bits = wpa_auth_psk + wpa_auth_unspecified

abbrev pub wpa2_bits : ℕ
wpa2_bits = wpa2_auth_psk + wpa2_auth_unspecified

abbrev pub wsec_bits : ℕ
wsec_bits = wep_enabled + tkip_enabled + aes_enabled

module _ (d : Driver) where
  -- The wpa_auth word for a version, and what is reported for a word.
  unfoldable pub version_word : ℕ → ℕ
  version_word paramval =
      if has paramval d.version_disabled
      then wpa_auth_disabled
      else if has paramval d.version_wpa
      then wpa_bits
      else if has paramval d.version_wpa2
      then wpa2_bits
      else 0

  unfoldable pub version_of : ℕ → ℕ
  version_of val =
      if has val (wpa_auth_none + wpa_auth_disabled)
      then d.version_disabled
      else if has val wpa_bits
      then d.version_wpa
      else if has val wpa2_bits
      then d.version_wpa2
      else 0

  -- The wpa_auth word that a key management leaves, and what is reported for a word.
  unfoldable pub key_mgmt_word : ℕ → ℕ → ℕ
  key_mgmt_word val paramval =
      let psk = has paramval d.key_mgmt_psk in
      if has val wpa_bits
      then (if psk then wpa_auth_psk else wpa_auth_unspecified)
      else if has val wpa2_bits
      then (if psk then wpa2_auth_psk else wpa2_auth_unspecified)
      else val

  unfoldable pub key_mgmt_of : ℕ → ℕ
  key_mgmt_of val =
      if has val wpa_auth_psk || has val wpa2_auth_psk then d.key_mgmt_psk else d.key_mgmt_802_1x

  -- The wsec word for the two ciphers.
  unfoldable pub cipher_word : ℕ → ℕ → ℕ
  cipher_word val combined = or_if (has combined d.cipher_ccmp) aes_enabled (
      or_if (has combined d.cipher_tkip) tkip_enabled (
        or_if (has combined (bit_or d.cipher_wep40 d.cipher_wep104)) wep_enabled
          (clear_bits val wsec_bits)))

  -- is_WPS_enrollee, for a wsec word.
  unfoldable pub enrollee : Bool → ℕ → IwM ℤ
  enrollee invoked val =
      if invoked && (val == 0)
      then dev_wlc_intvar_set d is_wps_enrollee 1
      else if not (val == 0)
      then dev_wlc_intvar_set d is_wps_enrollee 0
      else pure (pos 0)

  -- What follows the store of a cipher.
  unfoldable pub set_ciphers : IwM ℤ
  set_ciphers = dev_wlc_intvar_get d wsec >>= λ r. unless_error r.status (
      iw_dev_if >>= λ iw.
      let val = cipher_word r.value (bit_or iw.gwsec iw.pwsec) in
      (do enrollee iw.privacy_invoked val; dev_wlc_intvar_set d wsec val))

  -- One byte of a value; the status is dropped.
  unfoldable pub set_byte : IoVar → ℕ → IwM ℤ
  set_byte name paramval =
      dev_wlc_bufvar_set d (var_bytes name (paramval % 256 ∷ [])) name 1 >>= λ _. pure (pos 0)

  -- An unknown algorithm is not an error, though `error` is set.
  unfoldable pub set_auth_alg : ℕ → IwM ℤ
  set_auth_alg paramval =
      if has paramval d.alg_open_system
      then dev_wlc_intvar_set d IoVar.auth 0
      else if has paramval d.alg_shared_key
      then dev_wlc_intvar_set d IoVar.auth 1
      else pure (pos 0)

  -- An invoked privacy without a cipher is that of a WPS enrollee.
  unfoldable pub set_privacy : ℕ → IwM ℤ
  set_privacy paramval = do
    store (λ iw. record iw { privacy_invoked = not (paramval == 0) })
    (if paramval == 0
        then dev_wlc_intvar_set d is_wps_enrollee 0
        else (dev_wlc_intvar_get d wsec >>= λ r.
            unless_error r.status
              (dev_wlc_intvar_set d is_wps_enrollee (if has r.value wsec_bits then 0 else 1))))

  unfoldable pub wl_iw_set_wpaauth : AuthParam → ℕ → IwM ℤ
  wl_iw_set_wpaauth auth_wpa_version v = dev_wlc_intvar_set d IoVar.wpa_auth (version_word v)
  wl_iw_set_wpaauth auth_cipher_pairwise v = do store (λ iw. record iw { pwsec = v }); set_ciphers
  wl_iw_set_wpaauth auth_cipher_group v = do store (λ iw. record iw { gwsec = v }); set_ciphers
  wl_iw_set_wpaauth auth_key_mgmt v = dev_wlc_intvar_get d IoVar.wpa_auth >>= λ r.
      unless_error r.status (dev_wlc_intvar_set d IoVar.wpa_auth (key_mgmt_word r.value v))
  wl_iw_set_wpaauth auth_tkip_countermeasures v = set_byte tkip_countermeasures v
  wl_iw_set_wpaauth auth_80211_auth_alg v = set_auth_alg v
  wl_iw_set_wpaauth auth_wpa_enabled v =
      if v == 0 then dev_wlc_intvar_set d IoVar.wpa_auth 0 else pure (pos 0)
  wl_iw_set_wpaauth auth_drop_unencrypted v = set_byte wsec_restrict v
  wl_iw_set_wpaauth auth_rx_unencrypted_eapol v = set_byte rx_unencrypted_eapol v
  wl_iw_set_wpaauth auth_roaming_control v = pure (pos 0)
  wl_iw_set_wpaauth auth_privacy_invoked v = set_privacy v
  wl_iw_set_wpaauth (auth_other n) v = pure (pos 0)

  -- A word read and reported, and one byte, which is 0 where the call fails.
  unfoldable pub report_word : IoVar → (ℕ → ℕ) → IwM (ℤ × Option ℕ)
  report_word name f = dev_wlc_intvar_get d name >>= λ r.
      pure (if is_zero r.status then (pos 0, some (f r.value)) else (r.status, none))

  unfoldable pub report_byte : IoVar → IwM (ℤ × Option ℕ)
  report_byte name = dev_wlc_bufvar_get d name 1 >>= λ (error, answer).
      pure (pos 0, some (elim answer [ none ↦ 0 | some r ↦ get_or r.bytes 0 0 ]))

  abbrev pub report : (WlIw → ℕ) → IwM (ℤ × Option ℕ)
  report f = iw_dev_if >>= λ iw. pure (pos 0, some (f iw))

  -- `none` is a value that is left alone.
  unfoldable pub wl_iw_get_wpaauth : AuthParam → IwM (ℤ × Option ℕ)
  wl_iw_get_wpaauth auth_wpa_version = report_word IoVar.wpa_auth version_of
  wl_iw_get_wpaauth auth_cipher_pairwise = report (λ iw. iw.pwsec)
  wl_iw_get_wpaauth auth_cipher_group = report (λ iw. iw.gwsec)
  wl_iw_get_wpaauth auth_key_mgmt = report_word IoVar.wpa_auth key_mgmt_of
  wl_iw_get_wpaauth auth_tkip_countermeasures = report_byte tkip_countermeasures
  wl_iw_get_wpaauth auth_drop_unencrypted = report_byte wsec_restrict
  wl_iw_get_wpaauth auth_rx_unencrypted_eapol = report_byte rx_unencrypted_eapol
  wl_iw_get_wpaauth auth_80211_auth_alg =
      report_word IoVar.auth (λ val. if val == 0 then d.alg_open_system else d.alg_shared_key)
  wl_iw_get_wpaauth auth_wpa_enabled = report_word IoVar.wpa_auth (λ val. if val == 0 then 0 else 1)
  wl_iw_get_wpaauth auth_roaming_control = pure (pos 0, some 0)
  wl_iw_get_wpaauth auth_privacy_invoked = report (λ iw. if iw.privacy_invoked then 1 else 0)
  wl_iw_get_wpaauth (auth_other n) = pure (pos 0, some 0)
