-- ===== src/Connect.antt =====
-- wl_cfg80211_connect and what it calls: the authentication, the ciphers, the key management and
-- the shared key of a connect request; wl_cfg80211_disconnect and wl_cfg80211_join_ibss
-- (src/wl/sys/wl_cfg80211_hybrid.c).
pub mod Total
pub mod Outcome
use broadcom_bcm4312_fix.Prelude.{
  Bool, Option, [], bit_and, bit_or, false, if◌then◌else◌, ltb, memcpy, min, none, not, replicate,
  some, true, ℕ, ◌&&◌, ◌+◌, ◌-◌, ◌==◌, ◌^◌, ◌∷◌,
}
use broadcom_bcm4312_fix.Iovar.{
  wl_dev_bufvar_set, wl_dev_intvar_get, wl_dev_intvar_set, wl_dev_ioctl,
}
use broadcom_bcm4312_fix.Chanspec.{wl_ch_to_chanspec}
use broadcom_bcm4312_fix.Headers.{
  Addr, Akm, AuthType, Bytes, Channel, IoVar, JoinParams, Ssid, Status, Suite, WsecKey, aes_cmac,
  aes_enabled, algo_wep1, algo_wep128, automatic, broadcast_addr, ccmp, einval, eio, eopnotsupp,
  fail, ieee8021x, network_eap, ok, open_system, primary_key, psk, scb_size, shared_key, ssid_size,
  tkip, tkip_enabled, wep104, wep40, wep_enabled, wpa2_auth_psk, wpa2_auth_unspecified, wpa_auth,
  wpa_auth_disabled, wpa_auth_none, wpa_auth_psk, wpa_auth_unspecified, wsec, wsec_restrict,
  zero_addr,
}
use broadcom_bcm4312_fix.State.{
  M, Platform, Priv, Security, bug, get, if_ok, join_arg, key_arg, modify, pure, scb_arg, var_bytes,
  ◌>>=◌, ◌>>◌,
}
use broadcom_bcm4312_fix.Headers.Commands.{disassoc, set_key, set_ssid}

-- struct cfg80211_connect_params, with its `crypto` part: `none` is a NULL pointer, and
-- `ciphers_pairwise` and `akm_suites` are the first elements.
pub record Sme : Type 0 where
  pub ssid : Option Bytes
  pub ssid_len : ℕ
  pub bssid : Option Addr
  pub channel : Option Channel
  pub auth_type : AuthType
  pub wpa_versions : ℕ
  pub n_ciphers_pairwise : ℕ
  pub ciphers_pairwise : Suite
  pub cipher_group : Suite
  pub n_akm_suites : ℕ
  pub akm_suites : Akm
  pub key : Bytes
  pub key_len : ℕ
  pub key_idx : ℕ

-- struct cfg80211_ibss_params
pub record IbssParams : Type 0 where
  pub ssid : Bytes
  pub ssid_len : ℕ
  pub bssid : Option Addr
  pub channel : Option Channel

-- `val & ~mask` on 32 bits.
abbrev pub clear_bits : ℕ → ℕ → ℕ
clear_bits val mask = bit_and val (2 ^ 32 - 1 - mask)

-- WEP_ENABLED | TKIP_ENABLED | AES_ENABLED
abbrev pub wsec_mask : ℕ
wsec_mask = wep_enabled + tkip_enabled + aes_enabled

-- The switch on a pairwise or group suite; `none` is its default.
unfoldable pub suite_wsec : Suite → Option ℕ
suite_wsec wep40 = some wep_enabled
suite_wsec wep104 = some wep_enabled
suite_wsec tkip = some tkip_enabled
suite_wsec ccmp = some aes_enabled
suite_wsec aes_cmac = some aes_enabled
suite_wsec (Suite.raw n) = none

-- The switch on the authentication type; NETWORK_EAP falls through to the default.
unfoldable pub auth_value : AuthType → ℕ
auth_value open_system = 0
auth_value shared_key = 1
auth_value automatic = 2
auth_value network_eap = 2
auth_value (AuthType.raw n) = 2

-- The two switches on the key management suite: for WPA (true) and for WPA2.
unfoldable pub akm_value : Bool → Akm → Option ℕ
akm_value true ieee8021x = some wpa_auth_unspecified
akm_value true psk = some wpa_auth_psk
akm_value false ieee8021x = some wpa2_auth_unspecified
akm_value false psk = some wpa2_auth_psk
akm_value _ (Akm.raw n) = none

abbrev pub set_sec : (Security → Security) → Priv → Priv
set_sec f p = record p { profile = record (p.profile) { sec = f p.profile.sec } }

-- What a switch that only sets a value, and returns -EINVAL by default, lets through.
abbrev pub or_einval : Option ℕ → (ℕ → M Status) → M Status
or_einval none k = pure (fail einval)
or_einval (some v) k = k v

abbrev pub zero_key : ℕ → WsecKey
zero_key size = record {
  index = 0;
  len = 0;
  key_data = replicate size 0;
  algo = 0;
  flags = 0;
  iv_initialized = false;
  rxiv_hi = 0;
  rxiv_lo = 0;
  ea = zero_addr;
}

module _ (x : Platform) where
  -- sizeof(struct wl_wsec_key)
  abbrev pub key_size : ℕ
  key_size = x.max_key_size + 132

  unfoldable pub wl_set_wpa_version : Sme → M Status
  wl_set_wpa_version sme =
      let val =
        if not (bit_and sme.wpa_versions x.wpa_version_1 == 0)
        then wpa_auth_psk + wpa_auth_unspecified
        else if not (bit_and sme.wpa_versions x.wpa_version_2 == 0)
        then wpa2_auth_psk + wpa2_auth_unspecified
        else wpa_auth_disabled in
      do
        wl_dev_intvar_set x wpa_auth val
        modify (set_sec (λ s. record s { wpa_versions = sme.wpa_versions }))

  unfoldable pub wl_set_auth_type : Sme → M Status
  wl_set_auth_type sme = do
    wl_dev_intvar_set x IoVar.auth (auth_value sme.auth_type)
    modify (set_sec (λ s. record s { auth_type = sme.auth_type }))

  -- The values that the two switches give; a suite that is not asked for gives 0.
  unfoldable pub pairwise_value : Sme → Option ℕ
  pairwise_value sme =
      if sme.n_ciphers_pairwise == 0 then some 0 else suite_wsec sme.ciphers_pairwise

  unfoldable pub group_value : Sme → Option ℕ
  group_value sme =
      if x.suite_bits sme.cipher_group == 0 then some 0 else suite_wsec sme.cipher_group

  unfoldable pub wl_set_set_cipher : Sme → M Status
  wl_set_set_cipher sme = or_einval (pairwise_value sme) λ pval. or_einval (group_value sme) λ gval.
      wl_dev_intvar_get x wsec >>= λ (err, val). if_ok err do
        wl_dev_intvar_set x wsec (bit_or (clear_bits val wsec_mask) (bit_or pval gval))
        modify (
            set_sec (λ s. record s {
              cipher_pairwise = sme.ciphers_pairwise;
              cipher_group = sme.cipher_group;
            }))

  -- The value that replaces the wpa_auth word that was read.
  unfoldable pub key_mgmt_value : Sme → ℕ → Option ℕ
  key_mgmt_value sme val =
      if not (bit_and val (wpa_auth_psk + wpa_auth_unspecified) == 0)
      then akm_value true sme.akm_suites
      else if not (bit_and val (wpa2_auth_psk + wpa2_auth_unspecified) == 0)
      then akm_value false sme.akm_suites
      else some val

  unfoldable pub wl_set_key_mgmt : Sme → M Status
  wl_set_key_mgmt sme =
      let store = modify (set_sec (λ s. record s { wpa_auth = sme.akm_suites })) in
      if sme.n_akm_suites == 0
      then store
      else (wl_dev_intvar_get x wpa_auth >>= λ (err, val).
          if_ok err
            (or_einval (key_mgmt_value sme val) λ v. do wl_dev_intvar_set x wpa_auth v; store))

  -- `!(wpa_versions & (V1 | V2)) && (cipher_pairwise & (WEP40 | WEP104))`
  unfoldable pub wants_wep_key : Security → Bool
  wants_wep_key sec =
      (bit_and sec.wpa_versions (bit_or x.wpa_version_1 x.wpa_version_2) == 0)
      && not (
          bit_and (x.suite_bits sec.cipher_pairwise)
            (bit_or (x.suite_bits wep40) (x.suite_bits wep104))
          == 0)

  unfoldable pub wep_algo : Suite → Option ℕ
  wep_algo wep40 = some algo_wep1
  wep_algo wep104 = some algo_wep128
  wep_algo _ = none

  unfoldable pub wl_set_set_sharedkey : Sme → M Status
  wl_set_set_sharedkey sme = get >>= λ p.
      if not (sme.key_len == 0) && wants_wep_key p.profile.sec
      then (if ltb x.max_key_size sme.key_len
          then pure (fail einval)
          else or_einval (wep_algo p.profile.sec.cipher_pairwise) λ algo.
            wl_dev_ioctl x set_key
              (key_arg (record (zero_key x.max_key_size) {
                index = sme.key_idx;
                len = sme.key_len;
                key_data = memcpy (replicate x.max_key_size 0) 0 sme.key sme.key_len;
                flags = primary_key;
                algo = algo;
              }))
              key_size
            >>= λ r. pure r.status)
      else pure ok

  -- The SSID of the request, cut to its 32 bytes.
  unfoldable pub join_ssid : Bytes → ℕ → Ssid
  join_ssid bytes n = record {
    ssid_len = min 32 n;
    ssid = memcpy (replicate 32 0) 0 bytes (min 32 n);
  }

  abbrev pub join_of : Ssid → Addr → JoinParams
  join_of s a = record { ssid = s; bssid = a; chanspec_num = 0; chanspec_list = [] }

  -- The request with its chanspec, sent by WLC_SET_SSID.
  unfoldable pub send_join : Option Channel → JoinParams → M Status
  send_join chan request = elim (wl_ch_to_chanspec x chan request ssid_size) [
    | none ↦ bug
    | some (request', size) ↦
        wl_dev_ioctl x set_ssid (join_arg request') size >>= λ r. pure r.status
  ]

  -- The BSSID and the SSID of the profile.
  unfoldable pub store_target : Option Addr → Ssid → Priv → Priv
  store_target bssid s p = record p {
    profile = record (p.profile) {
      bssid = elim bssid [ some a ↦ a | none ↦ zero_addr ];
      ssid = record {
        ssid_len = s.ssid_len;
        ssid = memcpy p.profile.ssid.ssid 0 s.ssid s.ssid_len;
      };
    };
  }

  -- What follows the check of the SSID pointer.
  unfoldable pub connect_to : Sme → Bytes → M Status
  connect_to sme name = do
    wl_set_auth_type sme
    wl_set_wpa_version sme
    wl_set_set_cipher sme
    wl_set_key_mgmt sme
    wl_set_set_sharedkey sme
    _ ← wl_dev_bufvar_set x (var_bytes wsec_restrict (1 ∷ [])) wsec_restrict 1
    modify (store_target sme.bssid (join_ssid name sme.ssid_len))
    send_join sme.channel (join_of (join_ssid name sme.ssid_len) broadcast_addr)
    modify (λ p. record p { connecting = true })

  unfoldable pub wl_cfg80211_connect : Sme → M Status
  wl_cfg80211_connect sme = elim sme.ssid [
    | none ↦ pure (fail eopnotsupp)
    | some name ↦ connect_to sme name
  ]

  unfoldable pub wl_cfg80211_disconnect : ℕ → M Status
  wl_cfg80211_disconnect reason = get >>= λ p.
      if p.profile.active
      then (wl_dev_ioctl x disassoc (scb_arg p.bssid reason) scb_size >>= λ r. pure r.status)
      else pure (fail eio)

  unfoldable pub wl_cfg80211_join_ibss : IbssParams → M Status
  wl_cfg80211_join_ibss params = elim params.bssid [
    | some a ↦ pure (fail eopnotsupp)
    | none ↦ do
      wl_dev_intvar_set x IoVar.auth 0
      wl_dev_intvar_set x wpa_auth wpa_auth_none
      wl_dev_intvar_get x wsec >>= λ (err, val). if_ok err do
        wl_dev_intvar_set x wsec (clear_bits val wsec_mask)
        send_join params.channel (
            join_of
              (record {
                ssid_len = params.ssid_len;
                ssid = memcpy (replicate 32 0) 0 params.ssid params.ssid_len;
              })
              zero_addr)
  ]
