-- ===== src/Connect/Total.antt =====
-- Whether a connect request returns: lemmas for wl_cfg80211_connect and its settings.
use broadcom_bcm4312_fix.Prelude.{
  Option, Option-cases, [], arith, inl, inr, none, refl, some, ℕ, ◌∷◌, ◌≡◌, ◌≢◌,
}
use broadcom_bcm4312_fix.Iovar.{
  wl_dev_bufvar_set, wl_dev_intvar_get, wl_dev_intvar_set, wl_dev_ioctl,
}
use broadcom_bcm4312_fix.Connect.{
  Sme, connect_to, key_size, or_einval, send_join, wl_cfg80211_connect, wl_set_auth_type,
  wl_set_key_mgmt, wl_set_set_cipher, wl_set_set_sharedkey, wl_set_wpa_version,
}
use broadcom_bcm4312_fix.Chanspec.{band_bits, wl_ch_to_chanspec}
use broadcom_bcm4312_fix.Headers.{
  Band, Bytes, Channel, IoVar, JoinParams, Status, WsecKey, einval, fail, ghz2, ghz5, ssid_size,
  wsec_restrict,
}
use broadcom_bcm4312_fix.State.{M, Platform, key_arg, pure, var_bytes, ◌>>=◌}
use broadcom_bcm4312_fix.State.Total.{Total, pure-Total, total_rules}
use broadcom_bcm4312_fix.Iovar.Laws.{MkiovarFits}
use broadcom_bcm4312_fix.Iovar.Total.{
  status-Total, wl_dev_bufvar_set-Total, wl_dev_intvar_get-Total, wl_dev_intvar_set-Total,
}

module _ (x : Platform) (fits : MkiovarFits x) where
  set_var-Total : (v : IoVar) (n : ℕ) → Total (wl_dev_intvar_set x v n)
  set_var-Total = wl_dev_intvar_set-Total x fits

  get_var-Total : (v : IoVar) → Total (wl_dev_intvar_get x v)
  get_var-Total = wl_dev_intvar_get-Total x fits

  or_einval-Total :
      (v : Option ℕ) (k : ℕ → M Status) → ((n : ℕ) → Total (k n)) → Total (or_einval v k)
  or_einval-Total none k h = pure-Total (fail einval)
  or_einval-Total (some n) k h = h n

  key-Total :
      (cmd : ℕ) (k : WsecKey)
      → Total (wl_dev_ioctl x cmd (key_arg k) (key_size x) >>= λ r. pure r.status)
  key-Total cmd k = status-Total x cmd (key_arg k) (key_size x) (omega arith)

  ruleset connect_rules = (set_var-Total, get_var-Total, or_einval-Total, key-Total)

  wl_set_auth_type-Total : (sme : Sme) → Total (wl_set_auth_type x sme)
  unfolding wl_set_auth_type
  wl_set_auth_type-Total sme = search (total_rules, connect_rules) depth 20

  wl_set_wpa_version-Total : (sme : Sme) → Total (wl_set_wpa_version x sme)
  unfolding wl_set_wpa_version
  wl_set_wpa_version-Total sme = search (total_rules, connect_rules) depth 20

  wl_set_set_cipher-Total : (sme : Sme) → Total (wl_set_set_cipher x sme)
  unfolding wl_set_set_cipher
  wl_set_set_cipher-Total sme = search (total_rules, connect_rules) depth 20

  wl_set_key_mgmt-Total : (sme : Sme) → Total (wl_set_key_mgmt x sme)
  unfolding wl_set_key_mgmt
  wl_set_key_mgmt-Total sme = search (total_rules, connect_rules) depth 20

  wl_set_set_sharedkey-Total : (sme : Sme) → Total (wl_set_set_sharedkey x sme)
  unfolding wl_set_set_sharedkey
  wl_set_set_sharedkey-Total sme = search (total_rules, connect_rules) depth 20

  known_band : (b : Band) → b ≢ Band.other → (n : ℕ) × (band_bits x b ≡ some n)
  unfolding band_bits
  known_band ghz2 h = (x.chanspec_band_2g, refl)
  known_band ghz5 h = (x.chanspec_band_5g, refl)
  known_band Band.other h = absurd (h refl)

  bound-Total :
      (c : Channel) (request : JoinParams)
      → c.band ≢ Band.other
      → Total (send_join x (some c) request)
  unfolding send_join wl_ch_to_chanspec
  bound-Total c request known =
      let (n, e) = known_band c.band known in
      rw (e, send_join, wl_ch_to_chanspec) (status-Total x _ _ _ (omega arith))

  send_join-Total :
      (chan : Option Channel) (request : JoinParams)
      → ((c : Channel) → chan ≡ some c → c.band ≢ Band.other)
      → Total (send_join x chan request)
  send_join-Total none request known =
      unfold send_join wl_ch_to_chanspec in status-Total x _ _ ssid_size (omega arith)
  send_join-Total (some c) request known = bound-Total c request (known c refl)

  restrict-Total : Total (wl_dev_bufvar_set x (var_bytes wsec_restrict (1 ∷ [])) wsec_restrict 1)
  restrict-Total = wl_dev_bufvar_set-Total x fits _ wsec_restrict 1 (omega arith)

  ruleset setting_rules = (
    wl_set_auth_type-Total, wl_set_wpa_version-Total, wl_set_set_cipher-Total,
    wl_set_key_mgmt-Total, wl_set_set_sharedkey-Total,
  )

  connect_to-Total :
      (sme : Sme) (name : Bytes)
      → ((c : Channel) → sme.channel ≡ some c → c.band ≢ Band.other)
      → Total (connect_to x sme name)
  unfolding connect_to
  connect_to-Total sme name known =
      search (total_rules, setting_rules, restrict-Total, send_join-Total _ _ known) depth 24

  pub wl_cfg80211_connect-Total :
      (sme : Sme)
      → ((c : Channel) → sme.channel ≡ some c → c.band ≢ Band.other)
      → Total (wl_cfg80211_connect x sme)
  unfolding wl_cfg80211_connect
  wl_cfg80211_connect-Total sme known = record {
    returns = λ w e. elim (Option-cases sme.ssid) [
      | inl absent ↦ ground (arith, absent, e)
      | inr (name, given) ↦
          (connect_to-Total sme name known).returns w (rw (given, wl_cfg80211_connect) at e)
    ];
  }
