-- ===== src/Iw/Encode/Agreement.antt =====
-- The keys that the two control interfaces send: wl_iw_set_encodeext (src/wl/sys/wl_iw.c) and
-- wl_cfg80211_add_key (src/wl/sys/wl_cfg80211_hybrid.c).
use broadcom_bcm4312_fix.Prelude.{
  Bool, Bool-cases, arith, bit_and, false, if◌then◌else◌, inl, inr, refl, some, subst, sym, true, ℕ,
  ◌-◌, ◌==◌, ◌≡◌, ltb,
}
use broadcom_bcm4312_fix.Iw.{Driver}
use broadcom_bcm4312_fix.Headers.{
  Addr, KeyParams, Status, Suite, WsecKey, wsec, aes_enabled, algo_aes_ccm, algo_tkip, algo_wep1,
  algo_wep128, ccmp, tkip, tkip_enabled, wep104, wep40, wep_enabled,
}
use broadcom_bcm4312_fix.Keys.{
  is_tkip, key_cipher, merge_wsec, wl_cfg80211_add_key, peer_of, wsec_key_of,
}
use broadcom_bcm4312_fix.Iw.Monad.{has, set_ioctl}
use broadcom_bcm4312_fix.State.{M, if_ok, key_arg, modify, pure, ◌>>=◌, ◌>>◌}
use broadcom_bcm4312_fix.Iovar.{wl_dev_intvar_get, wl_dev_intvar_set, wl_dev_ioctl}
use broadcom_bcm4312_fix.Connect.{key_size, set_sec}
use broadcom_bcm4312_fix.Headers.Commands.{set_key}
use broadcom_bcm4312_fix.Iw.Encode.{
  EncodeAlg, EncodeExt, alg_ccmp, alg_none, alg_other, alg_tkip, alg_wep, empty_key, ext_algo,
  ext_key, is_alg_tkip, wl_iw_set_encodeext,
}

-- The algorithms that both know.
abbrev pub is_shared : EncodeAlg → Bool
is_shared alg_none = false
is_shared alg_wep = true
is_shared alg_tkip = true
is_shared alg_ccmp = true
is_shared (alg_other n) = false

module _ (d : Driver) where
  -- The cipher suite for an algorithm and a length.
  abbrev pub suite_of : EncodeAlg → ℕ → Suite
  suite_of alg_none len = Suite.raw 0
  suite_of alg_wep len = if len == d.wep1_key_size then wep40 else wep104
  suite_of alg_tkip len = tkip
  suite_of alg_ccmp len = ccmp
  suite_of (alg_other n) len = Suite.raw n

  -- The same request to cfg80211: six bytes of a sequence counter, where the request has one.
  abbrev pub params_of : EncodeExt → KeyParams
  params_of ext = record {
    key = ext.key;
    key_len = ext.key_len;
    seq = ext.rx_seq;
    seq_len = if has ext.ext_flags d.ext_rx_seq_valid then 6 else 0;
    cipher = suite_of ext.alg ext.key_len;
  }

  -- What wl_cfg80211_add_key does once the key was accepted.
  abbrev key_accepted : Suite → ℕ → M Status
  key_accepted c secnew = wl_dev_intvar_get d.host wsec >>= λ (err, secval). if_ok err do
    wl_dev_intvar_set d.host wsec (merge_wsec secnew secval)
    modify (set_sec (λ s. record s { cipher_pairwise = c }))

  abbrev send_key : WsecKey → M Status
  send_key k = wl_dev_ioctl d.host set_key (key_arg k) (key_size d.host) >>= λ r. pure r.status

  -- wl_cfg80211_add_key begins by sending this key.
  abbrev pub AddsKey : ℕ → Addr → KeyParams → WsecKey → Type 0
  AddsKey i addr params k =
      (rest : M Status) × (wl_cfg80211_add_key d.host i (some addr) params ≡ (send_key k >> rest))

  known_key :
      (i : ℕ) (addr : Addr) (params : KeyParams) (algo secnew : ℕ)
      → key_cipher params.cipher ≡ some (algo, secnew)
      → ltb d.host.max_key_size params.key_len ≡ false
      → AddsKey i addr params (wsec_key_of d.host i (some addr) params algo)
  unfolding wl_cfg80211_add_key
  known_key i addr params algo secnew known short =
      (key_accepted params.cipher secnew, rw (wl_cfg80211_add_key, known, short) refl)

  same_key :
      (flags : ℕ) (ext : EncodeExt) (c : Suite) (algo : ℕ)
      → ext_algo d ext.alg ext.key_len ≡ algo
      → is_tkip c ≡ is_alg_tkip ext.alg
      → has ext.ext_flags d.ext_set_tx_key ≡ false
      → wsec_key_of d.host
          (bit_and flags d.encode_index - 1)
          (some ext.addr)
          (record (params_of ext) { cipher = c })
          algo
        ≡ ext_key d flags ext
  unfolding ext_key empty_key wsec_key_of peer_of
  same_key flags ext c algo same mic tx = elim (Bool-cases (has ext.ext_flags d.ext_rx_seq_valid)) [
    | inl valid ↦ rw (mic, tx, same, valid) refl
    | inr unset ↦ rw (mic, tx, same, unset) refl
  ]

  -- The two keys for a suite that cfg80211 knows.
  sent_key :
      (flags : ℕ) (ext : EncodeExt) (c : Suite) (algo secnew : ℕ)
      → suite_of ext.alg ext.key_len ≡ c
      → key_cipher c ≡ some (algo, secnew)
      → ext_algo d ext.alg ext.key_len ≡ algo
      → is_tkip c ≡ is_alg_tkip ext.alg
      → has ext.ext_flags d.ext_set_tx_key ≡ false
      → ltb d.host.max_key_size ext.key_len ≡ false
      → AddsKey (bit_and flags d.encode_index - 1) ext.addr (params_of ext) (ext_key d flags ext)
  sent_key flags ext c algo secnew suite known same mic tx short =
      subst
        (λ s.
          AddsKey (bit_and flags d.encode_index - 1) ext.addr
            (record (params_of ext) { cipher = s }) (ext_key d flags ext))
        (sym suite)
        (subst
          (AddsKey (bit_and flags d.encode_index - 1) ext.addr
            (record (params_of ext) { cipher = c }))
          (same_key flags ext c algo same mic tx)
          (known_key (bit_and flags d.encode_index - 1) ext.addr
            (record (params_of ext) { cipher = c }) algo secnew known short))

  sent_by_alg :
      (flags : ℕ) (ext : EncodeExt) (alg : EncodeAlg)
      → ext.alg ≡ alg
      → is_shared alg ≡ true
      → has ext.ext_flags d.ext_set_tx_key ≡ false
      → ltb d.host.max_key_size ext.key_len ≡ false
      → AddsKey (bit_and flags d.encode_index - 1) ext.addr (params_of ext) (ext_key d flags ext)
  unfolding key_cipher ext_algo
  sent_by_alg flags ext alg_none e h tx short = absurd (ground arith)
  sent_by_alg flags ext alg_wep e h tx short = elim (Bool-cases (ext.key_len == d.wep1_key_size)) [
    | inl is_wep1 ↦
        sent_key flags ext wep40 algo_wep1 wep_enabled (rw (e, is_wep1) refl) refl
          (rw (e, is_wep1) refl) (rw e refl) tx short
    | inr long ↦
        sent_key flags ext wep104 algo_wep128 wep_enabled (rw (e, long) refl) refl
          (rw (e, long) refl) (rw e refl) tx short
  ]
  sent_by_alg flags ext alg_tkip e h tx short =
      sent_key flags ext tkip algo_tkip tkip_enabled (rw e refl) refl (rw e refl) (rw e refl) tx
        short
  sent_by_alg flags ext alg_ccmp e h tx short =
      sent_key flags ext ccmp algo_aes_ccm aes_enabled (rw e refl) refl (rw e refl) (rw e refl) tx
        short
  sent_by_alg flags ext (alg_other n) e h tx short = absurd (ground arith)

-- For a WEP, TKIP or CCMP key that is not to become the transmit key, of a length from 1 to the room
-- for a key, wl_iw_set_encodeext sends one key to the device, and returns its answer;
-- wl_cfg80211_add_key, called for the same bytes, length, address and sequence counter, begins by
-- sending the same one.
pub set_encodeext-add_key :
    (d : Driver) (flags : ℕ) (ext : EncodeExt)
    → is_shared ext.alg ≡ true
    → has ext.ext_flags d.ext_set_tx_key ≡ false
    → (ext.key_len == 0) ≡ false
    → ltb d.host.max_key_size ext.key_len ≡ false
    → (k : WsecKey) × (wl_iw_set_encodeext d flags ext
        ≡ set_ioctl d set_key (key_arg k) (key_size d.host))
      × AddsKey d (bit_and flags d.encode_index - 1) ext.addr (params_of d ext) k
unfolding wl_iw_set_encodeext
set_encodeext-add_key d flags ext h tx given short =
    (ext_key d flags ext, rw (given, short) refl, sent_by_alg d flags ext ext.alg refl h tx short)
