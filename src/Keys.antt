-- ===== src/Keys.antt =====
-- wl_cfg80211_add_key, wl_cfg80211_del_key, wl_cfg80211_get_key and
-- wl_cfg80211_config_default_key (src/wl/sys/wl_cfg80211_hybrid.c).
pub mod Install
use broadcom_bcm4312_fix.Prelude.{
  Bool, Option, [], bit_and, bit_or, drop, false, get_or, if◌then◌else◌, is_some, ltb, memcpy, min,
  none, not, replicate, some, suc, take, true, zero, ℕ, ◌%◌, ◌*◌, ◌+◌, ◌==◌, ◌^◌,
}
use broadcom_bcm4312_fix.Iovar.{wl_dev_intvar_get, wl_dev_intvar_set, wl_dev_ioctl}
use broadcom_bcm4312_fix.Connect.{clear_bits, key_size, set_sec, zero_key}
use broadcom_bcm4312_fix.Headers.{
  Addr, Bytes, KeyParams, Status, Suite, WsecKey, aes_cmac, aes_enabled, algo_aes_ccm, algo_off,
  algo_tkip, algo_wep1, algo_wep128, ccmp, einval, fail, int_size, ok, tkip, tkip_enabled, wep104,
  wep40, wep_enabled, wsec, zero_addr,
}
use broadcom_bcm4312_fix.State.{
  M, Platform, bug, emit, get, if_ok, int_arg, key_arg, key_callback, modify, on_option, pure,
  ◌>>=◌, ◌>>◌,
}
use broadcom_bcm4312_fix.Headers.Commands.{get_key, get_wsec, set_key, set_key_primary}

-- The exchange of the two MIC keys of a TKIP key, through `keybuf`.
unfoldable pub swap_mic : Bytes → Bytes
swap_mic key_data =
    let keybuf = take 8 (drop 24 key_data) in
    memcpy (memcpy key_data 24 (drop 16 key_data) 8) 16 keybuf 8

-- The algorithm and the wsec bit of the first switch; `none` is its default.
unfoldable pub key_cipher : Suite → Option (ℕ × ℕ)
key_cipher wep40 = some (algo_wep1, wep_enabled)
key_cipher wep104 = some (algo_wep128, wep_enabled)
key_cipher tkip = some (algo_tkip, tkip_enabled)
key_cipher aes_cmac = some (algo_aes_ccm, aes_enabled)
key_cipher ccmp = some (algo_aes_ccm, aes_enabled)
key_cipher (Suite.raw n) = none

abbrev pub is_tkip : Suite → Bool
is_tkip tkip = true
is_tkip _ = false

-- The replay counter, from the bytes of `seq`, lowest first.
unfoldable pub rxiv_of : Bytes → ℕ × ℕ
rxiv_of iv =
    let b = λ (i : ℕ). get_or iv i 0 in
    (
      bit_or (bit_or (bit_or (b 5 * 2 ^ 24) (b 4 * 2 ^ 16)) (b 3 * 2 ^ 8)) (b 2),
      bit_or (b 1 * 2 ^ 8) (b 0),
    )

-- The bits that the new key leaves in the wsec word, with its own.
unfoldable pub merge_wsec : ℕ → ℕ → ℕ
merge_wsec secnew secval =
    let others =
      if secnew == wep_enabled
      then clear_bits secval (tkip_enabled + aes_enabled)
      else clear_bits secval wep_enabled in
    bit_or others secnew

-- memcpy to a pointer, `none` for NULL, where not a byte can be written.
unfoldable pub copy_key : Option Bytes → Bytes → ℕ → M (Option Bytes)
copy_key none octets zero = pure none
copy_key none octets (suc n) = bug
copy_key (some dest) octets n = pure (some (memcpy dest 0 octets n))

module _ (x : Platform) where
  -- A multicast address is not stored.
  unfoldable pub peer_of : Option Addr → Addr
  peer_of none = zero_addr
  peer_of (some a) = if x.is_multi a then zero_addr else a

  -- The key as it is sent, for parameters whose length was checked.
  unfoldable pub wsec_key_of : ℕ → Option Addr → KeyParams → ℕ → WsecKey
  wsec_key_of key_idx mac params algo =
      let copied = memcpy (replicate x.max_key_size 0) 0 params.key params.key_len in
      let has_iv = not (params.seq_len == 0) in
      record {
        index = key_idx;
        len = params.key_len;
        key_data = if is_tkip params.cipher then swap_mic copied else copied;
        algo = algo;
        flags = 0;
        iv_initialized = has_iv;
        rxiv_hi = if has_iv then (rxiv_of params.seq).0 else 0;
        rxiv_lo = if has_iv then (rxiv_of params.seq).1 else 0;
        ea = peer_of mac;
      }

  -- `schedule()`, called for a passive device, has no effect here.
  unfoldable pub wl_cfg80211_add_key : ℕ → Option Addr → KeyParams → M Status
  wl_cfg80211_add_key key_idx mac params = elim (key_cipher params.cipher) [
    | none ↦ pure (fail einval)
    | some (algo, secnew) ↦ if ltb x.max_key_size params.key_len then pure (fail einval) else do
      wl_dev_ioctl x set_key (key_arg (wsec_key_of key_idx mac params algo)) (key_size x) >>= λ r.
          pure r.status
      wl_dev_intvar_get x wsec >>= λ (err, secval). if_ok err do
        wl_dev_intvar_set x wsec (merge_wsec secnew secval)
        modify (
            set_sec (λ s.
              if is_some mac
              then record s { cipher_pairwise = params.cipher }
              else record s { cipher_group = params.cipher }))
  ]

  unfoldable pub wl_cfg80211_del_key : ℕ → Option Addr → M Status
  wl_cfg80211_del_key key_idx mac =
      wl_dev_ioctl x set_key
        (key_arg
          (record (zero_key x.max_key_size) { index = key_idx; algo = algo_off; ea = peer_of mac }))
        (key_size x)
      >>= λ r. pure r.status

  -- The status of the call is dropped.
  unfoldable pub wl_cfg80211_config_default_key : ℕ → M Status
  wl_cfg80211_config_default_key key_idx =
      wl_dev_ioctl x set_key_primary (int_arg key_idx) int_size >>= λ _. pure ok

  -- The suite that is reported for a wsec word; `none` is the default of the switch.
  unfoldable pub reported_cipher : ℕ → Suite → Option Suite
  reported_cipher wsec_val pairwise =
      if wsec_val == wep_enabled
      then (if not (bit_and (x.suite_bits pairwise) (x.suite_bits wep40) == 0)
          then some wep40
          else if not (bit_and (x.suite_bits pairwise) (x.suite_bits wep104) == 0)
          then some wep104
          else some (Suite.raw 0))
      else if wsec_val == tkip_enabled
      then some tkip
      else if wsec_val == aes_enabled
      then some aes_cmac
      else none

  -- `min_t(u8, DOT11_MAX_KEY_SIZE, key.len)`
  unfoldable pub reported_len : ℕ → ℕ
  reported_len len = min (x.max_key_size % 256) (len % 256)

  -- What follows the copy of the key to `params.key`, a pointer, with `params.key_len`.
  unfoldable pub report_key : Option Bytes → ℕ → M Status
  report_key key len = wl_dev_ioctl x get_wsec (int_arg 0) int_size >>= λ s. if_ok s.status (
      get >>= λ p.
      on_option (reported_cipher s.value p.profile.sec.cipher_pairwise) (pure (fail einval))
        (λ suite. emit (
          key_callback (record {
            key = elim key [ none ↦ [] | some bytes ↦ bytes ];
            key_len = len;
            seq = [];
            seq_len = 0;
            cipher = suite;
          }))))

  -- `params` is cleared, so that `params.key` is NULL.
  unfoldable pub wl_cfg80211_get_key : ℕ → M Status
  wl_cfg80211_get_key key_idx =
      wl_dev_ioctl x get_key (key_arg (record (zero_key x.max_key_size) { index = key_idx }))
        (key_size x)
      >>= λ r. if_ok r.status (
          copy_key none r.wsec_key.key_data (reported_len r.wsec_key.len) >>= λ key.
          report_key key (reported_len r.wsec_key.len))
