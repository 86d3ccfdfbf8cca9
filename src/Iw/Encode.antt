-- ===== src/Iw/Encode.antt =====
-- Keys: wl_iw_set_encode, wl_iw_get_encode, wl_iw_set_encodeext and wl_iw_get_encodeext
-- (src/wl/sys/wl_iw.c). swap_key_from_BE and swap_key_to_BE change nothing, as htod32 does.
pub mod Agreement
use broadcom_bcm4312_fix.Prelude.{
  Bool, Option, bit_and, bit_or, false, if◌then◌else◌, ltb, memcpy, min, none, not, replicate, some,
  suc, take, true, zero, ℕ, ◌+◌, ◌-◌, ◌==◌, ◌||◌,
}
use broadcom_bcm4312_fix.Iw.{Driver}
use broadcom_bcm4312_fix.Connect.{key_size, zero_key}
use broadcom_bcm4312_fix.Headers.{
  Addr, Bytes, WsecKey, aes_enabled, algo_aes_ccm, algo_off, algo_tkip, algo_wep1, algo_wep128,
  int_size, primary_key, tkip_enabled, wep_enabled, wsec, zero_addr,
}
use broadcom_bcm4312_fix.State.{int_arg, key_arg}
use broadcom_bcm4312_fix.Keys.{rxiv_of, swap_mic}
use broadcom_bcm4312_fix.Iw.Monad.{
  IwM, dev_wlc_intvar_set, dev_wlc_ioctl, has, is_zero, neg_einval, pure, set_ioctl, unless_error,
  ◌>>=◌, ◌>>◌,
}
use broadcom_bcm4312_fix.Headers.Commands.{
  get_auth, get_key_primary, get_wsec, set_auth, set_key, set_key_primary,
}
use broadcom_bcm4312_fix.Prelude.Int.{pos, ℤ}

-- IW_ENCODE_ALG_*
pub data EncodeAlg : Type 0 where
  alg_none alg_wep alg_tkip alg_ccmp : EncodeAlg
  alg_other : ℕ → EncodeAlg

-- struct iw_encode_ext
pub record EncodeExt : Type 0 where
  pub ext_flags : ℕ
  pub addr : Addr
  pub alg : EncodeAlg
  pub key_len : ℕ
  pub key : Bytes
  pub rx_seq : Bytes

abbrev pub is_alg_tkip : EncodeAlg → Bool
is_alg_tkip alg_tkip = true
is_alg_tkip _ = false

module _ (d : Driver) where
  -- `for (key.index = 0; ...)`: the first index, from `i` on and with `left` rounds to go, for which
  -- the firmware answers with a word other than 0, or where the loop ends.
  unfoldable pub primary_from : ℕ → ℕ → IwM (ℤ × ℕ)
  primary_from zero i = pure (pos 0, i)
  primary_from (suc left) i = dev_wlc_ioctl d get_key_primary (int_arg i) int_size >>= λ r.
      let rest = primary_from left (i + 1) in
      if not (is_zero r.status)
      then pure (r.status, i)
      else if r.value == 0
      then rest
      else pure (pos 0, i)

  -- The index that the flags name, or that of the primary key, where `none` is -EINVAL.
  unfoldable pub key_index : ℕ → IwM (ℤ × Option ℕ)
  key_index flags =
      let named = bit_and flags d.encode_index in
      if named == 0
      then (primary_from d.max_default_keys 0 >>= λ (error, i).
          pure (error, some (if i == d.max_default_keys then 0 else i)))
      else pure (pos 0, if ltb (named - 1) d.max_default_keys then some (named - 1) else none)

  -- The algorithm for a length.
  unfoldable pub algo_of_len : ℕ → Option ℕ
  algo_of_len len =
      if len == d.wep1_key_size
      then some algo_wep1
      else if len == d.wep128_key_size
      then some algo_wep128
      else if len == d.tkip_key_size
      then some algo_tkip
      else if len == d.aes_key_size
      then some algo_aes_ccm
      else none

  -- A key of a known length is installed as the primary key.
  unfoldable pub install_key : ℕ → Bytes → ℕ → IwM ℤ
  install_key i extra len =
      if ltb d.host.max_key_size len then pure neg_einval else elim (algo_of_len len) [
        | none ↦ pure neg_einval
        | some algo ↦
            set_ioctl d set_key
              (key_arg (record (zero_key d.host.max_key_size) {
                index = i;
                len = len;
                key_data = memcpy (replicate d.host.max_key_size 0) 0 extra len;
                flags = primary_key;
                algo = algo;
              }))
              (key_size d.host)
      ]

  -- No key is a change of the primary key.
  unfoldable pub key_or_index : ℕ → Option Bytes → ℕ → ℕ → IwM ℤ
  key_or_index i none len flags = set_ioctl d set_key_primary (int_arg i) int_size
  key_or_index i (some extra) len flags =
      if (len == 0) || has flags d.encode_nokey
      then set_ioctl d set_key_primary (int_arg i) int_size
      else install_key i extra len

  unfoldable pub wl_iw_set_encode : ℕ → ℕ → Option Bytes → IwM ℤ
  wl_iw_set_encode flags len extra = key_index flags >>= λ (error, index).
      unless_error error (elim index [
        | none ↦ pure neg_einval
        | some i ↦ do
          dev_wlc_intvar_set d wsec (if has flags d.encode_disabled then 0 else wep_enabled)
          key_or_index i extra len flags
          set_ioctl d set_auth (int_arg (if has flags d.encode_restricted then 1 else 0)) int_size
      ])

  unfoldable pub capped : ℕ → ℕ
  capped i = if ltb i d.max_default_keys then i else 0

  -- The index that is reported: one out of range is 0.
  unfoldable pub reported_index : ℕ → IwM (ℤ × ℕ)
  reported_index flags =
      let named = bit_and flags d.encode_index in
      if named == 0
      then (primary_from d.max_default_keys 0 >>= λ (error, i). pure (error, capped i))
      else pure (pos 0, capped (named - 1))

  -- The flags for an index, a wsec word and an authentication.
  unfoldable pub reported_flags : ℕ → ℕ → ℕ → ℕ
  reported_flags i wsec_val auth_val =
      let enabled = has wsec_val (wep_enabled + tkip_enabled + aes_enabled) in
      let flags = if enabled then i + 1 else bit_or (i + 1) d.encode_disabled in
      if auth_val == 0 then flags else bit_or flags d.encode_restricted

  -- The flags, the length and the bytes of the key. The key was cleared and is not read from the
  -- firmware; the bytes are copied where there are any.
  unfoldable pub wl_iw_get_encode : ℕ → IwM (ℤ × Option (ℕ × (ℕ × Bytes)))
  wl_iw_get_encode flags = reported_index flags >>= λ (error, i).
      if not (is_zero error)
      then pure (error, none)
      else (dev_wlc_ioctl d get_wsec (int_arg 0) int_size >>= λ r.
          if not (is_zero r.status)
          then pure (r.status, none)
          else (dev_wlc_ioctl d get_auth (int_arg 0) int_size >>= λ s.
              if not (is_zero s.status)
              then pure (s.status, none)
              else (let k = record (zero_key d.host.max_key_size) { index = i } in
                  let len = min d.encoding_token_max k.len in
                  pure (
                    pos 0,
                    some (reported_flags k.index r.value s.value, (len, take len k.key_data)),
                  ))))

  unfoldable pub ext_algo : EncodeAlg → ℕ → ℕ
  ext_algo alg_none len = algo_off
  ext_algo alg_wep len = if len == d.wep1_key_size then algo_wep1 else algo_wep128
  ext_algo alg_tkip len = algo_tkip
  ext_algo alg_ccmp len = algo_aes_ccm
  ext_algo (alg_other n) len = 0

  -- The key with its index, its length and its address alone.
  unfoldable pub empty_key : ℕ → EncodeExt → WsecKey
  empty_key flags ext =
      let named = bit_and flags d.encode_index in
      record (zero_key d.host.max_key_size) {
        index = named - 1;
        len = ext.key_len;
        ea = if d.host.is_multi ext.addr then zero_addr else ext.addr;
      }

  -- The key that is installed, for a length that was checked.
  unfoldable pub ext_key : ℕ → EncodeExt → WsecKey
  ext_key flags ext =
      let copied = memcpy (replicate d.host.max_key_size 0) 0 ext.key ext.key_len in
      let has_iv = has ext.ext_flags d.ext_rx_seq_valid in
      record (empty_key flags ext) {
        flags = if has ext.ext_flags d.ext_set_tx_key then primary_key else 0;
        key_data = if is_alg_tkip ext.alg then swap_mic copied else copied;
        rxiv_hi = if has_iv then (rxiv_of ext.rx_seq).0 else 0;
        rxiv_lo = if has_iv then (rxiv_of ext.rx_seq).1 else 0;
        iv_initialized = has_iv;
        algo = ext_algo ext.alg ext.key_len;
      }

  -- No key changes the primary key, or removes a key, where a failure is dropped.
  unfoldable pub wl_iw_set_encodeext : ℕ → EncodeExt → IwM ℤ
  wl_iw_set_encodeext flags ext =
      if ext.key_len == 0
      then (if has ext.ext_flags d.ext_set_tx_key
          then set_ioctl d set_key_primary (int_arg (empty_key flags ext).index) int_size
          else set_ioctl d set_key (key_arg (empty_key flags ext)) (key_size d.host) >>= λ _.
              pure (pos 0))
      else if ltb d.host.max_key_size ext.key_len
      then pure neg_einval
      else set_ioctl d set_key (key_arg (ext_key flags ext)) (key_size d.host)

  unfoldable pub wl_iw_get_encodeext : IwM ℤ
  wl_iw_get_encodeext = pure (pos 0)
