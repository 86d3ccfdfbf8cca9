-- ===== src/Keys/Install.antt =====
-- The layout of a TKIP key in wl_cfg80211_add_key, and what wl_cfg80211_get_key reports.
use mathlib.Core.Path.{ap₂}
use broadcom_bcm4312_fix.Prelude.{
  Option, ap, append_assoc, arith, bit_and, drop, drop_append, false, length, length-append, ltb,
  memcpy, none, refl, some, suc, sym, take, take_all, take_append_left, zero, ℕ, ◌++◌, ◌↔◌, ◌∙◌,
  ◌≡◌, ◌≢◌, ◌≤◌,
}
use broadcom_bcm4312_fix.Iovar.{call, wl_dev_ioctl}
use broadcom_bcm4312_fix.Connect.{key_size, zero_key}
use broadcom_bcm4312_fix.Headers.{
  Bytes, Status, Suite, aes_cmac, ccmp, fail, int_size, ok, tkip, wep104, wep40,
}
use broadcom_bcm4312_fix.State.{Arg, Ioctl, Platform, World, if_ok, int_arg, key_arg, ◌>>=◌}
use broadcom_bcm4312_fix.Keys.{
  copy_key, key_cipher, report_key, reported_cipher, reported_len, swap_mic, wl_cfg80211_get_key,
}
use broadcom_bcm4312_fix.State.Total.{Total, total_rules}
use broadcom_bcm4312_fix.Headers.Commands.{get_key, get_wsec}
use broadcom_bcm4312_fix.Iovar.Total.{wl_dev_ioctl-Total}

-- wl_cfg80211_add_key exchanges the two 8-byte MIC keys behind the first 16 bytes of the key, and
-- changes no other byte of its buffer.
swap_mic_layout :
    (a b c d : Bytes)
    → length a ≡ 16
    → length b ≡ 8
    → length c ≡ 8
    → swap_mic (a ++ (b ++ (c ++ d))) ≡ a ++ (c ++ (b ++ d))
unfolding swap_mic memcpy
swap_mic_layout a b c d ha hb hc =
    rw (to16, to24, to32, upto24, first8 b (c ++ d) hb, first8 c d hc, take_all 8 c hc, regrouped)
      (rw (upto16, past24) refl)
  where
    regroup : (e f g : Bytes) → e ++ (f ++ g) ≡ (e ++ f) ++ g
    regroup e f g = sym (append_assoc e f g)

    first8 : (e f : Bytes) → length e ≡ 8 → take 8 (e ++ f) ≡ e
    first8 e f h = take_append_left 8 e f (omega arith) ∙ take_all 8 e h

    regrouped : (a ++ b) ++ (b ++ d) ≡ a ++ (b ++ (b ++ d))
    regrouped = append_assoc a b (b ++ d)

    upto16 : take 16 (a ++ (b ++ (b ++ d))) ≡ a
    upto16 = take_append_left 16 a (b ++ (b ++ d)) (omega arith) ∙ take_all 16 a ha

    past24 : drop 24 (a ++ (b ++ (b ++ d))) ≡ b ++ d
    past24 =
        ap (drop 24) (regroup a b (b ++ d))
        ∙ drop_append 24 (a ++ b) (b ++ d) (omega (arith, length-append a b))

    to16 : drop 16 (a ++ (b ++ (c ++ d))) ≡ b ++ (c ++ d)
    to16 = drop_append 16 a (b ++ (c ++ d)) ha

    to24 : drop 24 (a ++ (b ++ (c ++ d))) ≡ c ++ d
    to24 =
        ap (drop 24) (regroup a b (c ++ d))
        ∙ drop_append 24 (a ++ b) (c ++ d) (omega (arith, length-append a b))

    to32 : drop 32 (a ++ (b ++ (c ++ d))) ≡ d
    to32 =
        ap (drop 32) (ap (λ t. a ++ t) (regroup b c d) ∙ regroup a (b ++ c) d)
        ∙ drop_append 32 (a ++ (b ++ c)) d
            (omega (arith, length-append a (b ++ c), length-append b c))

    upto24 : take 24 (a ++ (b ++ (c ++ d))) ≡ a ++ b
    upto24 =
        ap (take 24) (regroup a b (c ++ d))
        ∙ take_append_left 24 (a ++ b) (c ++ d) (omega (arith, length-append a b))
        ∙ take_all 24 (a ++ b) (omega (arith, length-append a b))

-- The suite that wl_cfg80211_get_key reports for a key of a suite that wl_cfg80211_add_key installs.
abbrev pub read_back : Suite → Suite
read_back wep104 = wep40
read_back ccmp = aes_cmac
read_back s = s

-- With WLAN_CIPHER_SUITE_WEP40 and WLAN_CIPHER_SUITE_WEP104 at their documented values, for every suite
-- that wl_cfg80211_add_key installs and the wsec bit that it sets for it, wl_cfg80211_get_key
-- reports the suite itself, except that a WEP-104 key is reported as WEP-40 (the test is on common
-- bits of the two values) and a CCMP key as AES-CMAC.
reported_cipher-key_cipher :
    (x : Platform) (s : Suite) {algo sec : ℕ}
    → x.suite_bits wep40 ≡ 0x000FAC01
    → x.suite_bits wep104 ≡ 0x000FAC05
    → key_cipher s ≡ some (algo, sec)
    → reported_cipher x sec s ≡ some (read_back s)
unfolding reported_cipher key_cipher
reported_cipher-key_cipher x wep40 a b e = ground (arith, a, e, ap₂ bit_and a a)
reported_cipher-key_cipher x wep104 a b e = ground (arith, a, b, e, ap₂ bit_and b a)
reported_cipher-key_cipher x tkip a b e = ground arith
reported_cipher-key_cipher x ccmp a b e = ground arith
reported_cipher-key_cipher x aes_cmac a b e = ground arith
reported_cipher-key_cipher x (Suite.raw n) a b e = ground arith

-- The call with which wl_cfg80211_get_key asks for a key.
abbrev pub key_request : Platform → ℕ → Ioctl
key_request x key_idx = record {
  cmd = get_key;
  arg = key_arg (record (zero_key x.max_key_size) { index = key_idx });
  len = key_size x;
}

module _ (x : Platform) where
  wsec-Total : Total (wl_dev_ioctl x get_wsec (int_arg 0) int_size)
  wsec-Total = wl_dev_ioctl-Total x get_wsec (int_arg 0) int_size (omega arith)

  report_key-Total : (key : Option Bytes) (n : ℕ) → Total (report_key x key n)
  unfolding report_key
  report_key-Total key n = search (total_rules, wsec-Total) depth 12

  -- The status and the length of the key that was read.
  after_request :
      (st : Status) (octets : Bytes) (n : ℕ) (w : World)
      → (if_ok st (copy_key none octets n >>= λ key. report_key x key n) w ≡ none)
        ↔ ((st ≡ ok) × (n ≢ 0))
  unfolding copy_key
  after_request ok octets zero w =
      (λ e. absurd ((report_key-Total none zero).returns w e), λ (s, long). absurd (long refl))
  after_request ok octets (suc n) w = (λ e. (refl, λ z. omega arith), λ h. refl)
  after_request (fail err) octets n w = (λ e. ground (arith, e), λ h. ground (arith, h))

  long_ioctl :
      (cmd : ℕ) (arg : Arg) (len : ℕ)
      → int_size ≤ len
      → wl_dev_ioctl x cmd arg len ≡ call x cmd arg len
  unfolding wl_dev_ioctl
  long_ioctl cmd arg len h = rw (not_short len h) refl
    where
      not_short : (len : ℕ) → int_size ≤ len → ltb len int_size ≡ false
      not_short len h = ground (arith, h)

  -- wl_cfg80211_get_key stops the kernel just when the firmware hands out a key whose length, as the
  -- code cuts it to a byte and to DOT11_MAX_KEY_SIZE, is not 0: the key is copied to a NULL pointer.
  -- Otherwise it returns.
  wl_cfg80211_get_key_crash :
      (key_idx : ℕ) (w : World)
      → (wl_cfg80211_get_key x key_idx w ≡ none) ↔ (
          ((x.reply w.log (key_request x key_idx)).status ≡ ok)
          × (reported_len x (x.reply w.log (key_request x key_idx)).wsec_key.len ≢ 0))
  unfolding wl_cfg80211_get_key call
  wl_cfg80211_get_key_crash key_idx w =
      let r = x.reply w.log (key_request x key_idx) in
      rw (long_ioctl get_key (key_request x key_idx).arg (key_size x) (omega arith))
        (after_request r.status r.wsec_key.key_data (reported_len x r.wsec_key.len) _)
