-- ===== src/Power/Quarter.antt =====
-- The quarter-dBm words of the transmit power, written and read back.
use broadcom_bcm4312_fix.Prelude.{
  ==_iff, Bool, arith, bit_or, min, refl, suc, true, zero, ℕ, ◌&&◌, ◌*◌, ◌/◌, ◌<◌, ◌==◌, ◌^◌, ◌≡◌,
  ◌≤◌,
}
use broadcom_bcm4312_fix.Power.{dbm_of, qdbm_word}
use broadcom_bcm4312_fix.Headers.{txpwr_override}
use broadcom_bcm4312_fix.Prelude.Int.{pos}

-- Every quarter-dBm value that the driver sends, read back.
below : ℕ → (ℕ → Bool) → Bool
below zero p = true
below (suc n) p = p n && below n p

below_sound : (n : ℕ) (p : ℕ → Bool) (k : ℕ) → below n p ≡ true → k < n → p k ≡ true
unfolding below
below_sound zero p k h lt = absurd (omega arith)
below_sound (suc n) p k h lt = ground (arith, below_sound n p k)

read_back : (q : ℕ) → q ≤ 127 → dbm_of (bit_or q txpwr_override) ≡ q / 4
unfolding below dbm_of
read_back q h =
    (==_iff (dbm_of (bit_or q txpwr_override)) (q / 4)).0
      (below_sound 128 (λ k. dbm_of (bit_or k txpwr_override) == k / 4) q refl (omega arith))

-- A power that is not negative comes back from the word that wl_cfg80211_set_tx_power sends as
-- wl_cfg80211_get_tx_power reads it: unchanged up to 31 dBm, and as 31 dBm above.
dbm_of-qdbm_word : (n : ℕ) → n < 2 ^ 29 → dbm_of (qdbm_word (pos n)) ≡ min n 31
unfolding qdbm_word
dbm_of-qdbm_word n h = ground (arith, read_back (n * 4), read_back 127)
