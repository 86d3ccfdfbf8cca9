-- ===== src/Scan/Target.antt =====
-- The SSID that a scan request looks for.
use broadcom_bcm4312_fix.Prelude.{
  Bool-cases, arith, inl, inr, length, length-memcpy, min, refl, replicate, some, take,
  take-memcpy_start, true, ℕ, ◌%◌, ◌==◌, ◌↔◌, ◌≡◌, ◌≤◌,
}
use broadcom_bcm4312_fix.Headers.{Ssid}
use broadcom_bcm4312_fix.Scan.{scan_ssid}

zero_length : (n : ℕ) → (min 32 (n % 256) == 0) ≡ true → (n ≤ 32) ↔ (0 ≡ n)
zero_length n h = (λ small. ground (arith, h, small), λ none_left. omega (arith, none_left))

-- For every request with an SSID that has its announced number of bytes, what wl_cfg80211_scan
-- stores is an array of 32 bytes with a length of at most 32, and begins with the bytes of the
-- request up to that length, which is the request's own length just where that is at most 32.
pub scan_ssid_fits :
    (s : Ssid)
    → s.ssid_len ≤ length s.ssid
    → ((scan_ssid (some s)).ssid_len ≤ 32)
      × (length (scan_ssid (some s)).ssid ≡ 32)
      × (take (scan_ssid (some s)).ssid_len (scan_ssid (some s)).ssid
          ≡ take (scan_ssid (some s)).ssid_len s.ssid)
      × ((s.ssid_len ≤ 32) ↔ ((scan_ssid (some s)).ssid_len ≡ s.ssid_len))
unfolding scan_ssid
scan_ssid_fits s enough = elim (Bool-cases (min 32 (s.ssid_len % 256) == 0)) [
  | inl empty ↦ rw empty (omega arith, refl, refl, zero_length s.ssid_len empty)
  | inr named ↦ rw named (
    omega arith,
    length-memcpy (replicate 32 0) 0 s.ssid (min 32 (s.ssid_len % 256)) (omega arith)
        (omega (arith, enough)),
    take-memcpy_start (replicate 32 0) s.ssid _ (omega (arith, enough)),
    (λ h. omega (arith, h), λ h. omega (arith, h)),
  )
]
