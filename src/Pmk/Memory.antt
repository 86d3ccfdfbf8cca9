-- ===== src/Pmk/Memory.antt =====
-- Where the entries of the PMKSA table lie in struct wl_cfg80211_pmk_list, whose `pmkid` is a
-- flexible array with the space of MAXPMKID - 1 entries declared behind it.
use native.Mathlib.Nat.{mul-le-mul_right}
use broadcom_bcm4312_fix.Prelude.{
  Bool-cases, arith, false, inl, inr, ltb, set, some, ℕ, ◌*◌, ◌+◌, ◌-◌, ◌/◌, ◌<◌, ◌↔◌, ◌≡◌, ◌≤◌,
}
use broadcom_bcm4312_fix.Headers.{Pmkid, maxpmkid}
use broadcom_bcm4312_fix.State.{Platform, PmkList}
use broadcom_bcm4312_fix.Pmk.{find_pmkid, pmk_list_size, pmkid_size, put_pmkid}

entries_fit : (n s : ℕ) → 6 ≤ s → n < 16 → (4 + (n + 1) * s ≤ (4 + 15 * s + 3) / 4 * 4) ↔ (n < 15)
entries_fit n s wide room = (
  λ h. elim (Bool-cases (ltb n 15)) [
    | inl below ↦ ground (arith, below)
    | inr above ↦ absurd (omega (arith, mul-le-mul_right s (the_last n above), h))
  ],
  λ h. omega (arith, mul-le-mul_right s h),
)
  where
    the_last : (n : ℕ) → ltb n 15 ≡ false → 16 ≤ n + 1
    the_last n h = ground (arith, h)

module _ (x : Platform) where
  -- The end of an entry: `npmkid` comes first.
  abbrev pub entry_end : ℕ → ℕ
  entry_end i = 4 + (i + 1) * pmkid_size x

  -- In a table that holds MAXPMKID - 1 entries, none of them for the entry's address,
  -- wl_cfg80211_set_pmksa stores the entry, and the place where it lies ends behind the
  -- sizeof(struct wl_cfg80211_pmk_list) bytes that were allocated. With fewer entries the place
  -- ends within them.
  pub put_pmkid_overflows :
      (l : PmkList) (e : Pmkid)
      → find_pmkid l e.bssid ≡ l.npmkid
      → l.npmkid < maxpmkid
      → (put_pmkid l e ≡ some (record { npmkid = l.npmkid + 1; pmkid = set l.pmkid l.npmkid e }))
        × ((entry_end l.npmkid ≤ pmk_list_size x) ↔ (l.npmkid < maxpmkid - 1))
  unfolding put_pmkid
  put_pmkid_overflows l e new room =
      (ground (arith, new), entries_fit l.npmkid (pmkid_size x) (omega arith) room)
