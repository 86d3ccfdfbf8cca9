-- ===== src/Pmk/Table.antt =====
-- The PMKSA table as a map from addresses.
use broadcom_bcm4312_fix.Prelude.{
  Bool-cases, List, Option, Option-cases, [], ap, arith, false, get_elem?, if◌then◌else◌, inl, inr,
  length, ltb, none, refl, set, some, suc, sym, true, zero, ℕ, ◌+◌, ◌-◌, ◌<◌, ◌==◌, ◌∙◌, ◌∷◌, ◌≡◌,
  ◌≤◌, ◌⊎◌,
}
use broadcom_bcm4312_fix.Headers.{Addr, Bytes, Pmkid, maxpmkid}
use broadcom_bcm4312_fix.State.{PmkList}
use broadcom_bcm4312_fix.Pmk.{find_from, find_pmkid, put_pmkid, same_bytes, shift_down}

-- The entries that the allocation of struct wl_cfg80211_pmk_list has room for.
abbrev pub pmk_slots : ℕ
pmk_slots = maxpmkid - 1

abbrev pub IsValidList : PmkList → Type 0
IsValidList l = (l.npmkid ≤ pmk_slots) × (length l.pmkid ≡ pmk_slots)

-- The entry for an address among the first `n`.
abbrev pub lookup_in : List Pmkid → ℕ → Addr → Option Pmkid
lookup_in entries zero b = none
lookup_in [] (suc n) b = none
lookup_in (e ∷ entries) (suc n) b =
    let rest = lookup_in entries n b in if same_bytes b e.bssid then some e else rest

abbrev pub lookup : PmkList → Addr → Option Pmkid
lookup l b = lookup_in l.pmkid l.npmkid b

pub same_bytes_sound : (a b : Bytes) → same_bytes a b ≡ true → a ≡ b
unfolding same_bytes
same_bytes_sound [] [] h = refl
same_bytes_sound [] (b ∷ bs) h = grind arith
same_bytes_sound (a ∷ as') [] h = grind arith
same_bytes_sound (a ∷ as') (b ∷ bs) h = grind (arith, same_bytes_sound as' bs)

same_bytes_refl : (a : Bytes) → same_bytes a a ≡ true
unfolding same_bytes
same_bytes_refl [] = refl
same_bytes_refl (a ∷ as') = ground (arith, same_bytes_refl as')

same_bytes_apart :
    (a b c : Bytes) → same_bytes a b ≡ false → same_bytes c a ≡ true → same_bytes c b ≡ false
same_bytes_apart a b c h e = elim (Bool-cases (same_bytes c b)) [
  | inr missed ↦ missed
  | inl found ↦
      let q = sym (same_bytes_sound c a e) ∙ same_bytes_sound c b found in
      let r = ap (same_bytes a) q in ground (arith, same_bytes_refl a)
]

pub find_from-suc :
    (es : List Pmkid) (b : Addr) (n i : ℕ) → find_from es b n (i + 1) ≡ find_from es b n i + 1
unfolding find_from
find_from-suc es b zero i = refl
find_from-suc [] b (suc n) i = omega arith
find_from-suc (e ∷ es) b (suc n) i = ground (arith, find_from-suc es b n (i + 1))

pub find_from-le : (es : List Pmkid) (b : Addr) (n : ℕ) → find_from es b n 0 ≤ n
unfolding find_from
find_from-le es b zero = omega arith
find_from-le [] b (suc n) = omega arith
find_from-le (e ∷ es) b (suc n) = ground (arith, find_from-suc es b n 0, find_from-le es b n)

put_lookup :
    (es : List Pmkid) (n : ℕ) (e : Pmkid) (b : Addr)
    → find_from es e.bssid n 0 < length es
    → let i = find_from es e.bssid n 0 in
      lookup_in (set es i e) (if i == n then n + 1 else n) b
      ≡ (if same_bytes b e.bssid then some e else lookup_in es n b)
unfolding find_from
put_lookup [] n e b lt = absurd (omega arith)
put_lookup (a ∷ es) zero e b lt = ground arith
put_lookup (a ∷ es) (suc n) e b lt = elim (Bool-cases (same_bytes e.bssid a.bssid)) [
  | inl same ↦ ground (arith, same, ap (same_bytes b) (same_bytes_sound e.bssid a.bssid same))
  | inr apart ↦ ground (
    arith,
    apart,
    find_from-suc es e.bssid n 0,
    find_from-le es e.bssid n,
    put_lookup es n e b,
    same_bytes_apart e.bssid a.bssid b apart,
  )
]

pub length-set : (es : List Pmkid) (i : ℕ) (e : Pmkid) → length (set es i e) ≡ length es
length-set [] i e = ground arith
length-set (a ∷ es) zero e = refl
length-set (a ∷ es) (suc i) e = ground (arith, length-set es i e)

pub length-shift_down : (left i : ℕ) (es : List Pmkid) → length (shift_down left i es) ≡ length es
unfolding shift_down
length-shift_down zero i es = refl
length-shift_down (suc left) i es = elim (Option-cases (get_elem? es (i + 1))) [
  | inl e ↦ rw e (length-shift_down left (i + 1) es)
  | inr (a, e) ↦ rw e (length-shift_down left (i + 1) (set es i a) ∙ length-set es i a)
]

abbrev pub Stored : PmkList → Pmkid → Option PmkList → Type 0
Stored l e none = ⊥
Stored l e (some l') =
    ((find_pmkid l e.bssid < pmk_slots)
      × IsValidList l'
      × ((b : Addr) → lookup l' b ≡ (if same_bytes b e.bssid then some e else lookup l b)))
    ⊎ ((l.npmkid ≡ pmk_slots) × (find_pmkid l e.bssid ≡ pmk_slots) × (l'.npmkid ≡ maxpmkid))

-- Storing an entry into a well-formed table, of at most the 15 entries that its allocation has room
-- for, never fails. Where the entry's address is in the table or the table has room, the new table is
-- well formed, and looking any address up in it finds the new entry for its own address and what the
-- old table had for every other one. A full table without the address is accepted too: its
-- count becomes MAXPMKID, one more than there is room for.
pub put_pmkid_refines : (l : PmkList) (e : Pmkid) → IsValidList l → Stored l e (put_pmkid l e)
unfolding put_pmkid find_pmkid
put_pmkid_refines l e (small, full) = rw (accepted) (elim (Bool-cases (ltb i pmk_slots)) [
  | inl found ↦ inl (
    ground (arith, found),
    (ground (arith, bound, found), length-set l.pmkid i e ∙ full),
    λ b. put_lookup l.pmkid l.npmkid e b (ground (arith, found)),
  )
  | inr missed ↦
      inr (omega (arith, last missed), omega (arith, last missed), ground (arith, last missed))
])
  where
    i : ℕ
    i = find_from l.pmkid e.bssid l.npmkid 0

    bound : find_from l.pmkid e.bssid l.npmkid 0 ≤ l.npmkid
    bound = find_from-le l.pmkid e.bssid l.npmkid

    accepted : ltb (find_from l.pmkid e.bssid l.npmkid 0) maxpmkid ≡ true
    accepted = ground (arith, bound)

    last :
        ltb (find_from l.pmkid e.bssid l.npmkid 0) pmk_slots ≡ false
        → (find_from l.pmkid e.bssid l.npmkid 0 ≡ pmk_slots) × (l.npmkid ≡ pmk_slots)
    last h = ground (arith, h, bound)
