-- ===== src/Iw/Pmksa/Missing.antt =====
-- IW_PMKSA_REMOVE of wl_iw_set_pmksa (src/wl/sys/wl_iw.c), for an address with an entry and without.
use broadcom_bcm4312_fix.Prelude.{
  Bool, Bool-cases, List, [], ap, arith, false, get_or, inl, inr, length, ltb, refl, set, suc, take,
  true, zero, ℕ, ◌%◌, ◌+◌, ◌-◌, ◌<◌, ◌^◌, ◌∙◌, ◌∷◌, ◌≡◌, ◌≤◌,
}
use broadcom_bcm4312_fix.Iw.{Driver}
use broadcom_bcm4312_fix.Headers.{Addr, Pmkid}
use broadcom_bcm4312_fix.State.{PmkList}
use broadcom_bcm4312_fix.Pmk.{find_from, find_pmkid, same_bytes}
use broadcom_bcm4312_fix.Iw.Pmksa.{pmksa_removed, pmksa_shift}
use broadcom_bcm4312_fix.Pmk.Removal.{erase, live}
use broadcom_bcm4312_fix.Pmk.Table.{find_from-suc}

shift-cons :
    (stray : ℕ → Pmkid) (left i : ℕ) (a : Pmkid) (es : List Pmkid)
    → pmksa_shift stray left (i + 1) (a ∷ es) ≡ a ∷ pmksa_shift (λ k. stray (k + 1)) left i es
unfolding pmksa_shift
shift-cons stray zero i a es = refl
shift-cons stray (suc left) i a es =
    ground
      (arith, shift-cons stray left (i + 1) a (set es i (get_or es (i + 1) (stray (i + 1 + 1)))))

shift_all :
    (stray : ℕ → Pmkid) (m : ℕ) (z : Pmkid) (es : List Pmkid)
    → m ≤ length es
    → take m (pmksa_shift stray (suc m) 0 (z ∷ es)) ≡ take m es
unfolding pmksa_shift
shift_all stray zero z es h = refl
shift_all stray (suc m) z [] h = absurd (omega arith)
shift_all stray (suc m) z (r ∷ es) h =
    ap (take (suc m)) (shift-cons stray (suc m) 0 r (r ∷ es))
    ∙ ap (λ t. r ∷ t) (shift_all (λ k. stray (k + 1)) m r es (omega arith))

one_more :
    (stray : ℕ → Pmkid) (left i : ℕ) (es : List Pmkid)
    → pmksa_shift stray left (suc i) es ≡ pmksa_shift stray left (i + 1) es
one_more stray left i es = ap (λ k. pmksa_shift stray left k es) (omega arith)

-- `i` is where the entry stands, and `left` entries stand behind it.
shift_erases :
    (stray : ℕ → Pmkid) (es : List Pmkid) (m : ℕ) (b : Addr) (i left : ℕ)
    → m < length es
    → find_from es b (suc m) 0 ≡ i
    → i + left ≡ m
    → take m (pmksa_shift stray (suc left) i es) ≡ erase b (take (suc m) es)
unfolding find_from
shift_erases stray [] m b i left fits at_i total = absurd (omega arith)
shift_erases stray (a ∷ es) m b zero left fits at_i total =
    elim (Bool-cases (same_bytes b a.bssid)) [
      | inl same ↦ rw same (
          ap (λ k. take m (pmksa_shift stray (suc k) 0 (a ∷ es))) (omega arith)
          ∙ shift_all stray m a es (omega arith))
      | inr apart ↦ ground (arith, apart, at_i, find_from-suc es b m 0)
    ]
shift_erases stray (a ∷ es) zero b (suc i) left fits at_i total = absurd (omega arith)
shift_erases stray (a ∷ es) (suc m) b (suc i) left fits at_i total =
    elim (Bool-cases (same_bytes b a.bssid)) [
      | inl same ↦ ground (arith, same, at_i)
      | inr apart ↦
          let rest =
            shift_erases (λ k. stray (k + 1)) es m b i left (omega arith)
              (ground (arith, apart, at_i, find_from-suc es b (suc m) 0)) (omega arith) in
          rw apart (
            ap (take (suc m))
              (one_more stray (suc left) i (a ∷ es) ∙ shift-cons stray (suc left) i a es)
            ∙ ap (λ t. a ∷ t) rest)
    ]

-- What a removal leaves: for an address with an entry, the entries without it; for another, all of
-- the array, with a count that is one less, or 2 ^ 32 - 1 for an empty table.
abbrev pub Left : PmkList → Addr → PmkList → Bool → Type 0
Left l b l' true = (l'.npmkid + 1 ≡ l.npmkid) × (live l' ≡ erase b (live l))
Left l b l' false = (l'.pmkid ≡ l.pmkid) × (l'.npmkid ≡ (l.npmkid + 2 ^ 32 - 1) % 2 ^ 32)

-- For a table whose entries stand inside its array, IW_PMKSA_REMOVE takes away the first entry for
-- the address and keeps the others in their order; for an address without an entry it takes
-- away the last entry, or sets the count of an empty table to 2 ^ 32 - 1.
pub pmksa_removed-Left :
    (d : Driver) (l : PmkList) (b : Addr)
    → l.npmkid ≤ length l.pmkid
    → l.npmkid < 2 ^ 32
    → Left l b (pmksa_removed d l b) (ltb (find_pmkid l b) l.npmkid)
unfolding pmksa_removed find_pmkid pmksa_shift
pmksa_removed-Left d l b fits small =
    elim (Bool-cases (ltb (find_from l.pmkid b l.npmkid 0) l.npmkid)) [
      | inl found ↦ rw found (found_case (ground (arith, found)))
      | inr missed ↦ rw missed (missed_case (ground (arith, missed)))
    ]
  where
    i : ℕ
    i = find_from l.pmkid b l.npmkid 0

    found_case : i < l.npmkid → Left l b (pmksa_removed d l b) true
    found_case lt = (count, entries)
      where
        count : (l.npmkid + 2 ^ 32 - 1) % 2 ^ 32 + 1 ≡ l.npmkid
        count = omega (arith, lt, small)

        last : ℕ
        last = l.npmkid - 1

        lower : (l.npmkid + 2 ^ 32 - 1) % 2 ^ 32 ≡ last
        lower = omega (arith, lt, small)

        steps : l.npmkid - i ≡ suc (last - i)
        steps = omega (arith, lt)

        back : suc last ≡ l.npmkid
        back = omega (arith, lt)

        entries :
            take
              ((l.npmkid + 2 ^ 32 - 1) % 2 ^ 32)
              (pmksa_shift d.stray_pmkid (l.npmkid - i) i l.pmkid)
            ≡ erase b (take l.npmkid l.pmkid)
        entries =
            ap (λ k. take k (pmksa_shift d.stray_pmkid (l.npmkid - i) i l.pmkid)) lower
            ∙ ap (λ k. take last (pmksa_shift d.stray_pmkid k i l.pmkid)) steps
            ∙ shift_erases d.stray_pmkid l.pmkid last b i (last - i) (omega (arith, lt, fits))
                (ap (λ k. find_from l.pmkid b k 0) back) (omega (arith, lt))
            ∙ ap (λ k. erase b (take k l.pmkid)) back

    missed_case : l.npmkid ≤ i → Left l b (pmksa_removed d l b) false
    missed_case ge = (ap (λ k. pmksa_shift d.stray_pmkid k i l.pmkid) none_left, refl)
      where
        none_left : l.npmkid - i ≡ 0
        none_left = omega (arith, ge)
