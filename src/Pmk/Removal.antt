-- ===== src/Pmk/Removal.antt =====
-- The removal of an entry from the PMKSA table, against the removal from a list.
use broadcom_bcm4312_fix.Prelude.{
  Bool-cases, List, Option, Option-cases, [], ap, arith, get_elem?, if◌then◌else◌, inl, inr, length,
  ltb, none, refl, set, some, suc, take, true, zero, ℕ, ◌&&◌, ◌+◌, ◌-◌, ◌<◌, ◌∙◌, ◌∷◌, ◌≡◌, ◌≤◌,
}
use broadcom_bcm4312_fix.Headers.{Addr, Pmkid}
use broadcom_bcm4312_fix.State.{PmkList}
use broadcom_bcm4312_fix.Pmk.{drop_pmkid, find_from, find_pmkid, same_bytes, shift_down, zero_pmkid}
use broadcom_bcm4312_fix.Pmk.Table.{
  IsValidList, find_from-suc, length-set, length-shift_down, lookup, lookup_in,
}

-- The removal of the first entry for an address.
abbrev pub erase : Addr → List Pmkid → List Pmkid
erase b [] = []
erase b (e ∷ es) = let rest = erase b es in if same_bytes b e.bssid then es else e ∷ rest

abbrev pub live : PmkList → List Pmkid
live l = take l.npmkid l.pmkid

shift_down-cons :
    (left i : ℕ) (a : Pmkid) (es : List Pmkid)
    → shift_down left (i + 1) (a ∷ es) ≡ a ∷ shift_down left i es
unfolding shift_down
shift_down-cons zero i a es = refl
shift_down-cons (suc left) i a es = elim (Option-cases (get_elem? es (i + 1))) [
  | inl e ↦ ground (arith, e, shift_down-cons left (i + 1) a es)
  | inr (r, e) ↦ ground (arith, e, shift_down-cons left (i + 1) a (set es i r))
]

shift_all :
    (m : ℕ) (z : Pmkid) (es : List Pmkid)
    → m ≤ length es
    → take m (shift_down m 0 (z ∷ es)) ≡ take m es
unfolding shift_down
shift_all zero z es h = refl
shift_all (suc m) z [] h = absurd (omega arith)
shift_all (suc m) z (r ∷ es) h =
    ap (take (suc m)) (shift_down-cons m 0 r (r ∷ es))
    ∙ ap (λ t. r ∷ t) (shift_all m r es (omega arith))

one_more : (left i : ℕ) (es : List Pmkid) → shift_down left (suc i) es ≡ shift_down left (i + 1) es
one_more left i es = ap (λ k. shift_down left k es) (omega arith)

-- `i` is where the entry stands, and `left` entries stand behind it.
drop_erases :
    (es : List Pmkid) (m : ℕ) (b : Addr) (z : Pmkid) (i left : ℕ)
    → m < length es
    → find_from es b (suc m) 0 ≡ i
    → i + left ≡ m
    → take m (shift_down left i (set es i z)) ≡ erase b (take (suc m) es)
unfolding find_from
drop_erases [] m b z i left fits at_i total = absurd (omega arith)
drop_erases (a ∷ es) m b z zero left fits at_i total = elim (Bool-cases (same_bytes b a.bssid)) [
  | inl same ↦
      rw same
        (ap (λ k. take m (shift_down k 0 (z ∷ es))) (omega arith) ∙ shift_all m z es (omega arith))
  | inr apart ↦ ground (arith, apart, at_i, find_from-suc es b m 0)
]
drop_erases (a ∷ es) zero b z (suc i) left fits at_i total = absurd (omega arith)
drop_erases (a ∷ es) (suc m) b z (suc i) left fits at_i total =
    elim (Bool-cases (same_bytes b a.bssid)) [
      | inl same ↦ ground (arith, same, at_i)
      | inr apart ↦
          let rest =
            drop_erases es m b z i left (omega arith)
              (ground (arith, apart, at_i, find_from-suc es b (suc m) 0)) (omega arith) in
          rw apart (
            ap (take (suc m))
              (one_more left i (a ∷ set es i z) ∙ shift_down-cons left i a (set es i z))
            ∙ ap (λ t. a ∷ t) rest)
    ]

not_listed :
    (es : List Pmkid) (n : ℕ) (b : Addr)
    → n ≤ length es
    → n ≤ find_from es b n 0
    → lookup_in es n b ≡ none
unfolding find_from
not_listed es zero b fits h = refl
not_listed [] (suc n) b fits h = refl
not_listed (a ∷ es) (suc n) b fits h =
    ground (arith, find_from-suc es b n 0, not_listed es n b (omega arith))

abbrev pub Removed : PmkList → Addr → Option PmkList → Type 0
Removed l b none = lookup l b ≡ none
Removed l b (some l') = IsValidList l' × (l'.npmkid + 1 ≡ l.npmkid) × (live l' ≡ erase b (live l))

-- Removing an address from a well-formed table fails just when the table has no entry for it.
-- Otherwise the new table is well formed and has one entry less: it lists the entries of the old
-- one, in their order, without the first that was for the address.
pub drop_pmkid_refines :
    (len : ℕ) (l : PmkList) (b : Addr) → IsValidList l → Removed l b (drop_pmkid len l b)
unfolding drop_pmkid find_pmkid
drop_pmkid_refines len l b (small, full) =
    elim (Bool-cases (ltb 0 l.npmkid && ltb (find_from l.pmkid b l.npmkid 0) l.npmkid)) [
      | inl found ↦ rw found (
        (
          omega (arith, small),
          length-shift_down _ i _ ∙ length-set l.pmkid i (zero_pmkid len) ∙ full,
        ),
        ground (arith, found),
        drop_erases l.pmkid (l.npmkid - 1) b (zero_pmkid len) i (l.npmkid - 1 - i)
              (ground (arith, small, full, found)) (ap (λ n. find_from l.pmkid b n 0) (pred found))
              (ground (arith, found))
            ∙ ap (λ n. erase b (take n l.pmkid)) (pred found),
      )
      | inr missed ↦
          rw missed
            (not_listed l.pmkid l.npmkid b (omega (arith, small, full)) (ground (arith, missed)))
    ]
  where
    i : ℕ
    i = find_from l.pmkid b l.npmkid 0

    pred :
        ltb 0 l.npmkid && ltb (find_from l.pmkid b l.npmkid 0) l.npmkid ≡ true
        → suc (l.npmkid - 1) ≡ l.npmkid
    pred h = ground (arith, h)
