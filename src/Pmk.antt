-- ===== src/Pmk.antt =====
-- The PMKSA cache: wl_cfg80211_set_pmksa, wl_cfg80211_del_pmksa, wl_cfg80211_flush_pmksa and
-- wl_update_pmklist (src/wl/sys/wl_cfg80211_hybrid.c).
pub mod Table
pub mod Removal
pub mod Memory
use broadcom_bcm4312_fix.Prelude.{
  Bool, List, Option, [], drop, false, get_elem?, if◌then◌else◌, ltb, none, replicate, set, some,
  suc, true, zero, ℕ, ◌&&◌, ◌*◌, ◌++◌, ◌+◌, ◌-◌, ◌/◌, ◌==◌, ◌∷◌,
}
use broadcom_bcm4312_fix.Iovar.{wl_dev_bufvar_set}
use broadcom_bcm4312_fix.Headers.{
  Addr, Bytes, Pmkid, Status, addr_len, einval, fail, maxpmkid, pmkid_info, zero_addr,
}
use broadcom_bcm4312_fix.State.{M, Platform, PmkList, get, if_ok, modify, pure, var_pmk_list, ◌>>=◌}

-- memcmp of two strings of bytes.
unfoldable pub same_bytes : Bytes → Bytes → Bool
same_bytes [] [] = true
same_bytes (a ∷ as') (b ∷ bs) = (a == b) && same_bytes as' bs
same_bytes [] (b ∷ bs) = false
same_bytes (a ∷ as') [] = false

abbrev pub zero_pmkid : ℕ → Pmkid
zero_pmkid len = record { bssid = zero_addr; pmkid = replicate len 0 }

-- `for (i = 0; i < npmkid; i++) if (!memcmp(...)) break;` over the entries from `i` on, with
-- `left` rounds to go.
unfoldable pub find_from : List Pmkid → Addr → ℕ → ℕ → ℕ
find_from entries bssid zero i = i
find_from [] bssid (suc left) i = i + suc left
find_from (e ∷ entries) bssid (suc left) i =
    let rest = find_from entries bssid left (i + 1) in if same_bytes bssid e.bssid then i else rest

unfoldable pub find_pmkid : PmkList → Addr → ℕ
find_pmkid l bssid = find_from l.pmkid bssid l.npmkid 0

-- `for (; i < npmkid - 1; i++) pmkid[i] = pmkid[i + 1];` with `left` rounds to go.
unfoldable pub shift_down : ℕ → ℕ → List Pmkid → List Pmkid
shift_down zero i entries = entries
shift_down (suc left) i entries =
    shift_down left (i + 1)
      (elim (get_elem? entries (i + 1)) [ some e ↦ set entries i e | none ↦ entries ])

-- The entry that is written, and the new list; `none` where the list is full.
unfoldable pub put_pmkid : PmkList → Pmkid → Option PmkList
put_pmkid l entry =
    let i = find_pmkid l entry.bssid in
    if ltb i maxpmkid
    then some (record {
      pmkid = set l.pmkid i entry;
      npmkid = if i == l.npmkid then l.npmkid + 1 else l.npmkid;
    })
    else none

-- `none` where there is no such entry.
unfoldable pub drop_pmkid : ℕ → PmkList → Addr → Option PmkList
drop_pmkid len l bssid =
    let i = find_pmkid l bssid in
    if ltb 0 l.npmkid && ltb i l.npmkid
    then some (record {
      pmkid = shift_down (l.npmkid - 1 - i) i (set l.pmkid i (zero_pmkid len));
      npmkid = l.npmkid - 1;
    })
    else none

module _ (x : Platform) where
  -- sizeof(pmkid_t)
  abbrev pub pmkid_size : ℕ
  pmkid_size = addr_len + x.pmkid_len

  -- sizeof(struct wl_cfg80211_pmk_list): `npmkid`, no entry for the flexible array, the MAXPMKID - 1
  -- entries of `foo`, rounded up to whole words.
  abbrev pub pmk_list_size : ℕ
  pmk_list_size = (4 + (maxpmkid - 1) * pmkid_size + 3) / 4 * 4

  unfoldable pub wl_update_pmklist : Status → M Status
  wl_update_pmklist err = if_ok err (
      get >>= λ p.
      wl_dev_bufvar_set x (var_pmk_list pmkid_info p.pmk_list) pmkid_info pmk_list_size)

  -- The new list, or -EINVAL.
  abbrev pub store_list : Option PmkList → M Status
  store_list none = pure (fail einval)
  store_list (some l) = modify (λ p. record p { pmk_list = l })

  unfoldable pub wl_cfg80211_set_pmksa : Pmkid → M Status
  wl_cfg80211_set_pmksa entry =
      get >>= λ p. store_list (put_pmkid p.pmk_list entry) >>= λ err. wl_update_pmklist err

  unfoldable pub wl_cfg80211_del_pmksa : Addr → M Status
  wl_cfg80211_del_pmksa bssid = get >>= λ p.
      store_list (drop_pmkid x.pmkid_len p.pmk_list bssid) >>= λ err. wl_update_pmklist err

  -- `memset` reaches the entries inside the structure, one less than MAXPMKID.
  unfoldable pub wl_cfg80211_flush_pmksa : M Status
  wl_cfg80211_flush_pmksa =
      modify (λ p. record p {
        pmk_list = record {
          npmkid = 0;
          pmkid =
              replicate (maxpmkid - 1) (zero_pmkid x.pmkid_len)
              ++ drop (maxpmkid - 1) p.pmk_list.pmkid;
        };
      })
      >>= λ err. wl_update_pmklist err
