-- ===== src/Iw/Pmksa.antt =====
-- The PMKSA table of the wireless extensions: wl_iw_set_pmksa (src/wl/sys/wl_iw.c). The array has
-- MAXPMKID - 1 entries, those of `foo`: the list behind `npmkid` is a flexible one.
pub mod Missing
use broadcom_bcm4312_fix.Prelude.{
  List, [], get_or, memcpy, replicate, set, suc, zero, ℕ, ◌%◌, ◌+◌, ◌-◌, ◌^◌, ◌∷◌,
}
use broadcom_bcm4312_fix.Iw.{Driver}
use broadcom_bcm4312_fix.Headers.{Addr, Pmkid, maxpmkid, pmkid_info}
use broadcom_bcm4312_fix.State.{PmkList, var_pmk_list}
use broadcom_bcm4312_fix.Pmk.{find_pmkid, pmk_list_size, zero_pmkid}
use broadcom_bcm4312_fix.Iw.Monad.{IwM, dev_wlc_bufvar_set, iw_dev_if, pure, store, ◌>>=◌}
use broadcom_bcm4312_fix.Prelude.Int.{pos, ℤ}

-- IW_PMKSA_*
pub data PmksaCmd : Type 0 where
  pmksa_add pmksa_remove pmksa_flush : PmksaCmd
  pmksa_other : ℕ → PmksaCmd

-- The entry is written behind the last one, whether or not the array has room: a write behind the
-- array makes the list longer.
unfoldable pub pmksa_added : PmkList → Pmkid → PmkList
pmksa_added l entry = record {
  npmkid = (l.npmkid + 1) % 2 ^ 32;
  pmkid = memcpy l.pmkid l.npmkid (entry ∷ []) 1;
}

-- `for (; i < npmkid; i++) pmkid[i] = pmkid[i + 1];` with `left` rounds to go; the last one may read
-- what stands behind the array.
unfoldable pub pmksa_shift : (ℕ → Pmkid) → ℕ → ℕ → List Pmkid → List Pmkid
pmksa_shift stray zero i entries = entries
pmksa_shift stray (suc left) i entries =
    pmksa_shift stray left (i + 1) (set entries i (get_or entries (i + 1) (stray (i + 1))))

module _ (d : Driver) where
  -- The count goes down whether or not the address was found.
  unfoldable pub pmksa_removed : PmkList → Addr → PmkList
  pmksa_removed l bssid =
      let i = find_pmkid l bssid in
      record {
        npmkid = (l.npmkid + 2 ^ 32 - 1) % 2 ^ 32;
        pmkid = pmksa_shift d.stray_pmkid (l.npmkid - i) i l.pmkid;
      }

  unfoldable pub pmksa_after : PmksaCmd → PmkList → Pmkid → PmkList
  pmksa_after pmksa_add l entry = pmksa_added l entry
  pmksa_after pmksa_remove l entry = pmksa_removed l entry.bssid
  pmksa_after pmksa_flush l entry = record {
    npmkid = 0;
    pmkid = replicate (maxpmkid - 1) (zero_pmkid d.host.pmkid_len);
  }
  pmksa_after (pmksa_other n) l entry = l

  -- The table is sent in each case; the status is dropped.
  unfoldable pub wl_iw_set_pmksa : PmksaCmd → Pmkid → IwM ℤ
  wl_iw_set_pmksa cmd entry =
      store (λ iw. record iw { pmkid_list = pmksa_after cmd iw.pmkid_list entry }) >>= λ _.
      iw_dev_if >>= λ iw.
      dev_wlc_bufvar_set d (var_pmk_list pmkid_info iw.pmkid_list) pmkid_info (pmk_list_size d.host)
      >>= λ _. pure (pos 0)
