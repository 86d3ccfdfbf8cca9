-- ===== src/Iw/Spy.antt =====
-- The quality of a signal, the spy list, the list of access points and the statistics: rssi_to_qual,
-- wl_iw_set_spy, wl_iw_get_spy, wl_iw_get_aplist and wl_iw_get_wireless_stats
-- (src/wl/sys/wl_iw.c).
pub mod Ladder
use broadcom_bcm4312_fix.Prelude.{
  Bool, List, Option, [], bit_and, bit_or, false, if◌then◌else◌, leb, memcpy, min, none, not,
  replicate, some, suc, take, true, zero, ℕ, ◌%◌, ◌+◌, ◌==◌, ◌^◌, ◌∷◌,
}
use broadcom_bcm4312_fix.Iw.{Driver, IwBss, Quality}
use broadcom_bcm4312_fix.Headers.{Addr, counters, int_size, scb_size, zero_addr}
use broadcom_bcm4312_fix.State.{buffer_arg, int_arg, scb_arg}
use broadcom_bcm4312_fix.Iw.Monad.{
  IwM, dev_wlc_bufvar_get, dev_wlc_ioctl, is_zero, iw_dev_if, neg_einval, neg_enomem, pure, store,
  ◌>>=◌,
}
use broadcom_bcm4312_fix.Headers.Commands.{get_phy_noise, get_rssi, scan_results}
use broadcom_bcm4312_fix.Prelude.Int.{bits32, negsuc, pos, ℤ}

-- `rssi <= -k` for a positive k.
abbrev pub at_most : ℤ → ℕ → Bool
at_most (pos n) k = false
at_most (negsuc n) k = leb k (suc n)

unfoldable pub rssi_to_qual : ℤ → ℕ
rssi_to_qual rssi =
    if at_most rssi 91
    then 0
    else if at_most rssi 80
    then 1
    else if at_most rssi 70
    then 2
    else if at_most rssi 68
    then 3
    else if at_most rssi 58
    then 4
    else 5

-- `0x100 + v`, stored in a u8.
abbrev pub level_of : ℤ → ℕ
level_of v = bits32 v % 256

-- What is stored for an RSSI and a noise.
abbrev pub quality_of : ℕ → ℤ → ℤ → Quality
quality_of updated rssi noise = record {
  qual = rssi_to_qual rssi;
  level = level_of rssi;
  noise = level_of noise;
  updated = updated;
}

abbrev pub zero_quality : Quality
zero_quality = record { qual = 0; level = 0; noise = 0; updated = 0 }

-- `for (i = 0; i < spy_num; i++) spy_qual[i].updated = 0;`
unfoldable pub clear_updated : ℕ → List Quality → List Quality
clear_updated zero quals = quals
clear_updated (suc n) [] = []
clear_updated (suc n) (q ∷ quals) = record q { updated = 0 } ∷ clear_updated n quals

-- The statistics that are filled in.
pub record Stats : Type 0 where
  pub stat_qual : Quality
  pub code : ℕ
  pub fragment : ℕ
  pub retries : ℕ
  pub misc : ℕ

module _ (d : Driver) where
  -- A NULL `extra` is `none`; it has `len` addresses.
  unfoldable pub wl_iw_set_spy : Option (List Addr) → ℕ → IwM ℤ
  wl_iw_set_spy none len = pure neg_einval
  wl_iw_set_spy (some addrs) len = store (λ iw.
      let n = min d.max_spy len in
      record iw {
        spy_num = n;
        spy_addr = memcpy iw.spy_addr 0 addrs n;
        spy_qual = replicate d.max_spy zero_quality;
      })

  -- The addresses and the qualities that are copied out.
  unfoldable pub wl_iw_get_spy : Bool → IwM (ℤ × Option (List Addr × List Quality))
  wl_iw_get_spy false = pure (neg_einval, none)
  wl_iw_get_spy true = iw_dev_if >>= λ iw.
      store (λ iw'. record iw' { spy_qual = clear_updated iw'.spy_num iw'.spy_qual }) >>= λ _.
      pure (pos 0, some (take iw.spy_num iw.spy_addr, take iw.spy_num iw.spy_qual))

  -- The loop over `left` results, with room for `room` more entries: only infrastructure networks
  -- are listed.
  unfoldable pub aplist_from : ℕ → ℕ → List IwBss → List (Addr × Quality)
  aplist_from zero room bs = []
  aplist_from (suc left) zero bs = []
  aplist_from (suc left) (suc room) [] = []
  aplist_from (suc left) (suc room) (b ∷ bs) =
      let ess = not (bit_and b.bss.capability d.cap_ess == 0) in
      let rest = aplist_from left (if ess then room else suc room) bs in
      if ess then (b.bss.bssid, quality_of d.qual_updated b.bss.rssi b.phy_noise) ∷ rest else rest

  -- The list is read into a buffer of as many bytes as the caller announces.
  unfoldable pub wl_iw_get_aplist : Bool → ℕ → IwM (ℤ × Option (List (Addr × Quality)))
  wl_iw_get_aplist false buflen w = ((neg_einval, none), w)
  wl_iw_get_aplist true buflen w =
      if d.kmalloc w.log buflen
      then (dev_wlc_ioctl d scan_results (buffer_arg buflen) buflen >>= λ r. pure (
            if is_zero r.status
            then (pos 0, some (aplist_from r.value d.max_ap r.bss_info))
            else (r.status, none)))
          w
      else ((neg_enomem, none), w)

  -- `updated` is or-ed in, where the rest is assigned; the chain of tests is written out again.
  unfoldable pub stats_qual : Stats → ℤ → ℤ → Stats
  stats_qual stats rssi noise = record stats {
    stat_qual = record {
      qual =
          if at_most rssi 91
          then 0
          else if at_most rssi 80
          then 1
          else if at_most rssi 70
          then 2
          else if at_most rssi 68
          then 3
          else if at_most rssi 58
          then 4
          else 5;
      level = level_of rssi;
      noise = level_of noise;
      updated = bit_or stats.stat_qual.updated d.qual_updated;
    };
  }

  -- What is written before an error stays written.
  unfoldable pub wl_iw_get_wireless_stats : Stats → IwM (ℤ × Stats)
  wl_iw_get_wireless_stats stats = dev_wlc_ioctl d get_phy_noise (int_arg 0) int_size >>= λ n.
      if not (is_zero n.status)
      then pure (n.status, stats)
      else (dev_wlc_ioctl d get_rssi (scb_arg zero_addr 0) scb_size >>= λ r.
          if not (is_zero r.status)
          then pure (r.status, stats)
          else with_counters (stats_qual stats r.signed n.signed))
    where
      with_counters : Stats → IwM (ℤ × Stats)
      with_counters s = dev_wlc_bufvar_get d counters d.cnt_size >>= λ (res, answer).
          pure (elim answer [
            | none ↦ (res, s)
            | some r ↦
                if r.cnt.version == d.cnt_version
                then (
                  res,
                  record s {
                    code = r.cnt.rxundec;
                    fragment = r.cnt.rxfragerr;
                    retries = r.cnt.txfail;
                    misc = (r.cnt.rxrunt + r.cnt.rxgiant) % 2 ^ 32;
                  },
                )
                else (res, s)
          ])
