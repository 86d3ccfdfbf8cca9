-- ===== src/Iw/Spy/Ladder.antt =====
-- The two chains of tests for the quality of a signal, in rssi_to_qual and in
-- wl_iw_get_wireless_stats, against a count of levels (src/wl/sys/wl_iw.c).
use broadcom_bcm4312_fix.Prelude.{List, [], arith, bit_or, if◌then◌else◌, refl, suc, ℕ, ◌∷◌, ◌≡◌}
use broadcom_bcm4312_fix.Iw.{Driver}
use broadcom_bcm4312_fix.Iw.Spy.{Stats, at_most, quality_of, rssi_to_qual, stats_qual}
use broadcom_bcm4312_fix.Prelude.Int.{negsuc, pos, ℤ}

-- WL_IW_RSSI_NO_SIGNAL, _VERY_LOW, _LOW, _GOOD and _VERY_GOOD, without their sign.
abbrev thresholds : List ℕ
thresholds = 91 ∷ 80 ∷ 70 ∷ 68 ∷ 58 ∷ []

-- How many of the levels a signal is above.
unfoldable exceeded : List ℕ → ℤ → ℕ
exceeded [] rssi = 0
exceeded (k ∷ ks) rssi = let rest = exceeded ks rssi in if at_most rssi k then rest else suc rest

ladder-exceeded : (rssi : ℤ) → rssi_to_qual rssi ≡ exceeded thresholds rssi
unfolding rssi_to_qual exceeded
ladder-exceeded (pos n) = refl
ladder-exceeded (negsuc n) = ground arith

-- The quality of an access point in the list, and that of the link in the statistics, are for each
-- signal the number of the five levels that it is above; the two have the same level and noise.
qualities_agree :
    (d : Driver) (stats : Stats) (rssi noise : ℤ)
    → (rssi_to_qual rssi ≡ exceeded thresholds rssi)
      × ((stats_qual d stats rssi noise).stat_qual
          ≡ quality_of (bit_or stats.stat_qual.updated d.qual_updated) rssi noise)
unfolding stats_qual rssi_to_qual
qualities_agree d stats rssi noise = (ladder-exceeded rssi, refl)
