-- ===== src/Tests/Buffers.antt =====
-- Examples: the element buffer, keys, powers, chanspecs and the PMKSA table.
use broadcom_bcm4312_fix.Prelude.{
  [], arith, drop, refl, replicate, set, some, ℕ, ◌++◌, ◌-◌, ◌<◌, ◌↔◌, ◌∷◌, ◌≡◌, ◌≤◌,
}
use broadcom_bcm4312_fix.Tests.{peer, platform}
use broadcom_bcm4312_fix.Ie.{wl_add_ie, wl_cp_ie, wl_mrg_ie, wl_rst_ie}
use broadcom_bcm4312_fix.Chanspec.{band_bits, chanspec_of, join_buffer_size, wl_ch_to_chanspec}
use broadcom_bcm4312_fix.Headers.{
  Addr, Bytes, Channel, JoinParams, Pmkid, ghz2, join_params_size, maxpmkid, ok, zero_addr,
  zero_ssid,
}
use broadcom_bcm4312_fix.State.{Ie, PmkList}
use broadcom_bcm4312_fix.Pmk.{
  drop_pmkid, find_from, find_pmkid, pmk_list_size, put_pmkid, same_bytes,
}
use broadcom_bcm4312_fix.Ie.Contents.{
  append_bounded, contents, wl_add_ie_refines, wl_cp_ie-wl_mrg_ie,
}
use broadcom_bcm4312_fix.Ie.Bounds.{IsValid}
use broadcom_bcm4312_fix.Chanspec.Room.{written, wl_ch_to_chanspec_room}
use broadcom_bcm4312_fix.Pmk.Removal.{Removed, drop_pmkid_refines}
use broadcom_bcm4312_fix.Pmk.Table.{Stored, put_pmkid_refines}
use broadcom_bcm4312_fix.Pmk.Memory.{entry_end, put_pmkid_overflows}

abbrev fresh : Ie
fresh = record { offset = 0; buf = replicate 1024 0 }

abbrev stream : Bytes
stream = 1 ∷ 2 ∷ 7 ∷ 8 ∷ []

fresh-IsValid : IsValid fresh
fresh-IsValid = record { size = refl; inside = omega arith }

wl_add_ie_refines_example :
    ((wl_add_ie fresh 1 2 (7 ∷ 8 ∷ [])).0, contents (wl_add_ie fresh 1 2 (7 ∷ 8 ∷ [])).1)
    ≡ append_bounded (contents fresh) (1 ∷ 2 ∷ 7 ∷ 8 ∷ [])
wl_add_ie_refines_example = wl_add_ie_refines 1 2 (7 ∷ 8 ∷ []) fresh-IsValid refl

wl_cp_ie-wl_mrg_ie_example :
    wl_cp_ie (wl_mrg_ie (wl_rst_ie fresh) stream 4).1 (replicate 8 0) 8
    ≡ (ok, stream ++ drop 4 (replicate 8 0))
wl_cp_ie-wl_mrg_ie_example =
    wl_cp_ie-wl_mrg_ie stream (replicate 8 0) 4 8 fresh-IsValid refl (omega arith) (omega arith)
      (omega arith)

abbrev channel_6 : Channel
channel_6 = record { band = ghz2; center_freq = 2437; hw_value = 6 }

abbrev cleared : JoinParams
cleared = record { ssid = zero_ssid; bssid = zero_addr; chanspec_num = 0; chanspec_list = [] }

abbrev prepared : JoinParams
prepared = record cleared {
  chanspec_num = 1;
  chanspec_list = chanspec_of platform channel_6 0x2000 ∷ [];
}

wl_ch_to_chanspec_room_example :
    (written platform prepared ≤ join_buffer_size platform)
    × (50 ≡ written platform prepared)
    × (join_params_size < written platform prepared)
unfolding wl_ch_to_chanspec band_bits
wl_ch_to_chanspec_room_example =
    wl_ch_to_chanspec_room platform channel_6 cleared (omega arith) refl refl

abbrev entry_of : Addr → Pmkid
entry_of a = record { bssid = a; pmkid = replicate 16 9 }

abbrev table : ℕ → PmkList
table n = record { npmkid = n; pmkid = replicate 15 (entry_of zero_addr) }

put_pmkid_refines_example : Stored (table 1) (entry_of peer) (put_pmkid (table 1) (entry_of peer))
put_pmkid_refines_example = put_pmkid_refines (table 1) (entry_of peer) (omega arith, refl)

put_pmkid_overflows_example :
    (put_pmkid (table 15) (entry_of peer)
      ≡ some (record { npmkid = 16; pmkid = set (table 15).pmkid 15 (entry_of peer) }))
    × ((entry_end platform 15 ≤ pmk_list_size platform) ↔ (15 < maxpmkid - 1))
unfolding find_pmkid find_from same_bytes
put_pmkid_overflows_example =
    put_pmkid_overflows platform (table 15) (entry_of peer) refl (omega arith)

drop_pmkid_refines_example : Removed (table 3) zero_addr (drop_pmkid 16 (table 3) zero_addr)
drop_pmkid_refines_example = drop_pmkid_refines 16 (table 3) zero_addr (omega arith, refl)
