-- ===== src/Tests/Requests.antt =====
-- Examples: requests of cfg80211.
use broadcom_bcm4312_fix.Prelude.{
  [], arith, false, length, none, some, take, true, ◌&&◌, ◌+◌, ◌↔◌, ◌∷◌, ◌≡◌, ◌≢◌, ◌≤◌, ◌⊎◌,
}
use broadcom_bcm4312_fix.Tests.{attached, kmalloc_limited, mkiovar_fits, platform}
use broadcom_bcm4312_fix.Iface.{wl_cfg80211_change_iface}
use broadcom_bcm4312_fix.Connect.{Sme, wl_cfg80211_connect}
use broadcom_bcm4312_fix.Headers.{Band, Channel, Ssid, Status, adhoc, ccmp, ok, open_system, psk}
use broadcom_bcm4312_fix.State.{World, is_ok}
use broadcom_bcm4312_fix.Scan.{ScanRequest, scan_ssid, wl_notify_scan_status}
use broadcom_bcm4312_fix.Wowl.{Wowlan}
use broadcom_bcm4312_fix.Params.{Wiphy, wl_cfg80211_set_wiphy_params}
use broadcom_bcm4312_fix.Scan.Target.{scan_ssid_fits}
use broadcom_bcm4312_fix.Scan.Request.{scans_done, wl_notify_scan_status_completes}
use broadcom_bcm4312_fix.Params.Order.{
  accepted_calls, any_due, one_if, wl_cfg80211_set_wiphy_params_one,
}
use broadcom_bcm4312_fix.Iface.Mode.{Changed, wl_cfg80211_change_iface-Changed}
use broadcom_bcm4312_fix.Connect.Outcome.{Starts, wl_cfg80211_connect-Starts}

abbrev home : Sme
home = record {
  ssid = some (72 ∷ 105 ∷ []);
  ssid_len = 2;
  bssid = none;
  channel = none;
  auth_type = open_system;
  wpa_versions = 2;
  n_ciphers_pairwise = 1;
  ciphers_pairwise = ccmp;
  cipher_group = ccmp;
  n_akm_suites = 1;
  akm_suites = psk;
  key = [];
  key_len = 0;
  key_idx = 0;
}

no_channel : (c : Channel) → home.channel ≡ some c → c.band ≢ Band.other
no_channel c e = ground arith

wl_cfg80211_connect-Starts_example :
    (s : Status) × (w' : World) × (wl_cfg80211_connect platform home attached ≡ some (s, w'))
    × Starts platform attached s w'
wl_cfg80211_connect-Starts_example =
    wl_cfg80211_connect-Starts platform mkiovar_fits home attached no_channel

abbrev broadcast_scan : ScanRequest
broadcast_scan = record { id = 4; ssids = none }

abbrev scanning_world : World
scanning_world = record attached { priv = record (attached.priv) { scan_request = some 4 } }

wl_notify_scan_status_completes_example :
    (s : Status) × (w' : World) × (wl_notify_scan_status platform scanning_world ≡ some (s, w'))
    × (w'.priv.scan_request ≡ none)
    × (scans_done w'.log ≡ 1)
wl_notify_scan_status_completes_example =
    wl_notify_scan_status_completes platform kmalloc_limited scanning_world

abbrev limits : Wiphy
limits = record { rts_threshold = 500; frag_threshold = 600; retry_long = 7; retry_short = 4 }

wl_cfg80211_set_wiphy_params_one_example :
    (s : Status) × (w' : World) × (wl_cfg80211_set_wiphy_params platform limits 15 attached
      ≡ some (s, w'))
    × (accepted_calls platform w'.log
        ≡ accepted_calls platform attached.log
          + one_if (any_due platform limits 15 attached.priv.conf && is_ok s))
    × ((any_due platform limits 15 attached.priv.conf ≡ true) ⊎ (s ≡ ok))
wl_cfg80211_set_wiphy_params_one_example =
    wl_cfg80211_set_wiphy_params_one platform mkiovar_fits limits 15 attached

wl_cfg80211_change_iface-Changed_example :
    (s : Status) × (w' : World) × (wl_cfg80211_change_iface platform adhoc attached ≡ some (s, w'))
    × Changed platform attached adhoc s w'
wl_cfg80211_change_iface-Changed_example = wl_cfg80211_change_iface-Changed platform adhoc attached

abbrev conditions : Wowlan
conditions = record {
  disconnect = true;
  magic_pkt = false;
  gtk_rekey_failure = true;
  four_way_handshake = false;
}

abbrev named : Ssid
named = record { ssid_len = 3; ssid = 97 ∷ 98 ∷ 99 ∷ [] }

scan_ssid_fits_example :
    ((scan_ssid (some named)).ssid_len ≤ 32)
    × (length (scan_ssid (some named)).ssid ≡ 32)
    × (take (scan_ssid (some named)).ssid_len (scan_ssid (some named)).ssid
        ≡ take (scan_ssid (some named)).ssid_len named.ssid)
    × ((3 ≤ 32) ↔ ((scan_ssid (some named)).ssid_len ≡ 3))
scan_ssid_fits_example = scan_ssid_fits named (omega arith)
