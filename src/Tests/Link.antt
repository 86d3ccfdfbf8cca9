-- ===== src/Tests/Link.antt =====
-- Examples: the events of the link.
use broadcom_bcm4312_fix.Prelude.{[], arith, false, none, refl, some, true, ◌≡◌}
use broadcom_bcm4312_fix.Tests.{attached, event_of, mkiovar_fits, peer, platform}
use broadcom_bcm4312_fix.Link.{
  is_link_up, join, link, no_ies, roam, wl_bss_connect_done, wl_bss_roaming_done,
  wl_notify_connect_status, zero_profile,
}
use broadcom_bcm4312_fix.Headers.{Status, mode_bss, mode_ibss, ok}
use broadcom_bcm4312_fix.State.{World}
use broadcom_bcm4312_fix.Link.Roaming.{Roamed, wl_bss_roaming_done_stale}
use broadcom_bcm4312_fix.Link.Adhoc.{ibss_link_up_drops}
use broadcom_bcm4312_fix.Link.Connecting.{connect_reports, wl_bss_connect_done_reports}

abbrev linked : World
linked = record {
  priv = record (attached.priv) {
    connecting = true;
    scan_request = some 7;
    conf = record (attached.priv.conf) { mode = mode_bss };
  };
  log = [];
}

wl_bss_connect_done_reports_example :
    (s : Status) × (w' : World) × (wl_bss_connect_done platform (event_of join 0) true linked
      ≡ some (s, w'))
    × (w'.priv.connecting ≡ false)
    × (w'.priv.scan_request ≡ none)
    × (w'.priv.connected ≡ true)
    × (connect_reports w'.log ≡ 1)
wl_bss_connect_done_reports_example =
    wl_bss_connect_done_reports platform mkiovar_fits (event_of join 0) true linked

abbrev own_network : World
own_network = record {
  priv = record (attached.priv) {
    connected = true;
    conf = record (attached.priv.conf) { mode = mode_ibss };
  };
  log = [];
}

ibss_link_up_drops_example :
    wl_notify_connect_status platform (event_of link 1) own_network
    ≡ some (
      ok,
      record own_network {
        priv = record (own_network.priv) {
          connected = false;
          conn_info = no_ies;
          profile = zero_profile;
        };
      },
    )
unfolding is_link_up
ibss_link_up_drops_example =
    ibss_link_up_drops platform (event_of link 1) own_network (omega arith) refl refl

wl_bss_roaming_done_stale_example :
    (s : Status) × (w' : World) × (wl_bss_roaming_done platform (event_of roam 0) linked
      ≡ some (s, w'))
    × Roamed peer linked s w'
wl_bss_roaming_done_stale_example =
    wl_bss_roaming_done_stale platform mkiovar_fits (event_of roam 0) linked
