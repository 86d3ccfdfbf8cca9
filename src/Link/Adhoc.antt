-- ===== src/Link/Adhoc.antt =====
-- Which events count as a lost link.
use broadcom_bcm4312_fix.Prelude.{arith, false, some, true, ◌<◌, ◌^◌, ◌||◌, ◌≡◌}
use broadcom_bcm4312_fix.Link.{
  EventMsg, connect_status_ibss, is_deauth_or_disassoc, is_link, is_link_lost, is_link_up,
  lose_link, no_ies, wl_is_ibssmode, wl_notify_connect_status, zero_profile,
}
use broadcom_bcm4312_fix.Headers.{mode_ibss, ok}
use broadcom_bcm4312_fix.State.{Platform, World}
use broadcom_bcm4312_fix.Prelude.Bits.{bit_and-le}

module _ (x : Platform) where
  -- The second operand of `event == WLC_E_LINK && ~(flags & WLC_EVENT_MSG_LINK)` is never 0 for a
  -- 16-bit flag word, so the test does not look at the flags.
  pub is_link_lost_lem :
      (e : EventMsg)
      → e.flags < 2 ^ 16
      → is_link_lost x e ≡ (is_link e.event_type || is_deauth_or_disassoc e.event_type)
  unfolding is_link_lost
  is_link_lost_lem e small = ground (arith, bit_and-le e.flags x.event_msg_link)

  -- In IBSS mode every WLC_E_LINK event drops the link, the one that says that the link is up
  -- included: the CONNECTED bit is cleared, the elements of the association are freed and the
  -- profile is erased.
  pub ibss_link_up_drops :
      (e : EventMsg) (w : World)
      → e.flags < 2 ^ 16
      → w.priv.conf.mode ≡ mode_ibss
      → is_link_up x e ≡ true
      → wl_notify_connect_status x e w
        ≡ some (
          ok,
          record w {
            priv = record (w.priv) {
              connected = false;
              conn_info = no_ies;
              profile = zero_profile;
            };
          },
        )
  unfolding wl_notify_connect_status wl_is_ibssmode connect_status_ibss lose_link is_link_up
  ibss_link_up_drops e w small mode came_up = ground (arith, is_link_lost_lem e small)
