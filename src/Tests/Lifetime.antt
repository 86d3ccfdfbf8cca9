-- ===== src/Tests/Lifetime.antt =====
-- Examples: attaching, and the event thread.
use broadcom_bcm4312_fix.Prelude.{Bool, [], false, none, refl, some, true, ◌+◌, ◌∷◌, ◌≡◌, ◌≢◌, ◌⊎◌}
use broadcom_bcm4312_fix.Tests.{attached, event_of, kmalloc_limited, mkiovar_fits, platform}
use broadcom_bcm4312_fix.Lifecycle.{Grants, nothing, wl_cfg80211_attach, wl_cfg80211_detach}
use broadcom_bcm4312_fix.Link.{link, no_ies}
use broadcom_bcm4312_fix.Headers.{Status, enomem, fail, ok}
use broadcom_bcm4312_fix.State.{World}
use broadcom_bcm4312_fix.Events.{
  EventLoop, EventQueue, Panics, QueuedEvent, Reach, down, ended, enqueue, handle_all, here,
  new_loop, next, owes, up, waiting, wl_enq_event, woken,
}
use broadcom_bcm4312_fix.Events.Handlers.{handle_all_returns}
use broadcom_bcm4312_fix.Events.Loop.{Reach-in_order, Reach-no_panic, accepted, in_order}
use broadcom_bcm4312_fix.Events.Progress.{Reach-drains, Steps, loop_at}
use broadcom_bcm4312_fix.Lifecycle.Resources.{
  everything, in_use, leaked, nothing_but, wl_cfg80211_attach_cases,
}

abbrev grants : Bool → Grants
grants thread = record {
  wdev = true;
  wiphy = true;
  registered = ok;
  conf = true;
  profile = true;
  scan_req_int = true;
  ioctl_buf = true;
  extra_buf = true;
  pmk_list = true;
  event_thread = thread;
}

abbrev one_event : EventQueue
one_event = record { etype = link; emsg = event_of link 1 } ∷ []

wl_cfg80211_attach_cases_example :
    ((wl_cfg80211_attach true (grants true) nothing ≡ (ok, everything))
      × (wl_cfg80211_detach (in_use one_event no_ies) ≡ some (nothing_but true)))
    ⊎ (((wl_cfg80211_attach true (grants true) nothing).0 ≢ ok)
        × ((wl_cfg80211_attach true (grants true) nothing).1 ≡ nothing)
        × (wl_cfg80211_detach (wl_cfg80211_attach true (grants true) nothing).1 ≡ some nothing))
    ⊎ (((wl_cfg80211_attach true (grants true) nothing).0 ≢ ok)
        × ((wl_cfg80211_attach true (grants true) nothing).1 ≡ nothing_but true)
        × (wl_cfg80211_detach (wl_cfg80211_attach true (grants true) nothing).1 ≡ none))
    ⊎ ((true ≡ false)
        × (wl_cfg80211_attach true (grants true) nothing ≡ (fail enomem, leaked))
        × (wl_cfg80211_detach (wl_cfg80211_attach true (grants true) nothing).1 ≡ none))
wl_cfg80211_attach_cases_example = wl_cfg80211_attach_cases true (grants true) one_event no_ies

-- One event is enqueued, and the thread is woken for it.
abbrev enqueued : EventLoop
enqueued = record new_loop {
  queue = (wl_enq_event true new_loop.queue (event_of link 1)).1;
  unposted = owes (wl_enq_event true new_loop.queue (event_of link 1)).0 new_loop.unposted;
}

abbrev posted : EventLoop
posted = record enqueued { unposted = 0; event_sync = enqueued.event_sync + 1 }

abbrev awake : EventLoop
awake = record posted { event_sync = 0; phase = woken }

one_unposted : enqueued.unposted ≡ 1
unfolding wl_enq_event
one_unposted = refl

abbrev reached : Reach awake
reached =
    next (next (next here (enqueue new_loop true (event_of link 1))) (up enqueued 0 one_unposted))
      (down posted 0 refl refl)

Reach-no_panic_example : ¬ Panics awake
Reach-no_panic_example = Reach-no_panic reached

not_ended : awake.phase ≢ ended
not_ended h = cc

Reach-drains_example : Steps awake (loop_at waiting [] 0 0 (accepted reached))
Reach-drains_example = Reach-drains reached not_ended

Reach-in_order_example : in_order awake ≡ accepted reached
Reach-in_order_example = Reach-in_order reached

abbrev link_event : QueuedEvent
link_event = record { etype = link; emsg = event_of link 1 }

handle_all_returns_example :
    (s : Status) × (w' : World) × (handle_all platform (link_event ∷ []) attached ≡ some (s, w'))
handle_all_returns_example =
    handle_all_returns platform (link_event ∷ []) attached mkiovar_fits kmalloc_limited
