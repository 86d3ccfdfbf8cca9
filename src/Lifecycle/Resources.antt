-- ===== src/Lifecycle/Resources.antt =====
-- What is held before, between and after attaching and detaching.
use broadcom_bcm4312_fix.Prelude.{
  Bool, [], arith, false, none, some, refl, true, ◌∷◌, ◌≡◌, ◌≢◌, ◌⊎◌,
}
use broadcom_bcm4312_fix.Lifecycle.{
  Grants, Held, nothing, wl_alloc_wdev, wl_cfg80211_attach, wl_cfg80211_detach,
  wl_create_event_handler, wl_deinit_cfg80211_priv, wl_deinit_priv_mem, wl_destroy_event_handler,
  wl_free_wdev, wl_init_cfg80211_priv, wl_init_priv_mem,
}
use broadcom_bcm4312_fix.Link.{no_ies}
use broadcom_bcm4312_fix.Headers.{enomem, fail, ok}
use broadcom_bcm4312_fix.State.{ConnectInfo}
use broadcom_bcm4312_fix.Events.{EventQueue, wl_flush_eq, wl_init_eq}

abbrev pub everything : Held
everything = record {
  wdev = true;
  wiphy = true;
  registered = true;
  conf = true;
  profile = true;
  scan_req_int = true;
  ioctl_buf = true;
  extra_buf = true;
  pmk_list = true;
  event_thread = true;
  eq_list = [];
  conn_info = no_ies;
  ieee80211_ptr = true;
}

-- The six buffers of wl_init_priv_mem, with the wireless device gone.
abbrev pub leaked : Held
leaked = record nothing {
  conf = true;
  profile = true;
  scan_req_int = true;
  ioctl_buf = true;
  extra_buf = true;
  pmk_list = true;
  ieee80211_ptr = true;
}

-- Nothing, though the pointer may be set.
abbrev pub nothing_but : Bool → Held
nothing_but set = record nothing { ieee80211_ptr = set }

-- wl_init_priv_mem, from nothing allocated, succeeds with all six buffers or fails with none of them;
-- whatever else is held stays held.
pub wl_init_priv_mem_all_or_nothing :
    (g : Grants) (h : Held)
    → (wl_init_priv_mem g h ≡ (
      ok,
      record h {
        conf = true;
        profile = true;
        scan_req_int = true;
        ioctl_buf = true;
        extra_buf = true;
        pmk_list = true;
      },
    ))
      ⊎ (wl_init_priv_mem g h ≡ (fail enomem, wl_deinit_priv_mem h))
unfolding wl_init_priv_mem wl_deinit_priv_mem
wl_init_priv_mem_all_or_nothing g h = ground arith

flushed : (q : EventQueue) → wl_flush_eq q ≡ []
unfolding wl_flush_eq
flushed [] = refl
flushed (e ∷ q) = flushed q

-- What is held while events are queued and an association has its elements.
abbrev pub in_use : EventQueue → ConnectInfo → Held
in_use q c = record everything { eq_list = q; conn_info = c }

detached :
    (q : EventQueue) (c : ConnectInfo) → wl_cfg80211_detach (in_use q c) ≡ some (nothing_but true)
unfolding wl_cfg80211_detach wl_free_wdev wl_deinit_priv_mem wl_deinit_cfg80211_priv
    wl_destroy_event_handler
detached q c = ground (arith, flushed q)

-- An attach from nothing held either succeeds with everything held, and then a detach leaves
-- nothing held but the net_device's pointer set, whatever events are queued and elements are kept by
-- then; or fails with nothing held and the pointer NULL or set; or fails with -ENOMEM where only the
-- event thread could not be created, and then the six private buffers stay allocated and the pointer
-- set. A detach after a failure reads freed memory just where the pointer is set, and changes nothing
-- otherwise.
pub wl_cfg80211_attach_cases :
    (present : Bool) (g : Grants) (q : EventQueue) (c : ConnectInfo)
    → ((wl_cfg80211_attach present g nothing ≡ (ok, everything))
        × (wl_cfg80211_detach (in_use q c) ≡ some (nothing_but true)))
      ⊎ (((wl_cfg80211_attach present g nothing).0 ≢ ok)
          × ((wl_cfg80211_attach present g nothing).1 ≡ nothing)
          × (wl_cfg80211_detach (wl_cfg80211_attach present g nothing).1 ≡ some nothing))
      ⊎ (((wl_cfg80211_attach present g nothing).0 ≢ ok)
          × ((wl_cfg80211_attach present g nothing).1 ≡ nothing_but true)
          × (wl_cfg80211_detach (wl_cfg80211_attach present g nothing).1 ≡ none))
      ⊎ ((g.event_thread ≡ false)
          × (wl_cfg80211_attach present g nothing ≡ (fail enomem, leaked))
          × (wl_cfg80211_detach (wl_cfg80211_attach present g nothing).1 ≡ none))
unfolding wl_cfg80211_attach wl_alloc_wdev wl_free_wdev wl_init_cfg80211_priv wl_init_priv_mem
    wl_deinit_priv_mem wl_create_event_handler wl_init_eq wl_cfg80211_detach
wl_cfg80211_attach_cases present g q c = ground (arith, detached q c)

-- The leak, for every answer of the allocator: a present device, all buffers granted and the
-- wireless device registered, but no event thread.
pub wl_cfg80211_attach_leaks :
    (g : Grants)
    → (g.wdev ≡ true)
      × (g.wiphy ≡ true)
      × (g.registered ≡ ok)
      × (g.conf ≡ true)
      × (g.profile ≡ true)
      × (g.scan_req_int ≡ true)
      × (g.ioctl_buf ≡ true)
      × (g.extra_buf ≡ true)
      × (g.pmk_list ≡ true)
      × (g.event_thread ≡ false)
    → wl_cfg80211_attach true g nothing ≡ (fail enomem, leaked)
unfolding wl_cfg80211_attach wl_alloc_wdev wl_free_wdev wl_init_cfg80211_priv wl_init_priv_mem
    wl_init_eq wl_create_event_handler
wl_cfg80211_attach_leaks g h = ground arith
