-- ===== src/Lifecycle.antt =====
-- Attaching and detaching: wl_alloc_wdev, wl_free_wdev, wl_init_priv_mem, wl_deinit_priv_mem,
-- wl_create_event_handler, wl_destroy_event_handler, wl_init_cfg80211_priv, wl_deinit_cfg80211_priv,
-- wl_init_conf, wl_cfg80211_attach and wl_cfg80211_detach (src/wl/sys/wl_cfg80211_hybrid.c).
pub mod Resources
use broadcom_bcm4312_fix.Prelude.{
  Bool, Option, some, [], false, if◌then◌else◌, none, not, replicate, true, ℕ, ◌-◌, ◌^◌,
}
use broadcom_bcm4312_fix.Link.{no_ies, zero_profile}
use broadcom_bcm4312_fix.Headers.{
  Status, enodev, enomem, fail, maxpmkid, ok, station, tlv_info_max, zero_addr, zero_ssid,
}
use broadcom_bcm4312_fix.State.{Conf, ConnectInfo, Priv, is_ok}
use broadcom_bcm4312_fix.Pmk.{zero_pmkid}
use broadcom_bcm4312_fix.Events.{EventQueue, wl_flush_eq, wl_init_eq}
use broadcom_bcm4312_fix.Prelude.Int.{negsuc, pos}

-- What the allocations and registrations of the kernel answer, each at its place; `registered` is
-- the status of wiphy_register, which is 0 or negative.
pub record Grants : Type 0 where
  pub wdev : Bool
  pub wiphy : Bool
  pub registered : Status
  pub conf : Bool
  pub profile : Bool
  pub scan_req_int : Bool
  pub ioctl_buf : Bool
  pub extra_buf : Bool
  pub pmk_list : Bool
  pub event_thread : Bool

-- What the layer holds: a buffer that was allocated and not freed, a thread that runs, the queued
-- events and the elements of the association; and whether ieee80211_ptr of the net_device is set.
pub record Held : Type 0 where
  pub wdev : Bool
  pub wiphy : Bool
  pub registered : Bool
  pub conf : Bool
  pub profile : Bool
  pub scan_req_int : Bool
  pub ioctl_buf : Bool
  pub extra_buf : Bool
  pub pmk_list : Bool
  pub event_thread : Bool
  pub eq_list : EventQueue
  pub conn_info : ConnectInfo
  pub ieee80211_ptr : Bool

abbrev pub nothing : Held
nothing = record {
  wdev = false;
  wiphy = false;
  registered = false;
  conf = false;
  profile = false;
  scan_req_int = false;
  ioctl_buf = false;
  extra_buf = false;
  pmk_list = false;
  event_thread = false;
  eq_list = [];
  conn_info = no_ies;
  ieee80211_ptr = false;
}

-- (u32)-1
abbrev pub all_ones : ℕ
all_ones = 2 ^ 32 - 1

unfoldable pub wl_init_conf : Conf → Conf
wl_init_conf c = record c {
  mode = all_ones;
  frag_threshold = all_ones;
  rts_threshold = all_ones;
  retry_short = all_ones;
  retry_long = all_ones;
  tx_power = negsuc 0;
}

-- The wireless device, its wiphy and the registration, undone in reverse order on failure.
unfoldable pub wl_alloc_wdev : Grants → Held → Status × Held
wl_alloc_wdev g h =
    if not g.wdev
    then (fail enomem, h)
    else if not g.wiphy
    then (fail enomem, record h { wdev = false })
    else if is_ok g.registered
    then (ok, record h { wdev = true; wiphy = true; registered = true })
    else (g.registered, record h { wdev = false; wiphy = false })

unfoldable pub wl_free_wdev : Held → Held
wl_free_wdev h = record h { wdev = false; wiphy = false; registered = false }

-- kfree of all six pointers; the ones that are NULL stay so.
unfoldable pub wl_deinit_priv_mem : Held → Held
wl_deinit_priv_mem h = record h {
  conf = false;
  profile = false;
  scan_req_int = false;
  ioctl_buf = false;
  extra_buf = false;
  pmk_list = false;
}

-- The six allocations in order; the first that fails frees what was allocated.
unfoldable pub wl_init_priv_mem : Grants → Held → Status × Held
unfolding wl_deinit_priv_mem
wl_init_priv_mem g h =
    let h1 = record h { conf = g.conf } in
    let h2 = record h1 { profile = g.profile } in
    let h3 = record h2 { scan_req_int = g.scan_req_int } in
    let h4 = record h3 { ioctl_buf = g.ioctl_buf } in
    let h5 = record h4 { extra_buf = g.extra_buf } in
    let h6 = record h5 { pmk_list = g.pmk_list } in
    if not g.conf
    then (fail enomem, wl_deinit_priv_mem h1)
    else if not g.profile
    then (fail enomem, wl_deinit_priv_mem h2)
    else if not g.scan_req_int
    then (fail enomem, wl_deinit_priv_mem h3)
    else if not g.ioctl_buf
    then (fail enomem, wl_deinit_priv_mem h4)
    else if not g.extra_buf
    then (fail enomem, wl_deinit_priv_mem h5)
    else if not g.pmk_list
    then (fail enomem, wl_deinit_priv_mem h6)
    else (ok, h6)

unfoldable pub wl_create_event_handler : Grants → Held → Status × Held
wl_create_event_handler g h =
    if g.event_thread then (ok, record h { event_thread = true }) else (fail enomem, h)

unfoldable pub wl_destroy_event_handler : Held → Held
wl_destroy_event_handler h = record h { event_thread = false }

-- wl_init_eq, the buffers and the thread, and wl_link_down at the end. A failed
-- wl_create_event_handler returns at once.
unfoldable pub wl_init_cfg80211_priv : Grants → Held → Status × Held
wl_init_cfg80211_priv g h =
    let (err, h') = wl_init_priv_mem g (record h { eq_list = wl_init_eq }) in
    if not (is_ok err)
    then (err, h')
    else (let (err', h'') = wl_create_event_handler g h' in
        if is_ok err' then (ok, record h'' { conn_info = no_ies }) else (fail enomem, h''))

-- The thread is ended first, then the queue is flushed and wl_link_down frees the elements; the
-- buffers go last.
unfoldable pub wl_deinit_cfg80211_priv : Held → Held
wl_deinit_cfg80211_priv h =
    let stopped = wl_destroy_event_handler h in
    wl_deinit_priv_mem
      (record stopped { eq_list = wl_flush_eq stopped.eq_list; conn_info = no_ies })

-- A device that is NULL is refused; `present` is that it is not.
unfoldable pub wl_cfg80211_attach : Bool → Grants → Held → Status × Held
wl_cfg80211_attach present g h =
    if not present
    then (fail enodev, h)
    else (let (err, h') = wl_alloc_wdev g h in
        if not (is_ok err)
        then (err, h')
        else (let (err', h'') = wl_init_cfg80211_priv g (record h' { ieee80211_ptr = true }) in
            if is_ok err' then (ok, h'') else (err', wl_free_wdev h'')))

-- The pointer stays behind. Where the wireless device that it names was freed before, the private
-- data in it is read behind the free: `none`.
unfoldable pub wl_cfg80211_detach : Held → Option Held
wl_cfg80211_detach h =
    if not h.ieee80211_ptr
    then some h
    else if h.wdev
    then some (wl_free_wdev (wl_deinit_cfg80211_priv h))
    else none

-- The private state after a successful attach: zeroed memory, wl_init_conf, wl_init_prof and
-- wl_link_down.
unfoldable pub attached_priv : ℕ → Bool → Priv
unfolding wl_init_conf
attached_priv pmkid_len passive = record {
  conf = wl_init_conf (record {
    mode = 0;
    frag_threshold = 0;
    rts_threshold = 0;
    retry_short = 0;
    retry_long = 0;
    tx_power = pos 0;
    channel = none;
  });
  scan_request = none;
  scan_req_int = zero_ssid;
  ie = record { offset = 0; buf = replicate tlv_info_max 0 };
  bssid = zero_addr;
  profile = zero_profile;
  conn_info = no_ies;
  pmk_list = record { npmkid = 0; pmkid = replicate (maxpmkid - 1) (zero_pmkid pmkid_len) };
  connecting = false;
  connected = false;
  active_scan = true;
  passive = passive;
  offloads = false;
  iftype = station;
  band_5ghz_n = false;
  wowlan = true;
}
