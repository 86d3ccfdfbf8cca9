-- ===== src/Link.antt =====
-- The state of the link: wl_link_up, wl_link_down, wl_get_assoc_ies, wl_update_bss_info,
-- wl_bss_connect_done, wl_bss_roaming_done and the handlers wl_notify_connect_status,
-- wl_notify_roaming_status and wl_notify_mic_status (src/wl/sys/wl_cfg80211_hybrid.c).
pub mod Frame
pub mod Connecting
pub mod Adhoc
pub mod Roaming
pub mod Total
use broadcom_bcm4312_fix.Prelude.{
  Bool, Option, bit_and, false, if◌then◌else◌, leb, none, not, some, take, true, ℕ, ◌&&◌, ◌-◌, ◌==◌,
  ◌^◌, ◌||◌,
}
use broadcom_bcm4312_fix.Iovar.{wl_dev_bufvar_get, wl_dev_intvar_get, wl_dev_ioctl}
use broadcom_bcm4312_fix.Headers.{
  Addr, Akm, AuthType, BssInfo, Bytes, IoVar, Status, Suite, assoc_info, assoc_info_max,
  assoc_req_ies, assoc_resp_ies, einval, eio, extra_buf_max, fail, ghz2, ghz5, int_size, mode_ibss,
  ok, wpa_auth, zero_addr, zero_ssid,
}
use broadcom_bcm4312_fix.State.{
  ConnectInfo, M, Platform, Priv, Profile, buffer_arg, connect_result, disconnected, emit, get,
  ibss_joined, if_ok, int_arg, michael_mic_failure, modify, on_option, pure, put_bss, roamed, when,
  world, ◌>>=◌, ◌>>◌,
}
use broadcom_bcm4312_fix.Pmk.{same_bytes}
use broadcom_bcm4312_fix.Scan.{finish_scan, wl_inform_single_bss}
use broadcom_bcm4312_fix.Wowl.{second_word}
use broadcom_bcm4312_fix.Headers.Commands.{get_bss_info, get_dtimprd}

-- The WLC_E_* events that have a handler.
pub data EventType : Type 0 where
  scan_complete join start link ndis_link set_ssid_done disassoc_ind deauth_ind : EventType
  roam mic_error : EventType
  raw : ℕ → EventType

-- WLC_E_STATUS_*
pub data EventStatus : Type 0 where
  success no_networks : EventStatus
  raw : ℕ → EventStatus

-- The parts of wl_event_msg_t that the handlers read.
pub record EventMsg : Type 0 where
  pub event_type : EventType
  pub flags : ℕ
  pub status : EventStatus
  pub addr : Addr

abbrev pub is_join_or_start : EventType → Bool
is_join_or_start join = true
is_join_or_start start = true
is_join_or_start _ = false

abbrev pub is_link : EventType → Bool
is_link link = true
is_link _ = false

abbrev pub is_set_ssid : EventType → Bool
is_set_ssid set_ssid_done = true
is_set_ssid _ = false

abbrev pub is_deauth_or_disassoc : EventType → Bool
is_deauth_or_disassoc deauth_ind = true
is_deauth_or_disassoc disassoc_ind = true
is_deauth_or_disassoc _ = false

abbrev pub is_no_networks : EventStatus → Bool
is_no_networks no_networks = true
is_no_networks _ = false

abbrev pub no_ies : ConnectInfo
no_ies = record { req_ie = none; req_ie_len = 0; resp_ie = none; resp_ie_len = 0 }

abbrev pub zero_profile : Profile
zero_profile = record {
  ssid = zero_ssid;
  bssid = zero_addr;
  sec = record {
    wpa_versions = 0;
    auth_type = AuthType.raw 0;
    cipher_pairwise = Suite.raw 0;
    cipher_group = Suite.raw 0;
    wpa_auth = Akm.raw 0;
  };
  active = false;
}

abbrev pub set_active : Bool → Priv → Priv
set_active b p = record p { profile = record (p.profile) { active = b } }

-- `wl->bssid` and the profile's BSSID
abbrev pub set_bssid : Addr → Priv → Priv
set_bssid a p = record p { bssid = a; profile = record (p.profile) { bssid = a } }

-- wl_link_up only prints; wl_link_down frees the elements of the association.
unfoldable pub wl_link_down : Priv → Priv
wl_link_down p = record p { conn_info = no_ies }

-- wl_init_prof clears the profile.
unfoldable pub wl_init_prof : Priv → Priv
wl_init_prof p = record p { profile = zero_profile }

unfoldable pub wl_is_ibssmode : Priv → Bool
wl_is_ibssmode p = p.conf.mode == mode_ibss

-- `clear_bit(WL_STATUS_CONNECTED), wl_link_down, wl_init_prof`
unfoldable pub lose_link : Priv → Priv
unfolding wl_link_down wl_init_prof
lose_link p = wl_init_prof (wl_link_down (record p { connected = false }))

module _ (x : Platform) where
  -- kmemdup: a copy, or NULL without memory.
  unfoldable pub kmemdup : Bytes → ℕ → M (Option Bytes)
  kmemdup bytes n = world >>= λ w. pure (if x.kmalloc w.log n then some (take n bytes) else none)

  -- One of the two halves of wl_get_assoc_ies. The old copy is not freed.
  unfoldable pub fetch_ies : IoVar → ℕ → (Option Bytes → ℕ → ConnectInfo → ConnectInfo) → M Status
  fetch_ies name len store =
      if len == 0
      then modify (λ p. record p { conn_info = store none 0 p.conn_info })
      else (wl_dev_bufvar_get x name assoc_info_max >>= λ (err, r). if_ok err (
          kmemdup r.bytes len >>= λ copy.
          modify (λ p. record p { conn_info = store copy len p.conn_info })))

  unfoldable pub wl_get_assoc_ies : M Status
  wl_get_assoc_ies = wl_dev_bufvar_get x assoc_info assoc_info_max >>= λ (err, r). if_ok err do
    fetch_ies assoc_req_ies r.value (λ b n c. record c { req_ie = b; req_ie_len = n })
    fetch_ies assoc_resp_ies (second_word r.bytes)
        (λ b n c. record c { resp_ie = b; resp_ie_len = n })

  -- `cfg80211_put_bss`, then the DTIM period: from the TIM element, or from the firmware.
  unfoldable pub read_dtim : Bytes → M Status
  read_dtim ies = emit put_bss >>= λ _.
      if x.has_tim ies
      then pure ok
      else (wl_dev_ioctl x get_dtimprd (int_arg 0) int_size >>= λ r. pure r.status)

  -- The BSS that the firmware described is handed to cfg80211 and looked up again.
  unfoldable pub inform_and_find : BssInfo → M Status
  inform_and_find bi = wl_inform_single_bss x bi >>= λ err. if_ok err (
      world >>= λ w.
      on_option (x.get_bss w.log w.priv.bssid w.priv.profile.ssid) (pure (fail einval))
        (λ found. read_dtim bi.ies))

  unfoldable pub wl_update_bss_info : M Status
  wl_update_bss_info = world >>= λ w.
      on_option (x.get_bss w.log w.priv.bssid w.priv.profile.ssid)
        (wl_dev_ioctl x get_bss_info (buffer_arg extra_buf_max) extra_buf_max >>= λ r.
          if_ok r.status (
            if same_bytes r.bss.bssid w.priv.bssid then inform_and_find r.bss else pure (fail eio)))
        (λ (ies, channel).
          modify (λ p. record p { conf = record (p.conf) { channel = some channel } }) >>= λ _.
          read_dtim ies)

  -- What a completed association leaves: its elements, the BSSID, the BSS and the CONNECTED bit.
  unfoldable pub finish_completed : EventMsg → M Status
  finish_completed e = do
    _ ← wl_get_assoc_ies
    _ ← modify (set_bssid e.addr)
    _ ← wl_update_bss_info
    modify (λ p. record p { connected = true })

  -- `cfg80211_connect_result`, after a completed association has been read out.
  unfoldable pub finish_connect : EventMsg → Bool → M Status
  finish_connect e completed = when completed (finish_completed e) >>= λ _.
      get >>= λ p. emit (connect_result p.bssid p.conn_info completed)

  -- A scan that still runs is aborted; `test_and_clear_bit(WL_STATUS_CONNECTING)`.
  unfoldable pub wl_bss_connect_done : EventMsg → Bool → M Status
  wl_bss_connect_done e completed = do
    _ ← finish_scan true
    p ← get
    when p.connecting
        (modify (λ q. record q { connecting = false }) >>= λ _. finish_connect e completed)

  -- `roam_info` takes its element pointers before wl_get_assoc_ies replaces them; its BSSID is a
  -- pointer to the profile's, which is written in between.
  unfoldable pub wl_bss_roaming_done : EventMsg → M Status
  wl_bss_roaming_done e = get >>= λ before. do
    wl_get_assoc_ies
    modify (set_bssid e.addr)
    wl_update_bss_info
    emit (roamed e.addr before.conn_info)
    modify (λ p. record p { connected = true })

  unfoldable pub wl_notify_roaming_status : EventMsg → M Status
  wl_notify_roaming_status e = elim e.status [
    | success ↦ wl_bss_roaming_done e >>= λ err. modify (set_active true) >>= λ _. pure err
    | _ ↦ pure ok
  ]

  unfoldable pub wl_notify_mic_status : EventMsg → M Status
  wl_notify_mic_status e =
      emit (michael_mic_failure e.addr (not (bit_and e.flags x.event_msg_group == 0)))

  -- `event == WLC_E_LINK && (flags & WLC_EVENT_MSG_LINK)`
  unfoldable pub is_link_up : EventMsg → Bool
  is_link_up e = is_link e.event_type && not (bit_and e.flags x.event_msg_link == 0)

  -- The complement is the bitwise one: `event == WLC_E_LINK && ~(flags & WLC_EVENT_MSG_LINK) || ...`
  unfoldable pub is_link_lost : EventMsg → Bool
  is_link_lost e =
      (is_link e.event_type && not (2 ^ 32 - 1 - bit_and e.flags x.event_msg_link == 0))
      || is_deauth_or_disassoc e.event_type

  abbrev pub is_join_failure : EventMsg → Bool
  is_join_failure e = is_set_ssid e.event_type && is_no_networks e.status

  unfoldable pub connect_status_bss : EventMsg → M Status
  connect_status_bss e =
      if is_link_up e
      then (wl_bss_connect_done e true >>= λ _. modify (set_active true))
      else if is_link_lost e
      then (emit disconnected >>= λ _. modify lose_link)
      else if is_join_failure e
      then (wl_bss_connect_done e false >>= λ _. pure ok)
      else pure ok

  -- The channel of the joined network is read from the firmware; without it the event ends here.
  unfoldable pub finish_ibss : M Status
  finish_ibss = wl_dev_intvar_get x IoVar.chanspec >>= λ (err, chanspec). if_ok err (
      let chan = x.ctlchan chanspec in
      let freq = x.channel_to_frequency chan (if leb chan x.ch_max_2g then ghz2 else ghz5) in
      get >>= λ p. do
        emit (ibss_joined p.bssid (x.get_channel freq))
        modify (λ q. set_active true (record q { connected = true })))

  unfoldable pub connect_status_ibss : EventMsg → M Status
  connect_status_ibss e =
      if is_join_or_start e.event_type
      then (do
        _ ← wl_get_assoc_ies
        _ ← modify (λ p. record p { bssid = e.addr })
        _ ← wl_update_bss_info
        finish_ibss)
      else if is_link_lost e
      then modify lose_link
      else pure ok

  unfoldable pub wl_notify_connect_status : EventMsg → M Status
  wl_notify_connect_status e =
      get >>= λ p. if wl_is_ibssmode p then connect_status_ibss e else connect_status_bss e
