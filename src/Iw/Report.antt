-- ===== src/Iw/Report.antt =====
-- The events to user space: wl_iw_send_priv_event, wl_iw_conn_status_str, wl_iw_check_conn_fail and
-- wl_iw_event (src/wl/sys/wl_iw.c). The address and the length of union iwreq_data are two fields,
-- as if they did not overlap.
use broadcom_bcm4312_fix.Prelude.{
  Bool, List, Option, [], if◌then◌else◌, leb, length, ltb, memcpy, none, replicate, set, some, suc,
  zero, ℕ, ◌%◌, ◌&&◌, ◌++◌, ◌+◌, ◌/◌, ◌==◌, ◌^◌, ◌||◌, ◌∷◌,
}
use broadcom_bcm4312_fix.Iw.{
  Cause, Driver, EventCmd, auth_fail, auth_no_ack, auth_timeout, config_mismatch, conn_text,
  deauthed, disassoc_ind, disassociated, encryp_mismatch, iwev_assocreqie, iwev_assocrespie,
  iwev_custom, iwev_michaelmicfailure, iwev_pmkidcand, iwev_registered, iwev_txdrop, mic_failure,
  no_extra, no_networks, pmkid_cand, raw_bytes, reassoc_abort, reassoc_fail, reassoc_timeout,
  rsn_mismatch, siocgiwap, siocgiwscan, success,
}
use broadcom_bcm4312_fix.Headers.{Addr, Bytes, zero_addr}
use broadcom_bcm4312_fix.Iw.Monad.{IwM, has, pure, wireless_send_event, ◌>>=◌, ◌>>◌}
use broadcom_bcm4312_fix.Prelude.Int.{negsuc, pos, ℤ}

-- WLC_E_*
pub data IwEvent : Type 0 where
  ev_txfail ev_join ev_assoc_ind ev_reassoc_ind ev_deauth_ind ev_disassoc_ind : IwEvent
  ev_link ev_ndis_link ev_action_frame ev_action_frame_complete ev_mic_error : IwEvent
  ev_assoc_req_ie ev_assoc_resp_ie ev_pmkid_cache ev_scan_complete : IwEvent
  ev_set_ssid ev_prune ev_auth ev_reassoc ev_disassoc : IwEvent
  ev_other : ℕ → IwEvent

-- A number for each type of event, to compare them by.
unfoldable pub event_number : IwEvent → ℕ
event_number ev_txfail = 0
event_number ev_join = 1
event_number ev_assoc_ind = 2
event_number ev_reassoc_ind = 3
event_number ev_deauth_ind = 4
event_number ev_disassoc_ind = 5
event_number ev_link = 6
event_number ev_ndis_link = 7
event_number ev_action_frame = 8
event_number ev_action_frame_complete = 9
event_number ev_mic_error = 10
event_number ev_assoc_req_ie = 11
event_number ev_assoc_resp_ie = 12
event_number ev_pmkid_cache = 13
event_number ev_scan_complete = 14
event_number ev_set_ssid = 15
event_number ev_prune = 16
event_number ev_auth = 17
event_number ev_reassoc = 18
event_number ev_disassoc = 19
event_number (ev_other n) = 20 + n

-- WL_IW_DONT_CARE
abbrev pub dont_care : ℕ
dont_care = 9999

-- conn_fail_event_map_t; the name is "Conn" in each row.
pub record Row : Type 0 where
  pub in_event : IwEvent
  pub in_status : ℕ
  pub in_reason : ℕ
  pub out_cause : Cause

abbrev pub row_of : IwEvent → ℕ → ℕ → Cause → Row
row_of e s r c = record { in_event = e; in_status = s; in_reason = r; out_cause = c }

unfoldable pub row_matches : Row → IwEvent → ℕ → ℕ → Bool
row_matches row event status reason =
    (event_number row.in_event == event_number event)
    && ((row.in_status == status) || (row.in_status == dont_care))
    && ((row.in_reason == reason) || (row.in_reason == dont_care))

-- The cause of the first row that matches.
unfoldable pub first_cause : List Row → IwEvent → ℕ → ℕ → Option Cause
first_cause [] event status reason = none
first_cause (row ∷ rows) event status reason =
    let rest = first_cause rows event status reason in
    if row_matches row event status reason then some row.out_cause else rest

-- The candidates of a wl_event_msg_t's data: any index can be read.
pub record Candidates : Type 0 where
  pub npmkid_cand : ℕ
  pub cand : ℕ → Bool × Addr

-- wl_event_msg_t with the data behind it, as bytes and as candidates; `none` is NULL.
pub record IwMsg : Type 0 where
  pub event_type : IwEvent
  pub flags : ℕ
  pub datalen : ℕ
  pub status : ℕ
  pub reason : ℕ
  pub addr : Addr
  pub bytes : Bytes
  pub candidates : Option Candidates

-- The four bytes of a word, lowest first.
abbrev pub word_bytes : ℕ → Bytes
word_bytes v = v % 256 ∷ v / 2 ^ 8 % 256 ∷ v / 2 ^ 16 % 256 ∷ v / 2 ^ 24 % 256 ∷ []

-- `while (count)`: one event for each candidate, from the `i`-th on.
unfoldable pub send_candidates : ℕ → Addr → (ℕ → Bool × Addr) → ℕ → ℕ → IwM ℤ
send_candidates len addr cand zero i = pure (pos 0)
send_candidates len addr cand (suc count) i = do
  wireless_send_event iwev_pmkidcand addr len (pmkid_cand (cand i).0 (cand i).1)
  send_candidates len addr cand count (i + 1)

module _ (d : Driver) where
  -- The 14 rows.
  abbrev pub event_map : List Row
  event_map =
      row_of ev_set_ssid d.status_success dont_care success
      ∷ row_of ev_set_ssid d.status_no_networks dont_care no_networks
      ∷ row_of ev_set_ssid d.status_fail dont_care config_mismatch
      ∷ row_of ev_prune dont_care d.prune_encr_mismatch encryp_mismatch
      ∷ row_of ev_prune dont_care d.reason_rsn_mismatch rsn_mismatch
      ∷ row_of ev_auth d.status_timeout dont_care auth_timeout
      ∷ row_of ev_auth d.status_fail dont_care auth_fail
      ∷ row_of ev_auth d.status_no_ack dont_care auth_no_ack
      ∷ row_of ev_reassoc d.status_fail dont_care reassoc_fail
      ∷ row_of ev_reassoc d.status_timeout dont_care reassoc_timeout
      ∷ row_of ev_reassoc d.status_abort dont_care reassoc_abort
      ∷ row_of ev_deauth_ind dont_care dont_care deauthed
      ∷ row_of ev_disassoc_ind dont_care dont_care disassoc_ind
      ∷ row_of ev_disassoc dont_care dont_care disassociated
      ∷ []

  unfoldable pub wl_iw_conn_status_str : IwEvent → ℕ → ℕ → Option Cause
  wl_iw_conn_status_str event status reason = first_cause event_map event status reason

  unfoldable pub wl_iw_check_conn_fail : IwMsg → Option Cause
  wl_iw_check_conn_fail e = wl_iw_conn_status_str e.event_type e.status e.reason

  -- sizeof(extra)
  abbrev pub extra_size : ℕ
  extra_size = d.custom_max + 1

  abbrev pub zero_extra : Bytes
  zero_extra = replicate extra_size 0

  -- A string longer than the buffer, without its NUL, is refused; strcpy adds the NUL.
  unfoldable pub wl_iw_send_priv_event : Bytes → IwM ℤ
  wl_iw_send_priv_event flag =
      if ltb extra_size (length flag)
      then pure (negsuc 0)
      else wireless_send_event iwev_custom zero_addr (length flag)
          (raw_bytes (memcpy zero_extra 0 (flag ++ 0 ∷ []) (length flag + 1)))

  -- `wrqu.data.length` is a u16.
  abbrev pub send_extra : EventCmd → Addr → ℕ → Bytes → IwM ℤ
  send_extra cmd addr len extra = wireless_send_event cmd addr (len % 2 ^ 16) (raw_bytes extra)

  -- `datalen + 1 <= sizeof(extra)` on a u32.
  unfoldable pub send_action_frame : IwMsg → IwM ℤ
  send_action_frame e =
      if leb ((e.datalen + 1) % 2 ^ 32) extra_size
      then send_extra iwev_custom e.addr (e.datalen + 1)
          (memcpy (set zero_extra 0 d.action_frame_char) 1 e.bytes e.datalen)
      else send_extra iwev_custom e.addr 0 zero_extra

  unfoldable pub send_action_complete : IwMsg → IwM ℤ
  send_action_complete e =
      if leb 5 extra_size
      then send_extra iwev_custom e.addr 5
          (memcpy (set zero_extra 0 d.action_frame_complete_char) 1 (word_bytes e.status) 4)
      else send_extra iwev_custom e.addr 0 zero_extra

  -- The length is announced whether or not the bytes were copied.
  unfoldable pub send_assoc_ie : EventCmd → IwMsg → IwM ℤ
  send_assoc_ie cmd e =
      send_extra cmd e.addr e.datalen
        (if ltb e.datalen extra_size then memcpy zero_extra 0 e.bytes e.datalen else zero_extra)

  -- The last candidate, or none at all, is sent again by what follows the switch.
  unfoldable pub send_pmkid_cache : IwMsg → IwM ℤ
  send_pmkid_cache e = elim e.candidates [
    | none ↦ pure (pos 0)
    | some c ↦ do
      send_candidates d.pmkid_cand_size e.addr c.cand c.npmkid_cand 0
      wireless_send_event iwev_pmkidcand e.addr d.pmkid_cand_size (elim c.npmkid_cand [
        | zero ↦ raw_bytes zero_extra
        | suc n ↦ pmkid_cand (c.cand n).0 (c.cand n).1
      ])
  ]

  -- The switch and the event that follows it.
  unfoldable pub send_by_type : IwMsg → IwM ℤ
  send_by_type e = elim e.event_type [
    | ev_txfail ↦ send_extra iwev_txdrop e.addr 0 zero_extra
    | ev_join ↦ send_extra iwev_registered e.addr 0 zero_extra
    | ev_assoc_ind ↦ send_extra iwev_registered e.addr 0 zero_extra
    | ev_reassoc_ind ↦ send_extra iwev_registered e.addr 0 zero_extra
    | ev_deauth_ind ↦ send_extra siocgiwap zero_addr 0 zero_extra
    | ev_disassoc_ind ↦ send_extra siocgiwap zero_addr 0 zero_extra
    | ev_link ↦
        send_extra siocgiwap (if has e.flags d.host.event_msg_link then e.addr else zero_addr) 0
          zero_extra
    | ev_ndis_link ↦
        send_extra siocgiwap (if has e.flags d.host.event_msg_link then e.addr else zero_addr) 0
          zero_extra
    | ev_action_frame ↦ send_action_frame e
    | ev_action_frame_complete ↦ send_action_complete e
    | ev_mic_error ↦
        wireless_send_event iwev_michaelmicfailure e.addr d.mic_failure_size
          (mic_failure (has e.flags d.host.event_msg_group) e.addr)
    | ev_assoc_req_ie ↦ send_assoc_ie iwev_assocreqie e
    | ev_assoc_resp_ie ↦ send_assoc_ie iwev_assocrespie e
    | ev_pmkid_cache ↦ send_pmkid_cache e
    | ev_scan_complete ↦ wireless_send_event siocgiwscan e.addr 0 no_extra
    | _ ↦ pure (pos 0)
  ]

  -- A custom event follows where the table has a cause; it keeps the address.
  unfoldable pub wl_iw_event : IwMsg → IwM ℤ
  wl_iw_event e = send_by_type e >>= λ _. elim (wl_iw_check_conn_fail e) [
    | none ↦ pure (pos 0)
    | some c ↦
        wireless_send_event iwev_custom (sent_addr e) (d.text_len c e.status e.reason)
          (conn_text c e.status e.reason)
  ]
    where
      -- The address that the switch leaves in the union.
      sent_addr : IwMsg → Addr
      sent_addr m = elim m.event_type [
        | ev_deauth_ind ↦ zero_addr
        | ev_disassoc_ind ↦ zero_addr
        | _ ↦ m.addr
      ]
