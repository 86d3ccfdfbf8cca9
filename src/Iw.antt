-- ===== src/Iw.antt =====
-- The wireless extensions (src/wl/sys/wl_iw.c): wl_iw_t of src/wl/sys/wl_iw.h, the effects of the
-- handlers, and what they take from code that the repository does not hold. An int that can be
-- negative is a ℤ; a status is such an int, as the source returns it. WIRELESS_EXT is taken to be
-- above 20, so that every handler is compiled.
pub mod Monad
pub mod Radio
pub mod Spy
pub mod Station
pub mod Limits
pub mod Encode
pub mod Pmksa
pub mod Auth
pub mod Scan
pub mod Range
pub mod Report
pub mod Call
use broadcom_bcm4312_fix.Prelude.{Bool, List, Option, ℕ}
use broadcom_bcm4312_fix.Headers.{Addr, BssInfo, Bytes, Pmkid, Ssid}
use broadcom_bcm4312_fix.State.{Ioctl, Platform, PmkList}
use broadcom_bcm4312_fix.Prelude.Int.{ℤ}

-- struct iw_quality
pub record Quality : Type 0 where
  pub qual : ℕ
  pub level : ℕ
  pub noise : ℕ
  pub updated : ℕ

-- struct wl_iw, without `wstats` and `wlinfo`, and the static `pmkid_list` of wl_iw_set_pmksa.
pub record WlIw : Type 0 where
  pub nickname : Bytes
  pub spy_num : ℕ
  pub pwsec : ℕ
  pub gwsec : ℕ
  pub privacy_invoked : Bool
  pub spy_addr : List Addr
  pub spy_qual : List Quality
  pub pmkid_list : PmkList

-- The commands of the events: IWEV* and two of SIOCGIW*.
pub data EventCmd : Type 0 where
  iwev_txdrop iwev_registered iwev_custom iwev_michaelmicfailure : EventCmd
  iwev_assocreqie iwev_assocrespie iwev_pmkidcand siocgiwap siocgiwscan : EventCmd

-- The causes of the failed connections in the source's table.
pub data Cause : Type 0 where
  success no_networks config_mismatch encryp_mismatch rsn_mismatch auth_timeout : Cause
  auth_fail auth_no_ack reassoc_fail reassoc_timeout reassoc_abort : Cause
  deauthed disassoc_ind disassociated : Cause

-- What the buffer behind an event holds: bytes, a struct iw_michaelmicfailure (whether it is for the
-- group key, and the address), a struct iw_pmkid_cand (whether IW_PMKID_CAND_PREAUTH is set, and the
-- address), the text for a cause, a status and a reason; or there is no buffer.
pub data Payload : Type 0 where
  raw_bytes : Bytes → Payload
  mic_failure : Bool → Addr → Payload
  pmkid_cand : Bool → Addr → Payload
  conn_text : Cause → ℕ → ℕ → Payload
  no_extra : Payload

-- What the handlers do to the world outside: a call of the firmware, and an event to user space with
-- its command, the address and the length of its union, and its buffer.
pub data IwEffect : Type 0 where
  fw_call : Ioctl → IwEffect
  send_event : EventCmd → Addr → ℕ → Payload → IwEffect

-- The parts of wl_bss_info_t that the scan handlers read; `bss` has those that the cfg80211 layer
-- reads too.
pub record IwBss : Type 0 where
  pub bss : BssInfo
  pub phy_noise : ℤ
  pub rate_count : ℕ
  pub rates : Bytes

-- The parts of wl_cnt_t that are read.
pub record Counters : Type 0 where
  pub version : ℕ
  pub rxundec : ℕ
  pub rxfragerr : ℕ
  pub txfail : ℕ
  pub rxrunt : ℕ
  pub rxgiant : ℕ

-- The firmware's answer: the status, and what it leaves in the buffer, read as an int that is not
-- negative, as one that can be, as words, as bytes, as an SSID, as counters or as scan results with
-- the count `value`.
pub record Answer : Type 0 where
  pub status : ℤ
  pub value : ℕ
  pub signed : ℤ
  pub words : List ℕ
  pub bytes : Bytes
  pub ssid : Ssid
  pub cnt : Counters
  pub bss_info : List IwBss

-- What the handlers take from code that the repository does not hold. `host` is what they share
-- with the cfg80211 layer.
pub record Driver : Type 0 where
  pub host : Platform
  pub answer : List IwEffect → Ioctl → Answer
  pub kmalloc : List IwEffect → ℕ → Bool
  -- wf_mhz2channel and wf_channel2mhz, and the start factors WF_CHAN_FACTOR_*
  pub mhz2channel : ℕ → ℕ → ℕ
  pub channel2mhz : ℕ → ℕ → ℕ
  pub chan_factor_2_4_g : ℕ
  pub chan_factor_4_g : ℕ
  pub chan_factor_5_g : ℕ
  -- MAXCHANNEL
  pub maxchannel : ℕ
  -- IW_MAX_SPY, IW_MAX_AP, IW_MAX_BITRATES, IW_MAX_FREQUENCIES, IW_ESSID_MAX_SIZE, IW_CUSTOM_MAX
  pub max_spy : ℕ
  pub max_ap : ℕ
  pub max_bitrates : ℕ
  pub max_frequencies : ℕ
  pub essid_max_size : ℕ
  pub custom_max : ℕ
  -- IW_QUAL_ALL_UPDATED | IW_QUAL_DBM, DOT11_CAP_ESS, DOT11_CAP_IBSS, DOT11_CAP_PRIVACY
  pub qual_updated : ℕ
  pub cap_ess : ℕ
  pub cap_ibss : ℕ
  pub cap_privacy : ℕ
  -- ARPHRD_ETHER, sizeof(struct iw_scan_req), IW_SCAN_THIS_ESSID
  pub arphrd_ether : ℕ
  pub scan_req_size : ℕ
  pub scan_this_essid : ℕ
  -- DOT11_DEFAULT_RTS_LEN, DOT11_DEFAULT_FRAG_LEN
  pub default_rts_len : ℕ
  pub default_frag_len : ℕ
  -- IW_TXPOW_MWATT, IW_RETRY_* and IW_POWER_ALL_R
  pub txpow_mwatt : ℕ
  pub retry_lifetime : ℕ
  pub retry_type : ℕ
  pub retry_limit : ℕ
  pub retry_long : ℕ
  pub retry_short : ℕ
  pub retry_max : ℕ
  pub retry_min : ℕ
  pub power_all_r : ℕ
  -- the byte that a read outside of an array of rates finds, by its index
  pub stray_rate : ℕ → ℕ
  -- DOT11_MAX_DEFAULT_KEYS, WEP1_KEY_SIZE, WEP128_KEY_SIZE, TKIP_KEY_SIZE, AES_KEY_SIZE
  pub max_default_keys : ℕ
  pub wep1_key_size : ℕ
  pub wep128_key_size : ℕ
  pub tkip_key_size : ℕ
  pub aes_key_size : ℕ
  -- IW_ENCODE_*, IW_ENCODE_EXT_* and IW_ENCODING_TOKEN_MAX
  pub encode_index : ℕ
  pub encode_disabled : ℕ
  pub encode_nokey : ℕ
  pub encode_restricted : ℕ
  pub ext_set_tx_key : ℕ
  pub ext_rx_seq_valid : ℕ
  pub encoding_token_max : ℕ
  -- what stands behind the array of `pmkid_list`, by the index of the entry
  pub stray_pmkid : ℕ → Pmkid
  -- IW_AUTH_WPA_VERSION_*, IW_AUTH_CIPHER_*, IW_AUTH_KEY_MGMT_* and IW_AUTH_ALG_*
  pub version_disabled : ℕ
  pub version_wpa : ℕ
  pub version_wpa2 : ℕ
  pub cipher_wep40 : ℕ
  pub cipher_wep104 : ℕ
  pub cipher_tkip : ℕ
  pub cipher_ccmp : ℕ
  pub key_mgmt_psk : ℕ
  pub key_mgmt_802_1x : ℕ
  pub alg_open_system : ℕ
  pub alg_shared_key : ℕ
  -- WLC_EVENT_MSG_LINK is that of the cfg80211 layer. WLC_E_STATUS_*, WLC_E_PRUNE_ENCR_MISMATCH,
  -- WLC_E_RSN_MISMATCH, and WLC_E_ACTION_FRAME and WLC_E_ACTION_FRAME_COMPLETE as a char
  pub status_success : ℕ
  pub status_fail : ℕ
  pub status_timeout : ℕ
  pub status_no_networks : ℕ
  pub status_abort : ℕ
  pub status_no_ack : ℕ
  pub prune_encr_mismatch : ℕ
  pub reason_rsn_mismatch : ℕ
  pub action_frame_char : ℕ
  pub action_frame_complete_char : ℕ
  -- sizeof(struct iw_michaelmicfailure), sizeof(struct iw_pmkid_cand), and the length of the text that
  -- snprintf makes of a cause, a status and a reason
  pub mic_failure_size : ℕ
  pub pmkid_cand_size : ℕ
  pub text_len : Cause → ℕ → ℕ → ℕ
  -- sizeof(struct iw_range), IW_SCAN_MAX_DATA, sizeof(struct sockaddr), sizeof(struct iw_quality)
  pub range_size : ℕ
  pub scan_max_data : ℕ
  pub sockaddr_size : ℕ
  pub quality_size : ℕ
  -- bcm_parse_tlvs: what follows from the first element with an identifier on, with the element
  pub parse_tlvs : Bytes → ℕ → Option Bytes
  pub rsn_id : ℕ
  pub wpa_id : ℕ
  -- the kernel's iwe_stream_add_*: whether there is room, for the number of bytes in all, what is in
  -- the stream, the bytes to come, and for the values of an event those that it has
  pub stream_fits : ℕ → ℕ → ℕ → Bool
  -- IW_EV_ADDR_LEN, IW_EV_UINT_LEN, IW_EV_FREQ_LEN, IW_EV_QUAL_LEN, IW_EV_POINT_LEN,
  -- IW_EV_LCP_LEN, IW_EV_PARAM_LEN
  pub ev_addr_len : ℕ
  pub ev_uint_len : ℕ
  pub ev_freq_len : ℕ
  pub ev_qual_len : ℕ
  pub ev_point_len : ℕ
  pub ev_lcp_len : ℕ
  pub ev_param_len : ℕ
  -- WL_CNT_T_VERSION, sizeof(wl_cnt_t)
  pub cnt_version : ℕ
  pub cnt_size : ℕ
  -- bcm_qdbm_to_mw and bcm_mw_to_qdbm
  pub qdbm_to_mw : ℕ → ℕ
  pub mw_to_qdbm : ℕ → ℕ

pub record IwWorld : Type 0 where
  pub iw : WlIw
  -- the newest comes first
  pub log : List IwEffect
