-- ===== src/State.antt =====
-- struct wl_cfg80211_priv of src/wl/sys/wl_cfg80211_hybrid.h, the effects that the layer has on the
-- firmware and on the kernel, what it takes from them, and the monad in which its functions run.
pub mod Keeps
pub mod Total
use broadcom_bcm4312_fix.Prelude.{Bool, List, Option, false, none, some, true, ℕ, ◌∷◌}
use broadcom_bcm4312_fix.Headers.{
  Addr, Akm, AuthType, Band, BssInfo, Bytes, Channel, IfType, IoVar, JoinParams, KeyParams, Pmkid,
  ScanResults, Ssid, Status, Suite, Wakeup, WsecKey, fail, ok, wpa_auth,
}
use broadcom_bcm4312_fix.Headers.Commands.{get_channel}
use broadcom_bcm4312_fix.Prelude.Int.{ℤ}

-- struct wl_cfg80211_conf
pub record Conf : Type 0 where
  pub mode : ℕ
  pub frag_threshold : ℕ
  pub rts_threshold : ℕ
  pub retry_short : ℕ
  pub retry_long : ℕ
  pub tx_power : ℤ
  pub channel : Option Channel

-- struct wl_cfg80211_security
pub record Security : Type 0 where
  pub wpa_versions : ℕ
  pub auth_type : AuthType
  pub cipher_pairwise : Suite
  pub cipher_group : Suite
  pub wpa_auth : Akm

-- struct wl_cfg80211_profile
pub record Profile : Type 0 where
  pub ssid : Ssid
  pub bssid : Addr
  pub sec : Security
  pub active : Bool

-- struct wl_cfg80211_connect_info; `none` is NULL.
pub record ConnectInfo : Type 0 where
  pub req_ie : Option Bytes
  pub req_ie_len : ℕ
  pub resp_ie : Option Bytes
  pub resp_ie_len : ℕ

-- struct wl_cfg80211_ie
pub record Ie : Type 0 where
  pub offset : ℕ
  pub buf : Bytes

-- struct wl_cfg80211_pmk_list: the entries are numbered from the word behind `npmkid`.
pub record PmkList : Type 0 where
  pub npmkid : ℕ
  pub pmkid : List Pmkid

-- struct wl_cfg80211_priv. `connecting` and `connected` are the two bits of `status`; `iftype`,
-- `band_5ghz_n` and `wowlan` are what the layer writes into its wireless_dev and wiphy. The event
-- queue is in `Events`.
pub record Priv : Type 0 where
  pub conf : Conf
  pub scan_request : Option ℕ
  pub scan_req_int : Ssid
  pub ie : Ie
  pub bssid : Addr
  pub profile : Profile
  pub conn_info : ConnectInfo
  pub pmk_list : PmkList
  pub connecting : Bool
  pub connected : Bool
  pub active_scan : Bool
  pub passive : Bool
  pub offloads : Bool
  pub iftype : IfType
  pub band_5ghz_n : Bool
  pub wowlan : Bool

-- The argument of an ioctl, by the structure that the buffer holds.
pub data Arg : Type 0 where
  -- an int, read or written
  int_arg : ℕ → Arg
  -- a variable's name, followed by nothing, an int or bytes
  var_name : IoVar → Arg
  var_word : IoVar → ℕ → Arg
  var_bytes : IoVar → Bytes → Arg
  var_pmk_list : IoVar → PmkList → Arg
  ssid_arg : Ssid → Arg
  join_arg : JoinParams → Arg
  key_arg : WsecKey → Arg
  scb_arg : Addr → ℕ → Arg
  addr_arg : Addr → Arg
  rateset_arg : ℕ → Bytes → Arg
  -- a buffer whose first word is its size
  buffer_arg : ℕ → Arg

pub record Ioctl : Type 0 where
  pub cmd : ℕ
  pub arg : Arg
  pub len : ℕ

-- What the firmware answers: the status and what it leaves in the caller's buffer, read as an int,
-- as bytes, as a key, as a BSS or as scan results.
pub record Reply : Type 0 where
  pub status : Status
  pub value : ℕ
  pub bytes : Bytes
  pub wsec_key : WsecKey
  pub bss : BssInfo
  pub results : ScanResults

-- A frame or a BSS handed to cfg80211.
pub record Inform : Type 0 where
  pub channel : ℕ
  pub probe_resp : Bool
  pub own_ssid : Bool
  pub rssi : ℤ
  pub bssid : Addr
  pub beacon_int : ℕ
  pub capab_info : ℕ
  pub ies : Bytes
  pub frame_len : ℕ

-- What the layer does to the world outside, in the order in which it happens.
pub data Effect : Type 0 where
  ioctl_call : Ioctl → Effect
  scan_done : ℕ → Bool → Effect
  connect_result : Addr → ConnectInfo → Bool → Effect
  roamed : Addr → ConnectInfo → Effect
  ibss_joined : Addr → Option ℕ → Effect
  disconnected : Effect
  michael_mic_failure : Addr → Bool → Effect
  inform_frame : Inform → Effect
  inform_bss : Inform → Effect
  put_bss : Effect
  wowlan_wakeup : Option Wakeup → Effect
  rekey_notify : Addr → Bytes → Effect
  key_callback : KeyParams → Effect

-- The newest effect comes first.
pub record World : Type 0 where
  pub priv : Priv
  pub log : List Effect

-- What the layer takes from code that the repository does not hold. A reply may depend on all that
-- happened before.
pub record Platform : Type 0 where
  -- wlc_ioctl_internal, in the binary part of the driver
  pub reply : List Effect → Ioctl → Reply
  -- bcm_mkiovar: the length of name, NUL and data, or 0 where they do not fit
  pub mkiovar : IoVar → ℕ → ℕ → ℕ
  -- the kernel's allocator, for a size
  pub kmalloc : List Effect → ℕ → Bool
  -- cfg80211_get_bss: the IEs and the channel of a cached BSS
  pub get_bss : List Effect → Addr → Ssid → Option (Bytes × Channel)
  -- cfg80211_inform_bss and cfg80211_inform_bss_frame: whether the result is non-NULL
  pub informed : List Effect → Bool
  -- bcm_parse_tlvs for the TIM element: whether there is one
  pub has_tim : Bytes → Bool
  -- ieee80211_frequency_to_channel, ieee80211_channel_to_frequency and ieee80211_get_channel
  pub frequency_to_channel : ℕ → ℕ
  pub channel_to_frequency : ℕ → Band → ℕ
  pub get_channel : ℕ → Option ℕ
  -- wf_chspec_ctlchan, CHSPEC_CHANNEL and CH_MAX_2G_CHANNEL
  pub ctlchan : ℕ → ℕ
  pub chspec_channel : ℕ → ℕ
  pub ch_max_2g : ℕ
  -- the WL_CHANSPEC_* masks, and the chanspec_t's number of bytes
  pub chanspec_band_2g : ℕ
  pub chanspec_band_5g : ℕ
  pub chanspec_bw_20 : ℕ
  pub chanspec_chan_mask : ℕ
  pub sizeof_chanspec : ℕ
  -- the values of the cipher suites, which the source also uses as bit masks
  pub suite_bits : Suite → ℕ
  -- NL80211_WPA_VERSION_1 and _2, WLC_EVENT_MSG_LINK and _GROUP
  pub wpa_version_1 : ℕ
  pub wpa_version_2 : ℕ
  pub event_msg_link : ℕ
  pub event_msg_group : ℕ
  -- the WIPHY_PARAM_* masks
  pub param_rts_threshold : ℕ
  pub param_frag_threshold : ℕ
  pub param_retry_long : ℕ
  pub param_retry_short : ℕ
  -- DOT11_MAX_KEY_SIZE, WPA2_PMKID_LEN
  pub max_key_size : ℕ
  pub pmkid_len : ℕ
  -- ETHER_ISMULTI
  pub is_multi : Addr → Bool
  -- sizeof(struct ieee80211_mgmt) and the offset of its u.beacon.variable
  pub sizeof_mgmt : ℕ
  pub beacon_variable_offset : ℕ
  -- MBM_TO_DBM
  pub mbm_to_dbm : ℤ → ℤ

-- `none` is BUG(), which stops the kernel.
abbrev pub M : Type 0 → Type 0
M A = World → Option (A × World)

abbrev pub pure : {A : Type 0} → A → M A
pure a w = some (a, w)

abbrev pub bug : {A : Type 0} → M A
bug w = none

-- `>>=` goes on with whatever a call returned; `>>` is `err = call; if (err) return err;`.
infixl 5 ◌>>=◌ ◌>>◌
abbrev pub ◌>>=◌ : {A B : Type 0} → M A → (A → M B) → M B
◌>>=◌ m f w = elim (m w) [ none ↦ none | some (a, w') ↦ f a w' ]

abbrev pub if_ok : Status → M Status → M Status
if_ok ok k = k
if_ok (fail e) k = pure (fail e)

abbrev pub ◌>>◌ : M Status → M Status → M Status
m >> k = m >>= λ err. if_ok err k

-- Reads of the private state and of the whole world, an update of the private state, and an effect other than an ioctl.
abbrev pub get : M Priv
get w = some (w.priv, w)

abbrev pub world : M World
world w = some (w, w)

abbrev pub modify : (Priv → Priv) → M Status
modify f w = some (ok, record w { priv = f w.priv })

abbrev pub emit : Effect → M Status
emit e w = some (ok, record w { log = e ∷ w.log })

-- Whether a status is an error, as `if (err)` has it.
abbrev pub is_ok : Status → Bool
is_ok ok = true
is_ok (fail e) = false

abbrev pub when : Bool → M Status → M Status
when true m = m
when false m = pure ok

abbrev pub on_option : {A B : Type 0} → Option A → M B → (A → M B) → M B
on_option none m f = m
on_option (some a) m f = f a
