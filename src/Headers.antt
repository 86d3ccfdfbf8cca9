-- ===== src/Headers.antt =====
-- The structures and constants of src/include/wlioctl.h and src/wl/sys/wl_cfg80211_hybrid.h that
-- the cfg80211 layer works with, and symbols for the constants of headers that the repository does
-- not hold (kernel headers, proto/*.h, bcmwifi_channels.h).
pub mod Commands
use broadcom_bcm4312_fix.Prelude.{ℕ, ◌+◌, ◌*◌, ◌^◌, List, Bool, Option, replicate}
use broadcom_bcm4312_fix.Prelude.Int.{ℤ}

-- Bytes of a C buffer.
abbrev pub Bytes : Type 0
Bytes = List ℕ

-- An Ethernet address, ETHER_ADDR_LEN bytes.
abbrev pub Addr : Type 0
Addr = List ℕ

-- Six octets; ETHER_ADDR_STR_LEN is 18, three characters for each.
abbrev pub addr_len : ℕ
addr_len = 6

abbrev pub zero_addr : Addr
zero_addr = replicate addr_len 0

-- `ether_bcast`
abbrev pub broadcast_addr : Addr
broadcast_addr = replicate addr_len 255

-- The kernel's error numbers; only their being different matters. `other` is any other non-zero
-- value that `wlc_ioctl_internal` may return.
pub data Errno : Type 0 where
  eopnotsupp einval eio enospc enoent enomem enodev e2big ebusy : Errno
  other : ℕ → Errno

-- An s32 status: 0, or a non-zero code.
pub data Status : Type 0 where
  ok : Status
  fail : Errno → Status

-- WLAN_CIPHER_SUITE_*; `raw` is any other word, 0 after a memset.
pub data Suite : Type 0 where
  wep40 wep104 tkip ccmp aes_cmac : Suite
  raw : ℕ → Suite

-- WLAN_AKM_SUITE_*
pub data Akm : Type 0 where
  ieee8021x psk : Akm
  raw : ℕ → Akm

-- enum nl80211_auth_type
pub data AuthType : Type 0 where
  open_system shared_key network_eap automatic : AuthType
  raw : ℕ → AuthType

-- enum nl80211_iftype
pub data IfType : Type 0 where
  unspecified adhoc station monitor wds : IfType
  raw : ℕ → IfType

-- enum nl80211_tx_power_setting
pub data TxPowerSetting : Type 0 where
  automatic limited fixed : TxPowerSetting

-- The two bands that the driver registers; `other` is any other value of the enum.
pub data Band : Type 0 where
  ghz2 ghz5 other : Band

-- The names of the firmware's variables that this layer reads and writes.
pub data IoVar : Type 0 where
  auth wpa_auth wsec rtsthresh fragthresh qtxpower wsec_restrict chanspec : IoVar
  assoc_info assoc_req_ies assoc_resp_ies pmkid_info offloads : IoVar
  wowl wowl_wakeind wowl_replay : IoVar
  leddc vlan_mode nmode mimo_bw_cap sgi_tx a_rate bg_rate wpaie counters : IoVar
  tkip_countermeasures is_wps_enrollee rx_unencrypted_eapol : IoVar

-- wlc_ssid_t
pub record Ssid : Type 0 where
  pub ssid_len : ℕ
  pub ssid : Bytes

abbrev pub zero_ssid : Ssid
zero_ssid = record { ssid_len = 0; ssid = replicate 32 0 }

-- wl_wsec_key_t, without its padding.
pub record WsecKey : Type 0 where
  pub index : ℕ
  pub len : ℕ
  pub key_data : Bytes
  pub algo : ℕ
  pub flags : ℕ
  pub iv_initialized : Bool
  pub rxiv_hi : ℕ
  pub rxiv_lo : ℕ
  pub ea : Addr

-- wl_join_params_t with the words behind it that `chanspec_list` names.
pub record JoinParams : Type 0 where
  pub ssid : Ssid
  pub bssid : Addr
  pub chanspec_num : ℕ
  pub chanspec_list : List ℕ

-- pmkid_t
pub record Pmkid : Type 0 where
  pub bssid : Addr
  pub pmkid : Bytes

-- wl_wowl_wakeind_t and the parts of struct cfg80211_wowlan_wakeup that are filled in.
pub record Wakeup : Type 0 where
  pub magic_pkt : Bool
  pub disconnect : Bool
  pub gtk_rekey_failure : Bool
  pub eap_identity_req : Bool
  pub four_way_handshake : Bool

-- struct key_params, as `wl_cfg80211_add_key` reads it and `wl_cfg80211_get_key` fills it in.
pub record KeyParams : Type 0 where
  pub key : Bytes
  pub key_len : ℕ
  pub seq : Bytes
  pub seq_len : ℕ
  pub cipher : Suite

-- The parts of wl_bss_info_t that are read, with the `ie_length` bytes at `ie_offset`.
pub record BssInfo : Type 0 where
  pub length : ℕ
  pub bssid : Addr
  pub beacon_period : ℕ
  pub capability : ℕ
  pub ssid_len : ℕ
  pub ssid : Bytes
  pub chanspec : ℕ
  pub rssi : ℤ
  pub ctl_ch : ℕ
  pub ie_length : ℕ
  pub ies : Bytes

-- wl_scan_results_t
pub record ScanResults : Type 0 where
  pub version : ℕ
  pub count : ℕ
  pub bss_info : List BssInfo

-- A struct ieee80211_channel.
pub record Channel : Type 0 where
  pub band : Band
  pub center_freq : ℕ
  pub hw_value : ℕ

-- Sizes of buffers and structures, in bytes.
abbrev pub ssid_size : ℕ
ssid_size = 4 + 32

-- OFFSETOF(wl_assoc_params_t, chanspec_list): the address, padded to a word, and `chanspec_num`.
abbrev pub assoc_params_fixed_size : ℕ
assoc_params_fixed_size = 8 + 4

-- sizeof(struct wl_join_params): the flexible `chanspec_list` adds nothing.
abbrev pub join_params_size : ℕ
join_params_size = ssid_size + assoc_params_fixed_size

abbrev pub int_size : ℕ
int_size = 4

abbrev pub scb_size : ℕ
scb_size = 12

abbrev pub ioctl_smlen : ℕ
ioctl_smlen = 256

abbrev pub ioctl_len_max : ℕ
ioctl_len_max = 2048

abbrev pub extra_buf_max : ℕ
extra_buf_max = 2048

abbrev pub assoc_info_max : ℕ
assoc_info_max = 512

abbrev pub tlv_info_max : ℕ
tlv_info_max = 1024

abbrev pub bss_info_max : ℕ
bss_info_max = 2048

abbrev pub scan_buf_base : ℕ
scan_buf_base = 16 * 1024

abbrev pub ap_max : ℕ
ap_max = 256

abbrev pub bss_info_version : ℕ
bss_info_version = 109

abbrev pub maxpmkid : ℕ
maxpmkid = 16

-- wl_cfg80211_mode
abbrev pub mode_bss : ℕ
mode_bss = 0

abbrev pub mode_ibss : ℕ
mode_ibss = 1

-- wsec bits
abbrev pub wep_enabled : ℕ
wep_enabled = 0x0001

abbrev pub tkip_enabled : ℕ
tkip_enabled = 0x0002

abbrev pub aes_enabled : ℕ
aes_enabled = 0x0004

-- wpa_auth bits
abbrev pub wpa_auth_disabled : ℕ
wpa_auth_disabled = 0x0000

abbrev pub wpa_auth_none : ℕ
wpa_auth_none = 0x0001

abbrev pub wpa_auth_unspecified : ℕ
wpa_auth_unspecified = 0x0002

abbrev pub wpa_auth_psk : ℕ
wpa_auth_psk = 0x0004

abbrev pub wpa2_auth_unspecified : ℕ
wpa2_auth_unspecified = 0x0040

abbrev pub wpa2_auth_psk : ℕ
wpa2_auth_psk = 0x0080

-- CRYPTO_ALGO_*
abbrev pub algo_off : ℕ
algo_off = 0

abbrev pub algo_wep1 : ℕ
algo_wep1 = 1

abbrev pub algo_tkip : ℕ
algo_tkip = 2

abbrev pub algo_wep128 : ℕ
algo_wep128 = 3

abbrev pub algo_aes_ccm : ℕ
algo_aes_ccm = 4

-- WL_PRIMARY_KEY, 1 << 1
abbrev pub primary_key : ℕ
primary_key = 2

-- WL_TXPWR_OVERRIDE, 1 << 31
abbrev pub txpwr_override : ℕ
txpwr_override = 2 ^ 31

-- WL_RADIO_SW_DISABLE << 16
abbrev pub radio_sw_disable_mask : ℕ
radio_sw_disable_mask = 2 ^ 16

abbrev pub pm_fast : ℕ
pm_fast = 2

abbrev pub pm_force_off : ℕ
pm_force_off = 3
