-- ===== src/Tests/Wireless.antt =====
-- Examples of the wireless extensions' theorems, with a driver whose firmware takes each call and
-- keeps the variable wpa_auth.
use broadcom_bcm4312_fix.Prelude.{
  [], arith, false, leb, length-replicate, ltb, none, refl, replicate, some, true, ◌*◌, ◌+◌, ◌-◌,
  ◌/◌, ◌∷◌, ◌≡◌,
}
use broadcom_bcm4312_fix.Tests.{peer, platform}
use broadcom_bcm4312_fix.Iw.{Driver, IwWorld}
use broadcom_bcm4312_fix.Headers.{zero_addr, zero_ssid}
use broadcom_bcm4312_fix.State.{PmkList}
use broadcom_bcm4312_fix.Pmk.{find_pmkid, zero_pmkid}
use broadcom_bcm4312_fix.Iw.Encode.{EncodeExt, alg_tkip}
use broadcom_bcm4312_fix.Iw.Auth.{auth_key_mgmt, auth_wpa_version, wl_iw_get_wpaauth}
use broadcom_bcm4312_fix.Iw.Call.{Request, copy_in, h_set_nick, tokens_of}
use broadcom_bcm4312_fix.Iw.Spy.{Stats, zero_quality}
use broadcom_bcm4312_fix.Iw.Pmksa.{pmksa_removed}
use broadcom_bcm4312_fix.Iw.Auth.Memory.{get_wpaauth-set_wpaauth, last_word, written}
use broadcom_bcm4312_fix.Iw.Call.Bounds.{Fits, copy_in-Fits}
use broadcom_bcm4312_fix.Iw.Pmksa.Missing.{Left, pmksa_removed-Left}
use broadcom_bcm4312_fix.Iw.Encode.Agreement.{AddsKey, params_of, set_encodeext-add_key}
use broadcom_bcm4312_fix.Iw.Encode.{wl_iw_set_encodeext}
use broadcom_bcm4312_fix.Iw.Monad.{set_ioctl}
use broadcom_bcm4312_fix.State.{key_arg}
use broadcom_bcm4312_fix.Connect.{key_size}
use broadcom_bcm4312_fix.Headers.{WsecKey}
use broadcom_bcm4312_fix.Headers.Commands.{set_key}
use broadcom_bcm4312_fix.Prelude.Int.{negsuc, pos}

-- Room for each size, and the kernel's constants.
abbrev driver : Driver
driver = record {
  host = platform;
  answer = λ log c. record {
    status = pos 0;
    value = last_word 0 log;
    signed = negsuc 69;
    words = 1 ∷ 6 ∷ 11 ∷ [];
    bytes = [];
    ssid = zero_ssid;
    cnt = record { version = 0; rxundec = 0; rxfragerr = 0; txfail = 0; rxrunt = 0; rxgiant = 0 };
    bss_info = [];
  };
  kmalloc = λ log n. true;
  mhz2channel = λ f s. (f - 2407) / 5;
  channel2mhz = λ c s. 2407 + 5 * c;
  chan_factor_2_4_g = 4814;
  chan_factor_4_g = 8000;
  chan_factor_5_g = 10000;
  maxchannel = 224;
  max_spy = 8;
  max_ap = 64;
  max_bitrates = 32;
  max_frequencies = 32;
  essid_max_size = 32;
  custom_max = 256;
  qual_updated = 15;
  cap_ess = 1;
  cap_ibss = 2;
  cap_privacy = 16;
  arphrd_ether = 1;
  scan_req_size = 312;
  scan_this_essid = 2;
  default_rts_len = 2347;
  default_frag_len = 2346;
  txpow_mwatt = 1;
  retry_lifetime = 0x2000;
  retry_type = 0xF000;
  retry_limit = 0x1000;
  retry_long = 0x20;
  retry_short = 0x10;
  retry_max = 2;
  retry_min = 1;
  power_all_r = 0x300;
  stray_rate = λ i. 0;
  max_default_keys = 4;
  wep1_key_size = 5;
  wep128_key_size = 13;
  tkip_key_size = 32;
  aes_key_size = 16;
  encode_index = 255;
  encode_disabled = 0x8000;
  encode_nokey = 0x800;
  encode_restricted = 0x4000;
  ext_set_tx_key = 8;
  ext_rx_seq_valid = 2;
  encoding_token_max = 64;
  stray_pmkid = λ i. zero_pmkid 16;
  version_disabled = 1;
  version_wpa = 2;
  version_wpa2 = 4;
  cipher_wep40 = 2;
  cipher_wep104 = 16;
  cipher_tkip = 4;
  cipher_ccmp = 8;
  key_mgmt_psk = 2;
  key_mgmt_802_1x = 1;
  alg_open_system = 1;
  alg_shared_key = 2;
  status_success = 0;
  status_fail = 1;
  status_timeout = 2;
  status_no_networks = 3;
  status_abort = 4;
  status_no_ack = 5;
  prune_encr_mismatch = 1;
  reason_rsn_mismatch = 8;
  action_frame_char = 59;
  action_frame_complete_char = 60;
  mic_failure_size = 48;
  pmkid_cand_size = 24;
  text_len = λ c s r. 24;
  range_size = 568;
  scan_max_data = 4096;
  sockaddr_size = 16;
  quality_size = 4;
  parse_tlvs = λ b i. none;
  rsn_id = 48;
  wpa_id = 221;
  stream_fits = λ end used n. leb (used + n) end;
  ev_addr_len = 20;
  ev_uint_len = 8;
  ev_freq_len = 12;
  ev_qual_len = 8;
  ev_point_len = 8;
  ev_lcp_len = 4;
  ev_param_len = 12;
  cnt_version = 6;
  cnt_size = 256;
  qdbm_to_mw = λ q. q;
  mw_to_qdbm = λ m. m;
}

abbrev iw_attached : IwWorld
iw_attached = record {
  iw = record {
    nickname = replicate 32 0;
    spy_num = 0;
    pwsec = 0;
    gwsec = 0;
    privacy_invoked = false;
    spy_addr = replicate 8 zero_addr;
    spy_qual = replicate 8 zero_quality;
    pmkid_list = record { npmkid = 0; pmkid = replicate 15 (zero_pmkid 16) };
  };
  log = [];
}

abbrev empty_stats : Stats
empty_stats = record { stat_qual = zero_quality; code = 0; fragment = 0; retries = 0; misc = 0 }

abbrev tkip_request : EncodeExt
tkip_request = record {
  ext_flags = 2;
  addr = peer;
  alg = alg_tkip;
  key_len = 32;
  key = replicate 32 7;
  rx_seq = 1 ∷ 2 ∷ 3 ∷ 4 ∷ 5 ∷ 6 ∷ 0 ∷ 0 ∷ [];
}

set_encodeext-add_key_example :
    (k : WsecKey) × (wl_iw_set_encodeext driver 1 tkip_request
      ≡ set_ioctl driver set_key (key_arg k) (key_size driver.host))
    × AddsKey driver 0 peer (params_of driver tkip_request) k
set_encodeext-add_key_example = set_encodeext-add_key driver 1 tkip_request refl refl refl refl

abbrev two_entries : PmkList
two_entries = record {
  npmkid = 2;
  pmkid = replicate 15 (record { bssid = peer; pmkid = replicate 16 9 });
}

pmksa_removed-Left_example :
    Left two_entries zero_addr
      (pmksa_removed driver two_entries zero_addr)
      (ltb (find_pmkid two_entries zero_addr) 2)
pmksa_removed-Left_example =
    pmksa_removed-Left driver two_entries zero_addr (omega arith) (omega arith)

get_wpaauth-set_wpaauth_example :
    ((wl_iw_get_wpaauth driver auth_wpa_version (written driver 0 true true iw_attached)).0
      ≡ (pos 0, some 4))
    × ((wl_iw_get_wpaauth driver auth_key_mgmt (written driver 0 true true iw_attached)).0
        ≡ (pos 0, some 2))
get_wpaauth-set_wpaauth_example =
    get_wpaauth-set_wpaauth driver 0 true true iw_attached (λ log c. refl, λ log n. refl)
      (refl, refl, refl, refl, refl, refl, refl)

abbrev nick_request : Request
nick_request = record {
  cmd = 28;
  len = 3;
  pointer = some (65 ∷ 66 ∷ 0 ∷ []);
  from_user = true;
  to_user = true;
}

copy_in-Fits_example :
    Fits driver h_set_nick nick_request
      (65 ∷ 66 ∷ 0 ∷ [])
      (copy_in driver (λ n. replicate n 1) [] h_set_nick nick_request)
copy_in-Fits_example =
    copy_in-Fits driver (λ n. replicate n 1) [] h_set_nick nick_request (65 ∷ 66 ∷ 0 ∷ [])
      (λ n. length-replicate n 1) refl (unfold tokens_of in omega arith)
