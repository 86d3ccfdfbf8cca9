-- ===== src/Tests.antt =====
-- The concrete platform, worlds and requests of the examples.
mod Buffers
mod Link
mod Requests
mod Lifetime
mod Wireless
mod Glue
mod Shared
mod Device
use broadcom_bcm4312_fix.Prelude.{
  [], arith, false, if◌then◌else◌, leb, length, none, replicate, some, true, ℕ, ◌%◌, ◌*◌, ◌+◌, ◌-◌,
  ◌/◌, ◌^◌, ◌∷◌,
}
use broadcom_bcm4312_fix.Lifecycle.{attached_priv}
use broadcom_bcm4312_fix.Link.{EventMsg, EventType, success}
use broadcom_bcm4312_fix.Connect.{zero_key}
use broadcom_bcm4312_fix.Headers.{Addr, Suite, aes_cmac, ccmp, ok, tkip, wep104, wep40, zero_addr}
use broadcom_bcm4312_fix.State.{Platform, Reply, World}
use broadcom_bcm4312_fix.Scan.Total.{Limited}
use broadcom_bcm4312_fix.Headers.Commands.{get_channel}
use broadcom_bcm4312_fix.Iovar.Laws.{MkiovarFits}
use broadcom_bcm4312_fix.Prelude.Int.{pos}

-- A firmware that accepts everything and answers with one fixed reply.
abbrev pub quiet_reply : Reply
quiet_reply = record {
  status = ok;
  value = 3;
  bytes = 0 ∷ 0 ∷ 0 ∷ 0 ∷ 2 ∷ 0 ∷ 0 ∷ 0 ∷ [];
  wsec_key = record (zero_key 32) { len = 5 };
  bss = record {
    length = 128;
    bssid = zero_addr;
    beacon_period = 100;
    capability = 1;
    ssid_len = 0;
    ssid = replicate 32 0;
    chanspec = 6;
    rssi = pos 0;
    ctl_ch = 6;
    ie_length = 4;
    ies = 1 ∷ 2 ∷ 7 ∷ 8 ∷ [];
  };
  results = record { version = 109; count = 0; bss_info = [] };
}

abbrev pub suite_word : Suite → ℕ
suite_word wep40 = 0x000FAC01
suite_word wep104 = 0x000FAC05
suite_word tkip = 0x000FAC02
suite_word ccmp = 0x000FAC04
suite_word aes_cmac = 0x000FAC06
suite_word (Suite.raw n) = n

abbrev pub platform : Platform
platform = record {
  reply = λ log c. quiet_reply;
  mkiovar = λ v n room. if leb (n + 16) room then n + 16 else 0;
  kmalloc = λ log n. leb n (2 ^ 22);
  get_bss = λ log a s. none;
  informed = λ log. true;
  has_tim = λ b. false;
  frequency_to_channel = λ f. (f - 2407) / 5;
  channel_to_frequency = λ c b. 2407 + 5 * c;
  get_channel = λ f. some f;
  ctlchan = λ c. c % 256;
  chspec_channel = λ c. c % 256;
  ch_max_2g = 14;
  chanspec_band_2g = 0x2000;
  chanspec_band_5g = 0x1000;
  chanspec_bw_20 = 0x0800;
  chanspec_chan_mask = 255;
  sizeof_chanspec = 2;
  suite_bits = suite_word;
  wpa_version_1 = 1;
  wpa_version_2 = 2;
  event_msg_link = 1;
  event_msg_group = 4;
  param_rts_threshold = 8;
  param_frag_threshold = 4;
  param_retry_long = 2;
  param_retry_short = 1;
  max_key_size = 32;
  pmkid_len = 16;
  is_multi = λ a. false;
  sizeof_mgmt = 64;
  beacon_variable_offset = 36;
  mbm_to_dbm = λ m. m;
}

pub mkiovar_fits : MkiovarFits platform
mkiovar_fits = record { small = λ v n h. ground (arith, h); large = λ v n h. ground (arith, h) }

pub kmalloc_limited : Limited platform
kmalloc_limited log n h = ground (arith, h)

-- The world right after attaching.
abbrev pub attached : World
attached = record { priv = attached_priv 16 false; log = [] }

-- A peer, and an event about it.
abbrev pub peer : Addr
peer = 2 ∷ 0 ∷ 0 ∷ 0 ∷ 0 ∷ 9 ∷ []

abbrev pub event_of : EventType → ℕ → EventMsg
event_of t flags = record { event_type = t; flags = flags; status = success; addr = peer }
