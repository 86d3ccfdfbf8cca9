-- ===== src/Linux/Monitor.antt =====
-- wl_monitor: a received frame with a header in front goes to the monitor interface
-- (src/wl/sys/wl_linux.c and wlc_ethereal.h). Lengths are those of packets in memory, whose sum is
-- below 2 ^ 32.
pub mod Frame
use broadcom_bcm4312_fix.Prelude.{
  Bool, List, [], drop, get_or, if◌then◌else◌, length, ltb, memcpy, none, not, some, take, ℕ, ◌&&◌,
  ◌*◌, ◌++◌, ◌+◌, ◌-◌, ◌==◌, ◌∷◌,
}
use broadcom_bcm4312_fix.Headers.{Bytes}
use broadcom_bcm4312_fix.Linux.Radiotap.{
  Radiotap, RxStatus, brcm2_header, encoding_ht, encoding_vht, half_bytes, ht_header, legacy_header,
  nonht_of, phy_n, vht_header,
}
use broadcom_bcm4312_fix.Iw.Report.{word_bytes}
use broadcom_bcm4312_fix.Prelude.Int.{bits32}

-- What wl_monitor ends in: nothing for the kernel, a frame for netif_rx, or a copy that runs past
-- the memory, since the length of a frame without its first 6 bytes is an unsigned number.
pub data Monitored : Type 0 where
  no_frame : Monitored
  frame : Bytes → Monitored
  overrun : Monitored

-- An sk_buff: its bytes, the memory behind them, and the bytes of the sk_buffs behind it.
pub record Received : Type 0 where
  pub data_of : Bytes
  pub behind : Bytes
  pub chain : List Bytes

-- p80211item_t
abbrev pub item : ℕ → ℕ → ℕ → Bytes
item did status value = word_bytes did ++ half_bytes status ++ half_bytes 4 ++ word_bytes value

-- The items of p80211msg_t, in the order of the structure.
unfoldable pub prism_items : ℕ → RxStatus → Bytes
prism_items jiffies r =
    item 0x1041 0 jiffies
    ++ item 0x2041 0 r.mactime
    ++ item 0x3041 1 0
    ++ item 0x4041 0 (bits32 r.signal)
    ++ item 0x5041 0 r.sq
    ++ item 0x6041 0 r.preamble
    ++ item 0x7041 1 0
    ++ item 0x8041 0 r.datarate
    ++ item 0x9041 1 0
    ++ item 0xA041 0 r.pktlength

-- p80211msg_t, with the name of the device and jiffies.
unfoldable pub prism_header : Bytes → ℕ → RxStatus → Bytes → Bytes
prism_header name jiffies r old =
    word_bytes 0x0041
    ++ word_bytes 144
    ++ memcpy (take 16 (drop 8 old)) 0 (name ++ 0 ∷ []) (length name + 1)
    ++ prism_items jiffies r

-- The loop over the sk_buffs behind the first.
unfoldable pub copy_chain : Bytes → ℕ → List Bytes → Bytes
copy_chain buf off [] = buf
copy_chain buf off (p ∷ ps) = copy_chain (memcpy buf off p (length p)) (off + length p) ps

abbrev pub chain_len : List Bytes → ℕ
chain_len [] = 0
chain_len (p ∷ ps) = length p + chain_len ps

-- The frame control word behind the 6 bytes of D11_PHY_HDR_LEN.
unfoldable pub frame_control : Received → ℕ
frame_control p = let bytes = p.data_of ++ p.behind in get_or bytes 6 0 + get_or bytes 7 0 * 256

module _ (k : Radiotap) where
  -- The new sk_buff: the header of `n` bytes, the frame without its first 6 bytes, and `chain`.
  unfoldable pub frame_of : Bool → ℕ → (Bytes → Bytes) → Bytes → List Bytes → Monitored
  frame_of granted n header pkt chain =
      if not granted
      then no_frame
      else if ltb (length pkt) 6
      then overrun
      else (let m = length pkt - 6 in
          let old = k.fresh (n + m + chain_len chain) in
          let headed = memcpy old 0 (header old) n in
          frame (copy_chain (memcpy headed n (drop 6 pkt) m) (n + m) chain))

  -- The second type: it_present_ext of the legacy header is left as it was.
  unfoldable pub monitor_radiotap : Bool → RxStatus → Received → Monitored
  monitor_radiotap granted r p =
      let fc = frame_control p in
      if r.phytype == phy_n
      then frame_of granted 42 (λ old. brcm2_header k fc r) p.data_of []
      else frame_of granted 43
          (legacy_header k none (record { nonht_flags = 0; nonht_bw = 0; nonht_sns = 0 }) fc r)
          p.data_of []

  -- The third type, which takes the sk_buffs of an A-MSDU.
  unfoldable pub monitor_amsdu : Bool → RxStatus → Received → Monitored
  monitor_amsdu granted r p =
      let fc = frame_control p in
      if (r.phytype == phy_n) && (r.encoding == encoding_ht)
      then frame_of granted 28 (λ old. ht_header k fc r) p.data_of p.chain
      else if (r.phytype == phy_n) && (r.encoding == encoding_vht)
      then frame_of granted 48 (vht_header k fc r) p.data_of p.chain
      else frame_of granted 43 (legacy_header k (some 1) (nonht_of k fc r) fc r) p.data_of p.chain

  -- `has_dev` is whether there is a monitor_dev, `granted` whether dev_alloc_skb has room.
  unfoldable pub wl_monitor : Bool → ℕ → Bool → Bytes → ℕ → RxStatus → Received → Monitored
  wl_monitor has_dev monitor_type granted name jiffies r p =
      if not has_dev
      then no_frame
      else if monitor_type == 1
      then frame_of granted 144 (prism_header name jiffies r) p.data_of []
      else if monitor_type == 2
      then monitor_radiotap granted r p
      else if monitor_type == 3
      then monitor_amsdu granted r p
      else no_frame
