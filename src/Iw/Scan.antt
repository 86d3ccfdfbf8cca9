-- ===== src/Iw/Scan.antt =====
-- The scan results as a stream of events: ie_is_wpa_ie, ie_is_wps_ie, wl_iw_handle_scanresults_ies
-- and wl_iw_get_scan (src/wl/sys/wl_iw.c).
use broadcom_bcm4312_fix.Prelude.{
  Bool, List, Option, [], bit_and, bit_or, drop, false, get_or, if◌then◌else◌, leb, length, min,
  none, not, some, suc, take, true, zero, ℕ, ◌&&◌, ◌*◌, ◌+◌, ◌==◌, ◌∷◌,
}
use broadcom_bcm4312_fix.Iw.{Driver, IwBss}
use broadcom_bcm4312_fix.Headers.{Addr, Bytes, int_size}
use broadcom_bcm4312_fix.State.{buffer_arg}
use broadcom_bcm4312_fix.Pmk.{same_bytes}
use broadcom_bcm4312_fix.Iw.Monad.{
  IwM, dev_wlc_ioctl, has, is_zero, neg_eagain, neg_einval, neg_enomem, pure, ◌>>=◌,
}
use broadcom_bcm4312_fix.Iw.Radio.{IwMode, mode_adhoc, mode_infra}
use broadcom_bcm4312_fix.Iw.Spy.{level_of, rssi_to_qual}
use broadcom_bcm4312_fix.Headers.Commands.{get_channel, scan_results}
use broadcom_bcm4312_fix.Prelude.Int.{pos, ℤ}

-- The events of the stream.
pub data Item : Type 0 where
  item_ap : Addr → Item
  item_essid : Bytes → Item
  item_mode : IwMode → Item
  item_freq : ℕ → Item
  item_qual : ℕ → ℕ → ℕ → Item
  item_genie : Bytes → Item
  -- whether the network has privacy
  item_encode : Bool → Item
  item_rates : List ℕ → Item

-- The stream: its events, the newest first, and how many bytes they take.
pub record Stream : Type 0 where
  pub items : List Item
  pub used : ℕ

-- WPA_OUI and a type, as bytes of an element behind its identifier and its length.
abbrev pub wpa_oui : ℕ → Bytes
wpa_oui kind = 0x00 ∷ 0x50 ∷ 0xf2 ∷ kind ∷ []

-- The test of ie_is_wpa_ie, for 6 and 1, and of ie_is_wps_ie, for 4 and 4.
unfoldable pub is_vendor_ie : ℕ → ℕ → Bytes → Bool
is_vendor_ie least kind ie =
    leb least (get_or ie 1 0) && same_bytes (take 4 (drop 2 ie)) (wpa_oui kind)

-- The bytes of an element, for the bytes from it on.
abbrev pub element : Bytes → Bytes
element ie = take (get_or ie 1 0 + 2) ie

module _ (d : Driver) where
  -- `while ((ie = bcm_parse_tlvs(ptr, ptr_len, DOT11_MNG_WPA_ID)))`: an element that does not pass the
  -- test is skipped. `fuel` is at least the number of bytes.
  unfoldable pub vendor_ie : ℕ → ℕ → ℕ → Bytes → Option Bytes
  vendor_ie zero least kind bytes = none
  vendor_ie (suc fuel) least kind bytes = elim (d.parse_tlvs bytes d.wpa_id) [
    | none ↦ none
    | some ie ↦
        let rest = vendor_ie fuel least kind (drop (get_or ie 1 0 + 2) ie) in
        if is_vendor_ie least kind ie then some (element ie) else rest
  ]

  -- IWE_STREAM_ADD_EVENT and IWE_STREAM_ADD_POINT: an event without room is left out.
  unfoldable pub stream_add : ℕ → Item → ℕ → Stream → Stream
  stream_add buflen item len s =
      if d.stream_fits buflen s.used len
      then record { items = item ∷ s.items; used = s.used + len }
      else s

  abbrev pub add_genie : ℕ → Option Bytes → Stream → Stream
  add_genie buflen none s = s
  add_genie buflen (some ie) s = stream_add buflen (item_genie ie) (d.ev_point_len + length ie) s

  unfoldable pub rsn_ie : Bytes → Option Bytes
  rsn_ie bytes = elim (d.parse_tlvs bytes d.rsn_id) [ none ↦ none | some ie ↦ some (element ie) ]

  -- The RSN element, then the first WPS element and the first WPA element.
  unfoldable pub wl_iw_handle_scanresults_ies : ℕ → Bytes → Stream → Stream
  wl_iw_handle_scanresults_ies buflen ies s =
      let fuel = suc (length ies) in
      add_genie buflen (vendor_ie fuel 6 1 ies)
        (add_genie buflen (vendor_ie fuel 4 4 ies) (add_genie buflen (rsn_ie ies) s))

  -- IWE_STREAM_ADD_VALUE for `left` rates from the `j`-th on, behind `vals` and `used` bytes.
  unfoldable pub add_values : ℕ → Bytes → ℕ → ℕ → List ℕ → ℕ → List ℕ × ℕ
  add_values buflen rates zero j vals used = (vals, used)
  add_values buflen rates (suc left) j vals used =
      let v = bit_and (get_or rates j (d.stray_rate j)) 0x7f * 500000 in
      if d.stream_fits buflen used d.ev_param_len
      then add_values buflen rates left (j + 1) (v ∷ vals) (used + d.ev_param_len)
      else add_values buflen rates left (j + 1) vals used

  -- The header of the rates is counted in whether or not it has room.
  unfoldable pub add_rates : ℕ → IwBss → Stream → Stream
  add_rates buflen b s =
      if b.rate_count == 0
      then s
      else (let r =
            add_values buflen b.rates (min b.rate_count d.max_bitrates) 0 []
              (s.used + d.ev_lcp_len) in
          record { items = item_rates (r.0) ∷ s.items; used = r.1 })

  unfoldable pub add_mode : ℕ → ℕ → Stream → Stream
  add_mode buflen capability s =
      if has capability (bit_or d.cap_ess d.cap_ibss)
      then stream_add buflen
          (item_mode (if has capability d.cap_ess then mode_infra else mode_adhoc)) d.ev_uint_len s
      else s

  -- The frequency in MHz of a channel.
  unfoldable pub mhz_of : ℕ → ℕ
  mhz_of ch =
      d.channel2mhz ch (if leb ch d.host.ch_max_2g then d.chan_factor_2_4_g else d.chan_factor_5_g)

  -- The events of one network.
  unfoldable pub add_bss : ℕ → IwBss → Stream → Stream
  add_bss buflen b s =
      let named =
        stream_add buflen (item_essid (take b.bss.ssid_len b.bss.ssid))
          (d.ev_point_len + b.bss.ssid_len)
          (stream_add buflen (item_ap b.bss.bssid) d.ev_addr_len s) in
      let tuned =
        stream_add buflen (item_freq (mhz_of (d.host.chspec_channel b.bss.chanspec))) d.ev_freq_len
          (add_mode buflen b.bss.capability named) in
      let rated =
        stream_add buflen
          (item_qual (rssi_to_qual b.bss.rssi) (level_of b.bss.rssi) (level_of b.phy_noise))
          d.ev_qual_len tuned in
      add_rates buflen b (
        stream_add buflen (item_encode (has b.bss.capability d.cap_privacy)) d.ev_point_len
          (wl_iw_handle_scanresults_ies buflen b.bss.ies rated))

  -- The loop over `left` results.
  unfoldable pub stream_from : ℕ → ℕ → List IwBss → Stream → Stream
  stream_from buflen zero bs s = s
  stream_from buflen (suc left) [] s = s
  stream_from buflen (suc left) (b ∷ bs) s = stream_from buflen left bs (add_bss buflen b s)

  abbrev pub empty_stream : Stream
  empty_stream = record { items = []; used = 0 }

  -- Both the results and the stream have the caller's number of bytes. `value` of the first answer is
  -- the channel that is being scanned.
  unfoldable pub wl_iw_get_scan : Bool → ℕ → IwM (ℤ × Option Stream)
  wl_iw_get_scan false buflen w = ((neg_einval, none), w)
  wl_iw_get_scan true buflen w =
      (dev_wlc_ioctl d get_channel (buffer_arg 0) (3 * int_size) >>= λ c.
      if not (is_zero c.status)
      then pure (c.status, none)
      else if not (c.value == 0)
      then pure (neg_eagain, none)
      else read_results)
        w
    where
      read_results : IwM (ℤ × Option Stream)
      read_results w' =
          if d.kmalloc w'.log buflen
          then (dev_wlc_ioctl d scan_results (buffer_arg buflen) buflen >>= λ r. pure (
                if is_zero r.status
                then (
                  pos 0,
                  some (stream_from buflen (min r.value d.max_ap) r.bss_info empty_stream),
                )
                else (r.status, none)))
              w'
          else ((neg_enomem, none), w')
