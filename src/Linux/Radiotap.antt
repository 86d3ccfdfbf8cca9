-- ===== src/Linux/Radiotap.antt =====
-- The headers of monitored frames: the status of a received frame (src/wl/sys/wlc_pub.h), the
-- radiotap structures and the headers that wl_monitor fills in (src/wl/sys/wl_linux.c). A header is
-- its bytes; a field that is not written keeps the byte of the fresh buffer.
use broadcom_bcm4312_fix.Prelude.{
  Bool, List, Option, [], bit_and, bit_or, get_or, if◌then◌else◌, none, not, or_if, some, ℕ, ◌%◌,
  ◌&&◌, ◌*◌, ◌++◌, ◌/◌, ◌==◌, ◌^◌, ◌||◌, ◌∷◌,
}
use broadcom_bcm4312_fix.Headers.{Bytes}
use broadcom_bcm4312_fix.Iw.Monad.{has}
use broadcom_bcm4312_fix.Iw.Report.{word_bytes}
use broadcom_bcm4312_fix.Prelude.Int.{bits32, ℤ}

-- wl_rxsts_t, without the interface.
pub record RxStatus : Type 0 where
  pub pkterror : ℕ
  pub phytype : ℕ
  pub chanspec : ℕ
  pub datarate : ℕ
  pub mcs : ℕ
  pub htflags : ℕ
  pub antenna : ℕ
  pub pktlength : ℕ
  pub mactime : ℕ
  pub sq : ℕ
  pub signal : ℤ
  pub noise : ℤ
  pub preamble : ℕ
  pub encoding : ℕ
  pub nfrmtype : ℕ
  pub nss : ℕ
  pub coding : ℕ
  pub aid : ℕ
  pub gid : ℕ
  pub bw : ℕ
  pub vhtflags : ℕ
  pub bw_nonht : ℕ
  pub ampdu_counter : ℕ

-- What comes from elsewhere: CHSPEC_IS2G, wf_channel2mhz of the control channel in each band, the
-- kernel's allocator, and constants of radiotap and 802.11.
pub record Radiotap : Type 0 where
  pub is_2g : ℕ → Bool
  pub mhz_2g : ℕ → ℕ
  pub mhz_5g : ℕ → ℕ
  -- what a fresh buffer holds
  pub fresh : ℕ → Bytes
  -- FC_WEP, FC_MOREFRAG, FC_KIND_MASK, FC_RTS, FC_CTS
  pub fc_wep : ℕ
  pub fc_morefrag : ℕ
  pub fc_kind_mask : ℕ
  pub fc_rts : ℕ
  pub fc_cts : ℕ
  -- IEEE80211_CHAN_*
  pub chan_2ghz : ℕ
  pub chan_5ghz : ℕ
  pub chan_dyn : ℕ
  pub chan_ofdm : ℕ
  -- IEEE80211_RADIOTAP_F_*
  pub f_fcs : ℕ
  pub f_shortpre : ℕ
  pub f_wep : ℕ
  pub f_frag : ℕ
  pub f_badfcs : ℕ
  -- the numbers of radiotap's fields
  pub rtap_tsft : ℕ
  pub rtap_flags : ℕ
  pub rtap_rate : ℕ
  pub rtap_channel : ℕ
  pub rtap_antsignal : ℕ
  pub rtap_antnoise : ℕ
  pub rtap_antenna : ℕ
  pub rtap_vendor : ℕ
  pub rtap_ext : ℕ
  pub rtap_mcs : ℕ
  pub rtap_ampdu : ℕ
  pub rtap_vht : ℕ
  -- IEEE80211_RADIOTAP_MCS_HAVE_* and the VHT_HAVE_* that are used, each as one word
  pub mcs_have : ℕ
  pub vht_have : ℕ
  -- IEEE80211_RADIOTAP_MCS_*
  pub mcs_bw_20 : ℕ
  pub mcs_bw_40 : ℕ
  pub mcs_bw_20l : ℕ
  pub mcs_bw_20u : ℕ
  pub mcs_sgi : ℕ
  pub mcs_fmt_gf : ℕ
  pub mcs_fec_ldpc : ℕ
  -- IEEE80211_RADIOTAP_VHT_NSS, IEEE80211_RADIOTAP_AMPDU_IS_LAST and _MPDU_ONLY
  pub vht_nss : ℕ
  pub ampdu_is_last : ℕ
  pub ampdu_mpdu_only : ℕ

-- The bytes of a 16-bit field, of a signed 8-bit one, and those of the fresh buffer.
abbrev pub half_bytes : ℕ → Bytes
half_bytes v = v % 256 ∷ v / 256 % 256 ∷ []

abbrev pub signed_byte : ℤ → ℕ
signed_byte v = bits32 v % 256

abbrev pub kept : Bytes → ℕ → ℕ
kept old i = get_or old i 0

-- An OR of `1 << i`.
abbrev pub present : List ℕ → ℕ
present [] = 0
present (i ∷ is) = bit_or (2 ^ i) (present is)

abbrev pub phy_n : ℕ
phy_n = 4

abbrev pub encoding_ht : ℕ
encoding_ht = 3

abbrev pub encoding_vht : ℕ
encoding_vht = 4

-- struct wl_radiotap_nonht_vht without its length, and the vendor's sub-namespace.
pub record NonHt : Type 0 where
  pub nonht_flags : ℕ
  pub nonht_bw : ℕ
  pub nonht_sns : ℕ

module _ (k : Radiotap) where
  -- The flags of a frame with the control word `fc`.
  unfoldable pub monitor_flags : ℕ → RxStatus → ℕ
  monitor_flags fc r = or_if (has r.pkterror 1) k.f_badfcs (
      or_if (has fc k.fc_morefrag) k.f_frag
        (or_if (has fc k.fc_wep) k.f_wep (or_if (r.preamble == 1) k.f_shortpre k.f_fcs)))

  unfoldable pub channel_flags : RxStatus → ℕ
  channel_flags r =
      if k.is_2g r.chanspec then bit_or k.chan_2ghz k.chan_dyn else bit_or k.chan_5ghz k.chan_ofdm

  unfoldable pub channel_frequency : RxStatus → ℕ
  channel_frequency r = if k.is_2g r.chanspec then k.mhz_2g r.chanspec else k.mhz_5g r.chanspec

  abbrev pub present_legacy : ℕ
  present_legacy = present (
      k.rtap_tsft ∷ k.rtap_rate ∷ k.rtap_channel ∷ k.rtap_antsignal ∷ k.rtap_antnoise ∷ k.rtap_flags
      ∷ k.rtap_antenna ∷ k.rtap_vendor ∷ k.rtap_ext ∷ [])

  abbrev pub present_ht_brcm2 : ℕ
  present_ht_brcm2 = present (
      k.rtap_tsft ∷ k.rtap_flags ∷ k.rtap_channel ∷ k.rtap_antsignal ∷ k.rtap_antnoise
      ∷ k.rtap_antenna ∷ k.rtap_vendor ∷ k.rtap_ext ∷ [])

  abbrev pub present_ht : ℕ
  present_ht = present (
      k.rtap_tsft ∷ k.rtap_flags ∷ k.rtap_channel ∷ k.rtap_antsignal ∷ k.rtap_antnoise
      ∷ k.rtap_antenna ∷ k.rtap_mcs ∷ [])

  abbrev pub present_vht : ℕ
  present_vht = present (
      k.rtap_tsft ∷ k.rtap_flags ∷ k.rtap_channel ∷ k.rtap_antsignal ∷ k.rtap_antnoise
      ∷ k.rtap_antenna ∷ k.rtap_ampdu ∷ k.rtap_vht ∷ [])

  -- struct ieee80211_radiotap_header: the version, the padding, the length and the fields' bits.
  abbrev pub start_of : ℕ → ℕ → Bytes
  start_of len bits = (0 ∷ 0 ∷ half_bytes len) ++ word_bytes bits

  -- tsft_l and tsft_h
  abbrev pub tsft_of : RxStatus → Bytes
  tsft_of r = word_bytes r.mactime ++ (0 ∷ 0 ∷ 0 ∷ 0 ∷ [])

  -- channel_freq, channel_flags, signal, noise and antenna
  abbrev pub channel_field : RxStatus → Bytes
  channel_field r =
      half_bytes (channel_frequency r)
      ++ half_bytes (channel_flags r)
      ++ (signed_byte r.signal ∷ signed_byte r.noise ∷ r.antenna % 256 ∷ [])

  -- it_present_ext, which the second monitor type does not write.
  abbrev pub ext_bytes : Option ℕ → Bytes → Bytes
  ext_bytes none old = kept old 8 ∷ kept old 9 ∷ kept old 10 ∷ kept old 11 ∷ []
  ext_bytes (some v) old = word_bytes v

  -- wl_radiotap_legacy_t
  unfoldable pub legacy_header : Option ℕ → NonHt → ℕ → RxStatus → Bytes → Bytes
  legacy_header ext v fc r old =
      start_of 43 present_legacy
      ++ ext_bytes ext old
      ++ (kept old 12 ∷ kept old 13 ∷ kept old 14 ∷ kept old 15 ∷ [])
      ++ tsft_of r
      ++ (monitor_flags fc r ∷ r.datarate % 256 ∷ [])
      ++ channel_field r
      ++ (kept old 33 ∷ 0x00 ∷ 0x10 ∷ 0x18 ∷ v.nonht_sns ∷ half_bytes 3)
      ++ (2 ∷ v.nonht_flags ∷ v.nonht_bw ∷ [])

  -- The modulation flags of the vendor's HT header, a byte.
  unfoldable pub brcm2_htflags : RxStatus → ℕ
  brcm2_htflags r =
      bit_or
        (or_if (has r.htflags 0x40) 0x08 (
          or_if (has r.preamble 4) 0x04
            (or_if (has r.htflags 0x08) 0x02 (or_if (has r.htflags 0x01) 0x01 0))))
        (bit_and r.htflags 0x30 * 2 ^ 4)
      % 256

  -- wl_radiotap_ht_brcm_2_t
  unfoldable pub brcm2_header : ℕ → RxStatus → Bytes
  brcm2_header fc r =
      start_of 42 present_ht_brcm2
      ++ word_bytes 1
      ++ (0 ∷ 0 ∷ 0 ∷ 0 ∷ [])
      ++ tsft_of r
      ++ (monitor_flags fc r ∷ 0 ∷ [])
      ++ channel_field r
      ++ (0 ∷ 0x00 ∷ 0x10 ∷ 0x18 ∷ 1 ∷ half_bytes 2)
      ++ (r.mcs ∷ brcm2_htflags r ∷ [])

  -- The value of the switch for the band width, and the flags that follow.
  unfoldable pub ht_mcs_flags : RxStatus → ℕ
  ht_mcs_flags r =
      let width = bit_and r.htflags 0x07 in
      or_if (has r.htflags 0x40) k.mcs_fec_ldpc (
        or_if (has r.preamble 4) k.mcs_fmt_gf (
          or_if (has r.htflags 0x08) k.mcs_sgi (
            if width == 2
            then k.mcs_bw_20l
            else if width == 4
            then k.mcs_bw_20u
            else if width == 1
            then k.mcs_bw_40
            else k.mcs_bw_20)))

  -- wl_radiotap_ht_t
  unfoldable pub ht_header : ℕ → RxStatus → Bytes
  ht_header fc r =
      start_of 28 present_ht
      ++ tsft_of r
      ++ (monitor_flags fc r ∷ 0 ∷ [])
      ++ channel_field r
      ++ (k.mcs_have ∷ ht_mcs_flags r ∷ r.mcs ∷ [])

  unfoldable pub vht_ampdu_flags : RxStatus → ℕ
  vht_ampdu_flags r =
      or_if (has r.nfrmtype 0x100) k.ampdu_mpdu_only
        (or_if (not (has r.nfrmtype 1) && not (has r.nfrmtype 2)) k.ampdu_is_last 0)

  -- wl_radiotap_vht_t
  unfoldable pub vht_header : ℕ → RxStatus → Bytes → Bytes
  vht_header fc r old =
      start_of 48 present_vht
      ++ tsft_of r
      ++ (monitor_flags fc r ∷ 0 ∷ [])
      ++ channel_field r
      ++ (kept old 25 ∷ kept old 26 ∷ kept old 27 ∷ [])
      ++ word_bytes r.ampdu_counter
      ++ half_bytes (vht_ampdu_flags r)
      ++ (0 ∷ kept old 35 ∷ [])
      ++ half_bytes k.vht_have
      ++ (r.vhtflags % 256 ∷ r.bw ∷ [])
      ++ (bit_or (r.mcs * 2 ^ 4) (bit_and r.nss k.vht_nss) % 256 ∷ 0 ∷ 0 ∷ 0 ∷ [])
      ++ (r.coding ∷ r.gid ∷ half_bytes r.aid)

  -- The part of the legacy header that the third monitor type fills in.
  unfoldable pub nonht_of : ℕ → RxStatus → NonHt
  nonht_of fc r =
      let kind = bit_and fc k.fc_kind_mask in
      let is_rts = kind == k.fc_rts in
      let rts_or_cts = is_rts || (kind == k.fc_cts) in
      record {
        nonht_flags = or_if (is_rts && has r.vhtflags 0x40) 1 (or_if rts_or_cts 2 0);
        nonht_bw = if rts_or_cts then r.bw_nonht else 0;
        nonht_sns = if rts_or_cts then 2 else 0;
      }
