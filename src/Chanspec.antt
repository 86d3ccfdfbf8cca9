-- ===== src/Chanspec.antt =====
-- wl_ch_to_chanspec (src/wl/sys/wl_cfg80211_hybrid.c), and the buffer that its callers give it.
pub mod Room
use broadcom_bcm4312_fix.Prelude.{
  Option, [], bit_and, bit_or, none, some, ℕ, ◌%◌, ◌*◌, ◌+◌, ◌^◌, ◌∷◌,
}
use broadcom_bcm4312_fix.Headers.{
  Band, Channel, JoinParams, assoc_params_fixed_size, ghz2, ghz5, join_params_size, other,
}
use broadcom_bcm4312_fix.State.{Platform}

module _ (x : Platform) where
  -- A chanspec_t holds this many values.
  abbrev pub chanspec_mod : ℕ
  chanspec_mod = 2 ^ (8 * x.sizeof_chanspec)

  -- sizeof join_params_u: the structure and, since patches/002, two chanspecs more.
  abbrev pub join_buffer_size : ℕ
  join_buffer_size = join_params_size + x.sizeof_chanspec * 2

  -- `none` is the BUG() on an unknown band.
  unfoldable pub band_bits : Band → Option ℕ
  band_bits ghz2 = some x.chanspec_band_2g
  band_bits ghz5 = some x.chanspec_band_5g
  band_bits other = none

  -- The chanspec that is stored for a channel.
  unfoldable pub chanspec_of : Channel → ℕ → ℕ
  chanspec_of chan band =
      let number = x.frequency_to_channel chan.center_freq % chanspec_mod in
      let chanspec = bit_or band x.chanspec_bw_20 % chanspec_mod in
      bit_or (bit_and number x.chanspec_chan_mask) chanspec % chanspec_mod

  -- The parameters and `*join_params_size`; nothing changes for a NULL channel.
  unfoldable pub wl_ch_to_chanspec : Option Channel → JoinParams → ℕ → Option (JoinParams × ℕ)
  wl_ch_to_chanspec none request size = some (request, size)
  wl_ch_to_chanspec (some chan) request size = elim (band_bits chan.band) [
    | none ↦ none
    | some band ↦ some (
      record request { chanspec_num = 1; chanspec_list = chanspec_of chan band ∷ [] },
      size + (assoc_params_fixed_size + 1 * x.sizeof_chanspec),
    )
  ]
