-- ===== src/Chanspec/Room.antt =====
-- The room that a join request needs, and has.
use broadcom_bcm4312_fix.Prelude.{[], arith, length, some, ℕ, ◌*◌, ◌+◌, ◌<◌, ◌≡◌, ◌≤◌}
use broadcom_bcm4312_fix.Chanspec.{band_bits, join_buffer_size, wl_ch_to_chanspec}
use broadcom_bcm4312_fix.Headers.{Channel, JoinParams, join_params_size, ssid_size}
use broadcom_bcm4312_fix.State.{Platform}

module _ (x : Platform) where
  -- The bytes of the join buffer up to the end of its last chanspec.
  abbrev pub written : JoinParams → ℕ
  written request = join_params_size + length request.chanspec_list * x.sizeof_chanspec

  -- For every channel, from the cleared request that wl_cfg80211_connect and
  -- wl_cfg80211_join_ibss build: where wl_ch_to_chanspec finds the channel's band, it announces just
  -- the bytes that it has written, which stay inside the callers' buffer and go past
  -- sizeof(struct wl_join_params), so that the room behind the structure is needed.
  pub wl_ch_to_chanspec_room :
      (chan : Channel) (request : JoinParams) {request' : JoinParams} {size' : ℕ}
      → 0 < x.sizeof_chanspec
      → request.chanspec_list ≡ []
      → wl_ch_to_chanspec x (some chan) request ssid_size ≡ some (request', size')
      → (written request' ≤ join_buffer_size x)
        × (size' ≡ written request')
        × (join_params_size < written request')
  unfolding wl_ch_to_chanspec band_bits
  wl_ch_to_chanspec_room chan request wide clear e = ground arith
