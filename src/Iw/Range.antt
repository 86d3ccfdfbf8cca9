-- ===== src/Iw/Range.antt =====
-- wl_iw_get_range (src/wl/sys/wl_iw.c): what it computes. The other fields of struct iw_range are set
-- to constants.
use broadcom_bcm4312_fix.Prelude.{
  Bool, List, Option, [], bit_and, false, get_or, if◌then◌else◌, leb, length, min, none, not, some,
  suc, true, zero, ℕ, ◌%◌, ◌&&◌, ◌*◌, ◌++◌, ◌+◌, ◌-◌, ◌==◌, ◌||◌, ◌∷◌,
}
use broadcom_bcm4312_fix.Iw.{Driver}
use broadcom_bcm4312_fix.Headers.{Bytes, int_size, mimo_bw_cap, nmode, sgi_tx}
use broadcom_bcm4312_fix.State.{buffer_arg, int_arg}
use broadcom_bcm4312_fix.Iw.Monad.{
  IwM, dev_wlc_intvar_get, dev_wlc_ioctl, is_zero, neg_einval, pure, ◌>>=◌,
}
use broadcom_bcm4312_fix.Iw.Limits.{rateset_size}
use broadcom_bcm4312_fix.Iw.Scan.{mhz_of}
use broadcom_bcm4312_fix.Headers.Commands.{
  get_channel, get_curr_rateset, get_phytype, get_valid_channels,
}
use broadcom_bcm4312_fix.Prelude.Int.{pos, ℤ}

-- One struct iw_freq, whose exponent is 6.
pub record Freq : Type 0 where
  pub i : ℕ
  pub m : ℕ

-- The parts of struct iw_range that depend on the firmware.
pub record IwRange : Type 0 where
  pub num_channels : ℕ
  pub freq : List Freq
  pub num_bitrates : ℕ
  pub bitrate : List ℕ
  pub throughput : ℕ

-- nrate_list, in units of 500 kbit/s.
unfoldable pub nrate_list : List (List ℕ)
nrate_list =
    (13 ∷ 26 ∷ 39 ∷ 52 ∷ 78 ∷ 104 ∷ 117 ∷ 130 ∷ [])
    ∷ (14 ∷ 29 ∷ 43 ∷ 58 ∷ 87 ∷ 116 ∷ 130 ∷ 144 ∷ [])
    ∷ (27 ∷ 54 ∷ 81 ∷ 108 ∷ 162 ∷ 216 ∷ 243 ∷ 270 ∷ [])
    ∷ (30 ∷ 60 ∷ 90 ∷ 120 ∷ 180 ∷ 240 ∷ 270 ∷ 300 ∷ [])
    ∷ []

-- `nrate_list2copy`, from the two variables and the channel: wide channels come last.
unfoldable pub nrate_index : ℕ → ℕ → ℕ → ℕ
nrate_index bw_cap sgi ch =
    let short = if sgi == 0 then 0 else 1 in
    if (bw_cap == 1) || ((bw_cap == 2) && leb 36 ch)
    then 2 + short
    else if (bw_cap == 0) || ((bw_cap == 2) && leb ch 14)
    then short
    else 0

-- The PHYs with 802.11n rates: SSN, LCN and LCN40.
abbrev pub is_n_phy : ℕ → Bool
is_n_phy phytype = (phytype == 6) || (phytype == 8) || (phytype == 10)

module _ (d : Driver) where
  unfoldable pub freqs_from : ℕ → List ℕ → List Freq
  freqs_from zero chans = []
  freqs_from (suc left) [] = []
  freqs_from (suc left) (ch ∷ chans) =
      record { i = ch % 256; m = mhz_of d ch } ∷ freqs_from left chans

  -- The rates of the set, up to IW_MAX_BITRATES.
  unfoldable pub legacy_rates : Bytes → ℕ → ℕ → List ℕ
  legacy_rates rates zero i = []
  legacy_rates rates (suc left) i =
      bit_and (get_or rates i (d.stray_rate i)) 0x7f * 500000 ∷ legacy_rates rates left (i + 1)

  -- `for (k = 0; i < num_bitrates; k++, i++)` with `left` rounds to go, whether or not `bitrate` has
  -- room.
  unfoldable pub nrates : List ℕ → ℕ → ℕ → List ℕ
  nrates row zero k = []
  nrates row (suc left) k = get_or row k (d.stray_rate k) * 500000 ∷ nrates row left (k + 1)

  -- `num_bitrates`, a u8, and `bitrate`, with the 802.11n rates of a row.
  unfoldable pub with_nrates : List ℕ → IwRange → IwRange
  with_nrates row r =
      let n = (r.num_bitrates + 8) % 256 in
      record r { num_bitrates = n; bitrate = r.bitrate ++ nrates row (n - length r.bitrate) 0 }

  -- The values that a failing call leaves are those that the variables had, 0; the channel is not
  -- initialised, and is what the answer holds.
  unfoldable pub add_nrates : IwRange → IwM IwRange
  add_nrates r = dev_wlc_intvar_get d mimo_bw_cap >>= λ bw. dev_wlc_intvar_get d sgi_tx >>= λ sgi.
      dev_wlc_ioctl d get_channel (buffer_arg 0) (3 * int_size) >>= λ c.
      pure (with_nrates (get_or nrate_list (nrate_index bw.value sgi.value c.value) []) r)

  -- The last call: the throughput that goes with the PHY, where 0 is 802.11a.
  unfoldable pub add_throughput : IwRange → IwM (ℤ × Option IwRange)
  add_throughput r = dev_wlc_ioctl d get_phytype (int_arg 0) int_size >>= λ p. pure (
      if is_zero p.status
      then (pos 0, some (record r { throughput = if p.value == 0 then 24000000 else 1500000 }))
      else (p.status, none))

  -- The rates, then the throughput.
  unfoldable pub add_bitrates : IwRange → IwM (ℤ × Option IwRange)
  add_bitrates r = dev_wlc_ioctl d get_curr_rateset (buffer_arg 0) rateset_size >>= λ s.
      if not (is_zero s.status)
      then pure (s.status, none)
      else (let legacy : IwRange = record r {
        num_bitrates = s.value % 256;
        bitrate = legacy_rates s.bytes (min s.value d.max_bitrates) 0;
      } in
          dev_wlc_intvar_get d nmode >>= λ n.
          dev_wlc_ioctl d get_phytype (int_arg 0) int_size >>= λ p.
          if not (is_zero p.status)
          then pure (p.status, none)
          else if (n.value == 1) && is_n_phy p.value
          then (add_nrates legacy >>= λ q. add_throughput q)
          else add_throughput legacy)

  unfoldable pub wl_iw_get_range : Bool → IwM (ℤ × Option IwRange)
  wl_iw_get_range false = pure (neg_einval, none)
  wl_iw_get_range true =
      dev_wlc_ioctl d get_valid_channels (buffer_arg d.maxchannel) ((d.maxchannel + 1) * int_size)
      >>= λ r.
          if not (is_zero r.status)
          then pure (r.status, none)
          else (let freqs = freqs_from (min r.value d.max_frequencies) r.words in
              add_bitrates (record {
                num_channels = length freqs;
                freq = freqs;
                num_bitrates = 0;
                bitrate = [];
                throughput = 0;
              }))
