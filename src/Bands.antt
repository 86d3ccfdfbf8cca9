-- ===== src/Bands.antt =====
-- The rates, channels and bands that the driver registers (src/wl/sys/wl_cfg80211_hybrid.c).
use broadcom_bcm4312_fix.Prelude.{
  Bool, List, [], drop, false, length, map, take, true, ℕ, ◌*◌, ◌+◌, ◌/◌, ◌∷◌,
}
use broadcom_bcm4312_fix.Headers.{
  Band, Channel, Suite, aes_cmac, ccmp, ghz2, ghz5, tkip, wep104, wep40,
}

-- struct ieee80211_rate; `hw_value` is the rate in units of 500 kb/s.
pub record Rate : Type 0 where
  pub bitrate : ℕ
  pub hw_value : ℕ
  pub short_preamble : Bool

-- RATETAB_ENT, with RATE_TO_BASE100KBPS.
unfoldable pub rate_of : ℕ → Bool → Rate
rate_of rateid short = record {
  bitrate = rateid * 10 / 2;
  hw_value = rateid;
  short_preamble = short;
}

-- CHAN2G and CHAN5G.
unfoldable pub chan2g : ℕ → ℕ → Channel
chan2g channel freq = record { band = ghz2; center_freq = freq; hw_value = channel }

unfoldable pub chan5g : ℕ → Channel
chan5g channel = record { band = ghz5; center_freq = 5000 + 5 * channel; hw_value = channel }

-- The DOT11_RATE_* constants are parameters, in the order of the table.
pub record Dot11Rates : Type 0 where
  pub r1m : ℕ
  pub r2m : ℕ
  pub r5m5 : ℕ
  pub r11m : ℕ
  pub r6m : ℕ
  pub r9m : ℕ
  pub r12m : ℕ
  pub r18m : ℕ
  pub r24m : ℕ
  pub r36m : ℕ
  pub r48m : ℕ
  pub r54m : ℕ

-- __wl_rates
unfoldable pub wl_rates : Dot11Rates → List Rate
wl_rates d =
    rate_of d.r1m false
    ∷ rate_of d.r2m true
    ∷ rate_of d.r5m5 true
    ∷ rate_of d.r11m true
    ∷ rate_of d.r6m false
    ∷ rate_of d.r9m false
    ∷ rate_of d.r12m false
    ∷ rate_of d.r18m false
    ∷ rate_of d.r24m false
    ∷ rate_of d.r36m false
    ∷ rate_of d.r48m false
    ∷ rate_of d.r54m false
    ∷ []

-- wl_a_rates and wl_g_rates
unfoldable pub wl_a_rates : Dot11Rates → List Rate
wl_a_rates d = take 8 (drop 4 (wl_rates d))

unfoldable pub wl_g_rates : Dot11Rates → List Rate
wl_g_rates d = take 12 (wl_rates d)

-- __wl_2ghz_channels
unfoldable pub wl_2ghz_channels : List Channel
wl_2ghz_channels =
    chan2g 1 2412
    ∷ chan2g 2 2417
    ∷ chan2g 3 2422
    ∷ chan2g 4 2427
    ∷ chan2g 5 2432
    ∷ chan2g 6 2437
    ∷ chan2g 7 2442
    ∷ chan2g 8 2447
    ∷ chan2g 9 2452
    ∷ chan2g 10 2457
    ∷ chan2g 11 2462
    ∷ chan2g 12 2467
    ∷ chan2g 13 2472
    ∷ chan2g 14 2484
    ∷ []

-- __wl_5ghz_a_channels
abbrev pub wl_5ghz_a_numbers : List ℕ
wl_5ghz_a_numbers =
    34 ∷ 36 ∷ 38 ∷ 40 ∷ 42 ∷ 44 ∷ 46 ∷ 48 ∷ 52 ∷ 56 ∷ 60 ∷ 64 ∷ 100 ∷ 104 ∷ 108 ∷ 112 ∷ 116 ∷ 120
    ∷ 124 ∷ 128 ∷ 132 ∷ 136 ∷ 140 ∷ 149 ∷ 153 ∷ 157 ∷ 161 ∷ 165 ∷ 184 ∷ 188 ∷ 192 ∷ 196 ∷ 200 ∷ 204
    ∷ 208 ∷ 212 ∷ 216 ∷ []

unfoldable pub wl_5ghz_a_channels : List Channel
wl_5ghz_a_channels = map chan5g wl_5ghz_a_numbers

-- __wl_5ghz_n_channels
abbrev pub wl_5ghz_n_numbers : List ℕ
wl_5ghz_n_numbers =
    32 ∷ 34 ∷ 36 ∷ 38 ∷ 40 ∷ 42 ∷ 44 ∷ 46 ∷ 48 ∷ 50 ∷ 52 ∷ 54 ∷ 56 ∷ 58 ∷ 60 ∷ 62 ∷ 64 ∷ 66 ∷ 68
    ∷ 70 ∷ 72 ∷ 74 ∷ 76 ∷ 78 ∷ 80 ∷ 82 ∷ 84 ∷ 86 ∷ 88 ∷ 90 ∷ 92 ∷ 94 ∷ 96 ∷ 98 ∷ 100 ∷ 102 ∷ 104
    ∷ 106 ∷ 108 ∷ 110 ∷ 112 ∷ 114 ∷ 116 ∷ 118 ∷ 120 ∷ 122 ∷ 124 ∷ 126 ∷ 128 ∷ 130 ∷ 132 ∷ 134 ∷ 136
    ∷ 138 ∷ 140 ∷ 142 ∷ 144 ∷ 145 ∷ 146 ∷ 147 ∷ 148 ∷ 149 ∷ 150 ∷ 151 ∷ 152 ∷ 153 ∷ 154 ∷ 155 ∷ 156
    ∷ 157 ∷ 158 ∷ 159 ∷ 160 ∷ 161 ∷ 162 ∷ 163 ∷ 164 ∷ 165 ∷ 166 ∷ 168 ∷ 170 ∷ 172 ∷ 174 ∷ 176 ∷ 178
    ∷ 180 ∷ 182 ∷ 184 ∷ 186 ∷ 188 ∷ 190 ∷ 192 ∷ 194 ∷ 196 ∷ 198 ∷ 200 ∷ 202 ∷ 204 ∷ 206 ∷ 208 ∷ 210
    ∷ 212 ∷ 214 ∷ 216 ∷ 218 ∷ 220 ∷ 222 ∷ 224 ∷ 226 ∷ 228 ∷ []

unfoldable pub wl_5ghz_n_channels : List Channel
wl_5ghz_n_channels = map chan5g wl_5ghz_n_numbers

-- struct ieee80211_supported_band
pub record SupportedBand : Type 0 where
  pub band : Band
  pub channels : List Channel
  pub n_channels : ℕ
  pub bitrates : List Rate
  pub n_bitrates : ℕ

unfoldable pub wl_band_2ghz : Dot11Rates → SupportedBand
wl_band_2ghz d = record {
  band = ghz2;
  channels = wl_2ghz_channels;
  n_channels = length wl_2ghz_channels;
  bitrates = wl_g_rates d;
  n_bitrates = 12;
}

unfoldable pub wl_band_5ghz_a : Dot11Rates → SupportedBand
wl_band_5ghz_a d = record {
  band = ghz5;
  channels = wl_5ghz_a_channels;
  n_channels = length wl_5ghz_a_channels;
  bitrates = wl_a_rates d;
  n_bitrates = 8;
}

unfoldable pub wl_band_5ghz_n : Dot11Rates → SupportedBand
wl_band_5ghz_n d = record {
  band = ghz5;
  channels = wl_5ghz_n_channels;
  n_channels = length wl_5ghz_n_channels;
  bitrates = wl_a_rates d;
  n_bitrates = 8;
}

-- __wl_cipher_suites
unfoldable pub wl_cipher_suites : List Suite
wl_cipher_suites = wep40 ∷ wep104 ∷ tkip ∷ ccmp ∷ aes_cmac ∷ []
