-- ===== src/Headers/Commands.antt =====
-- The WLC_* commands of src/include/wlioctl.h that the driver issues, the longest buffer of one
-- (WLC_IOCTL_MAXLEN) and the components of the checksum offload (TOE_*).
use broadcom_bcm4312_fix.Prelude.{ℕ}

abbrev pub get_rate : ℕ
get_rate = 12

abbrev pub get_infra : ℕ
get_infra = 19

abbrev pub set_infra : ℕ
set_infra = 20

abbrev pub get_auth : ℕ
get_auth = 21

abbrev pub set_auth : ℕ
set_auth = 22

abbrev pub get_bssid : ℕ
get_bssid = 23

abbrev pub get_ssid : ℕ
get_ssid = 25

abbrev pub set_ssid : ℕ
set_ssid = 26

abbrev pub get_channel : ℕ
get_channel = 29

abbrev pub set_channel : ℕ
set_channel = 30

abbrev pub get_srl : ℕ
get_srl = 31

abbrev pub set_srl : ℕ
set_srl = 32

abbrev pub get_lrl : ℕ
get_lrl = 33

abbrev pub set_lrl : ℕ
set_lrl = 34

abbrev pub get_radio : ℕ
get_radio = 37

abbrev pub set_radio : ℕ
set_radio = 38

abbrev pub get_phytype : ℕ
get_phytype = 39

abbrev pub get_key : ℕ
get_key = 44

abbrev pub set_key : ℕ
set_key = 45

abbrev pub set_passive_scan : ℕ
set_passive_scan = 49

abbrev pub scan : ℕ
scan = 50

abbrev pub scan_results : ℕ
scan_results = 51

abbrev pub disassoc : ℕ
disassoc = 52

abbrev pub reassoc : ℕ
reassoc = 53

abbrev pub set_rateset : ℕ
set_rateset = 72

abbrev pub get_dtimprd : ℕ
get_dtimprd = 77

abbrev pub get_pm : ℕ
get_pm = 85

abbrev pub set_pm : ℕ
set_pm = 86

abbrev pub get_curr_rateset : ℕ
get_curr_rateset = 114

abbrev pub get_ap : ℕ
get_ap = 117

abbrev pub set_ap : ℕ
set_ap = 118

abbrev pub get_rssi : ℕ
get_rssi = 127

abbrev pub get_wsec : ℕ
get_wsec = 133

abbrev pub get_phy_noise : ℕ
get_phy_noise = 135

abbrev pub get_bss_info : ℕ
get_bss_info = 136

abbrev pub get_bandlist : ℕ
get_bandlist = 140

abbrev pub get_phylist : ℕ
get_phylist = 180

abbrev pub scb_deauthenticate_for_reason : ℕ
scb_deauthenticate_for_reason = 201

abbrev pub get_valid_channels : ℕ
get_valid_channels = 217

abbrev pub get_key_primary : ℕ
get_key_primary = 235

abbrev pub set_key_primary : ℕ
set_key_primary = 236

abbrev pub get_var : ℕ
get_var = 262

abbrev pub set_var : ℕ
set_var = 263

abbrev pub ioctl_maxlen : ℕ
ioctl_maxlen = 8192

abbrev pub set_promisc : ℕ
set_promisc = 10

abbrev pub set_monitor : ℕ
set_monitor = 108

abbrev pub toe_tx_csum_ol : ℕ
toe_tx_csum_ol = 1

abbrev pub toe_rx_csum_ol : ℕ
toe_rx_csum_ol = 2

abbrev pub get_monitor : ℕ
get_monitor = 107
