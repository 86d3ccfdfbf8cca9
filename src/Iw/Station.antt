-- ===== src/Iw/Station.antt =====
-- The network that the station is in: wl_iw_set_wap, wl_iw_get_wap, wl_iw_mlme, wl_iw_set_scan,
-- wl_iw_set_essid, wl_iw_get_essid, wl_iw_set_nick and wl_iw_get_nick (src/wl/sys/wl_iw.c).
use broadcom_bcm4312_fix.Prelude.{
  Bool, Option, [], bit_and, false, if◌then◌else◌, length, ltb, memcpy, min, none, not, replicate,
  set, some, suc, take, true, zero, ℕ, ◌&&◌, ◌++◌, ◌+◌, ◌==◌, ◌||◌, ◌∷◌,
}
use broadcom_bcm4312_fix.Iw.{Driver}
use broadcom_bcm4312_fix.Headers.{
  Addr, Bytes, Ssid, addr_len, broadcast_addr, scb_size, ssid_size, zero_addr, zero_ssid,
}
use broadcom_bcm4312_fix.State.{addr_arg, buffer_arg, scb_arg, ssid_arg}
use broadcom_bcm4312_fix.Pmk.{same_bytes}
use broadcom_bcm4312_fix.Iw.Monad.{
  IwM, dev_wlc_ioctl, is_zero, iw_dev_if, neg_e2big, neg_einval, pure, set_ioctl, store, ◌>>=◌,
  ◌>>◌,
}
use broadcom_bcm4312_fix.Headers.Commands.{
  disassoc, get_bssid, get_ssid, reassoc, scan, scb_deauthenticate_for_reason, set_ssid,
}
use broadcom_bcm4312_fix.Prelude.Int.{pos, ℤ}

-- IW_MLME_*
pub data MlmeCmd : Type 0 where
  mlme_disassoc mlme_deauth : MlmeCmd
  mlme_other : ℕ → MlmeCmd

-- struct iw_mlme
pub record Mlme : Type 0 where
  pub cmd : MlmeCmd
  pub reason_code : ℕ
  pub addr : Addr

-- The parts of struct iw_scan_req that are read.
pub record ScanReq : Type 0 where
  pub essid_len : ℕ
  pub essid : Bytes

-- sizeof(ssid.SSID)
abbrev pub max_ssid : ℕ
max_ssid = 32

-- The SSID of the first `len` bytes, at most 32, in a cleared structure.
unfoldable pub ssid_of : Bytes → ℕ → Ssid
ssid_of bytes len =
    let n = min max_ssid len in
    record { ssid_len = n; ssid = memcpy (replicate max_ssid 0) 0 bytes n }

-- The bytes of a string, without its NUL.
unfoldable pub c_string : Bytes → Bytes
c_string [] = []
c_string (c ∷ cs) = let rest = c_string cs in if c == 0 then [] else c ∷ rest

-- `memcpy(nickname, extra, length); nickname[length - 1] = 0;`. The length is not negative, and with
-- length 0 the second statement writes the byte before the array, which shows in front of the list.
unfoldable pub store_nick : Bytes → Bytes → ℕ → Bytes
store_nick nickname extra zero = 0 ∷ memcpy nickname 0 extra zero
store_nick nickname extra (suc n) = set (memcpy nickname 0 extra (suc n)) n 0

module _ (d : Driver) where
  -- A disassociation that fails is reported as success.
  unfoldable pub wl_iw_set_wap : ℕ → Addr → IwM ℤ
  wl_iw_set_wap family addr =
      if not (family == d.arphrd_ether)
      then pure neg_einval
      else if same_bytes addr broadcast_addr || same_bytes addr zero_addr
      then (set_ioctl d disassoc (scb_arg zero_addr 0) scb_size >>= λ _. pure (pos 0))
      else (do set_ioctl d reassoc (addr_arg addr) addr_len; pure (pos 0))

  -- The family and the address, which a failing call may leave zero.
  unfoldable pub wl_iw_get_wap : IwM (ℤ × (ℕ × Addr))
  wl_iw_get_wap = dev_wlc_ioctl d get_bssid (addr_arg zero_addr) addr_len >>= λ r.
      pure (pos 0, (d.arphrd_ether, memcpy zero_addr 0 r.bytes (min addr_len (length r.bytes))))

  unfoldable pub wl_iw_mlme : Option Mlme → IwM ℤ
  wl_iw_mlme none = pure neg_einval
  wl_iw_mlme (some mlme) =
      let scb = scb_arg mlme.addr mlme.reason_code in
      elim mlme.cmd [
        | mlme_disassoc ↦ set_ioctl d disassoc scb scb_size
        | mlme_deauth ↦ set_ioctl d scb_deauthenticate_for_reason scb scb_size
        | mlme_other _ ↦ pure neg_einval
      ]

  -- The SSID to look for: that of a request of the right size which names one, else the empty one.
  unfoldable pub scan_for : ℕ → ℕ → ScanReq → Ssid
  scan_for len flags req =
      if (len == d.scan_req_size) && not (bit_and flags d.scan_this_essid == 0)
      then ssid_of req.essid req.essid_len
      else zero_ssid

  -- The firmware's status is dropped.
  unfoldable pub wl_iw_set_scan : ℕ → ℕ → ScanReq → IwM ℤ
  wl_iw_set_scan len flags req =
      set_ioctl d scan (ssid_arg (scan_for len flags req)) ssid_size >>= λ _. pure (pos 0)

  -- No name is a disassociation.
  unfoldable pub wl_iw_set_essid : Option Bytes → ℕ → IwM ℤ
  wl_iw_set_essid none len = do set_ioctl d disassoc (scb_arg zero_addr 0) scb_size; pure (pos 0)
  wl_iw_set_essid (some extra) len =
      if len == 0
      then (do set_ioctl d disassoc (scb_arg zero_addr 0) scb_size; pure (pos 0))
      else (do set_ioctl d set_ssid (ssid_arg (ssid_of extra len)) ssid_size; pure (pos 0))

  -- The bytes and the length, which is the firmware's.
  unfoldable pub wl_iw_get_essid : Bool → IwM (ℤ × Option (Bytes × ℕ))
  wl_iw_get_essid false = pure (neg_einval, none)
  wl_iw_get_essid true = dev_wlc_ioctl d get_ssid (buffer_arg 0) ssid_size >>= λ r. pure (
      if is_zero r.status
      then (pos 0, some (take r.ssid.ssid_len r.ssid.ssid, r.ssid.ssid_len))
      else (r.status, none))

  unfoldable pub wl_iw_set_nick : Option Bytes → ℕ → IwM ℤ
  wl_iw_set_nick none len = pure neg_einval
  wl_iw_set_nick (some extra) len =
      if ltb d.essid_max_size len
      then pure neg_e2big
      else store (λ iw. record iw { nickname = store_nick iw.nickname extra len })

  -- The string with its NUL, and its length.
  unfoldable pub wl_iw_get_nick : Bool → IwM (ℤ × Option (Bytes × ℕ))
  wl_iw_get_nick false = pure (neg_einval, none)
  wl_iw_get_nick true = iw_dev_if >>= λ iw.
      let name = c_string iw.nickname in pure (pos 0, some (name ++ 0 ∷ [], length name + 1))
