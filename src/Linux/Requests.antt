-- ===== src/Linux/Requests.antt =====
-- Requests to the device: wl_ioctl, wlc_ioctl_internal, wl_ethtool with wl_toe_get and wl_toe_set,
-- wl_set_mac_address, _wl_set_multicast_list, wl_set_radio_block, wl_proc_write and
-- wl_buf_to_pktcopy (src/wl/sys/wl_linux.c). A request finds its device: the tests for NULL are left
-- out.
pub mod Checksum
use broadcom_bcm4312_fix.Prelude.{
  Bool, List, Option, [], bit_or, false, get_or, if◌then◌else◌, leb, length, ltb, max, memcpy, none,
  not, some, take, true, ℕ, ◌%◌, ◌&&◌, ◌+◌, ◌-◌, ◌==◌, ◌^◌, ◌||◌, ◌∷◌,
}
use broadcom_bcm4312_fix.Connect.{clear_bits}
use broadcom_bcm4312_fix.Headers.{Addr, Bytes}
use broadcom_bcm4312_fix.Shared.Errors.{bcme_badaddr, bcme_eperm, bcme_noresource, bcme_unsupported}
use broadcom_bcm4312_fix.Iw.Monad.{has, is_zero, neg_efault, neg_eopnotsupp}
use broadcom_bcm4312_fix.Headers.Commands.{
  ioctl_maxlen, set_monitor, set_promisc, set_radio, toe_rx_csum_ol, toe_tx_csum_ol,
}
use broadcom_bcm4312_fix.Prelude.Int.{is_negative, negsuc, pos, ℤ}

-- The names of the variables, and the commands of ethtool.
pub data GlueVar : Type 0 where
  toe_ol toe allmulti mcast_list cur_etheraddr : GlueVar

pub data EthtoolCmd : Type 0 where
  get_rx_csum get_tx_csum set_rx_csum set_tx_csum get_drvinfo : EthtoolCmd
  ethtool_other : ℕ → EthtoolCmd

-- Calls of the binary part: wlc_ioctl with its command and buffer, wlc_set, a variable read, and a
-- variable written with a number or with a list of addresses and its count.
pub data GlueCall : Type 0 where
  ioctl_glue : ℕ → Bytes → GlueCall
  set_glue : ℕ → ℕ → GlueCall
  read_var : GlueVar → GlueCall
  write_var : GlueVar → ℕ → GlueCall
  write_list : GlueVar → ℕ → List Addr → GlueCall

-- What the binary part, the allocator and the kernel's checks answer.
pub record Glue : Type 0 where
  pub answer : List GlueCall → GlueCall → ℤ × (ℕ × Bytes)
  pub capable : Bool
  pub granted : Bool
  -- OSL_ERROR
  pub osl_error : ℤ → ℤ
  -- what fresh memory holds
  pub fresh : ℕ → Bytes

-- `bcmerror` of wl->pub, NETIF_F_IP_CSUM in the device's features, its address, whether the lock is
-- held, and the calls, newest first.
pub record GlueState : Type 0 where
  pub bcmerror : ℤ
  pub ip_csum : Bool
  pub dev_addr : Addr
  pub locked : Bool
  pub calls : List GlueCall

abbrev pub maxmultilist : ℕ
maxmultilist = 32

module _ (g : Glue) where
  unfoldable pub glue_call : GlueCall → GlueState → (ℤ × (ℕ × Bytes)) × GlueState
  glue_call c s = (g.answer s.calls c, record s { calls = c ∷ s.calls })

  -- `if (bcmerror != 0) wl->pub->bcmerror = bcmerror; return OSL_ERROR(bcmerror);`
  unfoldable pub finish_request : ℤ → GlueState → ℤ × GlueState
  finish_request e s = (g.osl_error e, if is_zero e then s else record s { bcmerror = e })

  -- The bytes of the buffer after the call come with the status.
  unfoldable pub wlc_ioctl_internal : ℕ → Bytes → GlueState → (ℤ × Bytes) × GlueState
  wlc_ioctl_internal cmd buf s =
      if not g.capable
      then (let f = finish_request bcme_eperm s in (((f.0), buf), f.1))
      else (let r = glue_call (ioctl_glue cmd buf) s in
          let f = finish_request ((r.0).0) (r.1) in ((f.0, ((r.0).1).1), f.1))

  -- SIOCDEVPRIVATE of wl_ioctl for a request that was read: its command, the bytes at its buffer, NULL
  -- where `none`, and whether the two copies succeed. The bytes that are written back come with the
  -- status; where the first copy fails they are what the fresh buffer holds.
  unfoldable pub wl_ioctl_private :
      ℕ → Option Bytes → Bool → Bool → GlueState → (ℤ × Option Bytes) × GlueState
  wl_ioctl_private cmd none from_user to_user s =
      let r = glue_call (ioctl_glue cmd []) s in
      let f = finish_request ((r.0).0) (r.1) in ((f.0, none), f.1)
  wl_ioctl_private cmd (some bytes) from_user to_user s =
      if not g.granted
      then (let f = finish_request bcme_noresource s in ((f.0, none), f.1))
      else if from_user
      then (let r = glue_call (ioctl_glue cmd bytes) s in
          let f = finish_request (if to_user then (r.0).0 else bcme_badaddr) (r.1) in
          ((f.0, if to_user then some (take (length bytes) ((r.0).1).1) else none), f.1))
      else (let f = finish_request bcme_badaddr s in
          (
            (
              f.0,
              if to_user
                  then some (take (length bytes) (g.fresh (max (length bytes) ioctl_maxlen)))
                  else none,
            ),
            f.1,
          ))

  -- wl_ioctl for a command that is none of SIOCDEVPRIVATE, ethtool's and the wireless extensions'.
  unfoldable pub wl_ioctl_unknown : GlueState → ℤ × GlueState
  wl_ioctl_unknown s = finish_request bcme_unsupported s

  -- `none` is -EOPNOTSUPP.
  unfoldable pub wl_toe_get : GlueState → Option ℕ × GlueState
  wl_toe_get s =
      let r = glue_call (read_var toe_ol) s in
      (if is_zero ((r.0).0) then some (((r.0).1).0) else none, r.1)

  unfoldable pub wl_toe_set : ℕ → GlueState → Bool × GlueState
  wl_toe_set v s =
      let r = glue_call (write_var toe_ol v) s in
      if not (is_zero ((r.0).0))
      then (false, r.1)
      else (let q = glue_call (write_var toe (if v == 0 then 0 else 1)) (r.1) in
          (is_zero ((q.0).0), q.1))

  -- The component's bit for a command about received or transmitted packets.
  abbrev pub csum_dir : Bool → ℕ
  csum_dir tx = if tx then toe_tx_csum_ol else toe_rx_csum_ol

  unfoldable pub get_csum : Bool → GlueState → (ℤ × Option ℕ) × GlueState
  get_csum tx s =
      let r = wl_toe_get s in
      (
        elim (r.0) [
          | none ↦ (neg_eopnotsupp, none)
          | some v ↦ (pos 0, some (if has v (csum_dir tx) then 1 else 0))
        ],
        r.1,
      )

  -- The features of the device follow for transmitted packets.
  unfoldable pub set_csum : Bool → ℕ → GlueState → ℤ × GlueState
  set_csum tx word s =
      let r = wl_toe_get s in
      elim (r.0) [
        | none ↦ (neg_eopnotsupp, r.1)
        | some v ↦
            let q =
              wl_toe_set (if word == 0 then clear_bits v (csum_dir tx) else bit_or v (csum_dir tx))
                (r.1) in
            if q.0
            then (pos 0, if tx then record (q.1) { ip_csum = not (word == 0) } else q.1)
            else (neg_eopnotsupp, q.1)
      ]

  -- The copies from and to user space succeed.
  unfoldable pub wl_ethtool : EthtoolCmd → ℕ → GlueState → (ℤ × Option ℕ) × GlueState
  wl_ethtool get_drvinfo word s = ((pos 0, none), s)
  wl_ethtool get_rx_csum word s = get_csum false s
  wl_ethtool get_tx_csum word s = get_csum true s
  wl_ethtool set_rx_csum word s = let r = set_csum false word s in ((r.0, none), r.1)
  wl_ethtool set_tx_csum word s = let r = set_csum true word s in ((r.0, none), r.1)
  wl_ethtool (ethtool_other n) word s = ((neg_eopnotsupp, none), s)

  unfoldable pub wl_set_mac_address : Addr → GlueState → ℤ × GlueState
  wl_set_mac_address addr s =
      let r = glue_call (write_list cur_etheraddr 1 (addr ∷ [])) s in
      if is_zero ((r.0).0)
      then (pos 0, record (r.1) { dev_addr = addr })
      else (g.osl_error ((r.0).0), r.1)

  -- The addresses that are copied, and whether the list was too long, where none is.
  unfoldable pub multicast_of : List Addr → List Addr × Bool
  multicast_of addrs = if ltb maxmultilist (length addrs) then ([], true) else (addrs, false)

  -- `up` is wl->pub->up; `all` and `promisc` are the device's flags.
  unfoldable pub wl_set_multicast_list : Bool → Bool → ℕ → List Addr → GlueState → GlueState
  wl_set_multicast_list is_up all promisc addrs s =
      if is_up && g.granted
      then (let l = multicast_of addrs in
          let a = glue_call (write_var allmulti (if all || l.1 then 1 else 0)) s in
          let p = glue_call (set_glue set_promisc promisc) (a.1) in
          (glue_call (write_list mcast_list (length (l.0)) (l.0)) (p.1)).1)
      else s

  -- The lock is kept where the call fails.
  unfoldable pub wl_set_radio_block : Bool → GlueState → ℤ × GlueState
  wl_set_radio_block blocked s =
      let r =
        glue_call (set_glue set_radio (2 ^ 16 + (if blocked then 1 else 0)))
          (record s { locked = true }) in
      if is_negative ((r.0).0) then (pos 1, r.1) else (pos 0, record (r.1) { locked = false })

  -- One character: a digit is turned into its value.
  unfoldable pub wl_proc_write : Bytes → Bool → GlueState → ℤ × GlueState
  wl_proc_write buff from_user s =
      if (length buff == 0) || ltb 2 (length buff)
      then (negsuc 4, s)
      else if not from_user
      then (neg_efault, s)
      else (let c = get_or buff 0 0 in
          let r = glue_call (write_monitor (if leb 0x30 c then c - 0x30 else c)) s in
          (if is_zero ((r.0).0) then pos (length buff) else negsuc 4, r.1))
    where
      write_monitor : ℕ → GlueCall
      write_monitor v = ioctl_glue set_monitor (v ∷ 0 ∷ 0 ∷ 0 ∷ [])

-- A copy that does not fit copies nothing; the packet and the number of bytes copied. `len` and
-- `offset` are added as unsigned words.
unfoldable pub wl_buf_to_pktcopy : Bytes → Bytes → ℕ → ℕ → Bytes × ℕ
wl_buf_to_pktcopy p buf len offset =
    if ltb (length p) ((len + offset) % 2 ^ 32) then (p, 0) else (memcpy p offset buf len, len)
