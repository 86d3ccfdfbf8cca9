-- ===== src/Iw/Call.antt =====
-- wl_iw_handler, wl_iw_priv_handler and wl_iw_ioctl (src/wl/sys/wl_iw.c).
pub mod Bounds
use broadcom_bcm4312_fix.Prelude.{
  Bool, List, Option, [], get_elem?, if◌then◌else◌, ltb, memcpy, none, not, some, take, ℕ, ◌*◌,
  ◌++◌, ◌+◌, ◌==◌, ◌∷◌,
}
use broadcom_bcm4312_fix.Iw.{Driver, IwEffect}
use broadcom_bcm4312_fix.Headers.{Bytes}
use broadcom_bcm4312_fix.Iw.Monad.{
  IwM, is_zero, neg_e2big, neg_efault, neg_enomem, neg_eopnotsupp, pure, ◌>>=◌,
}
use broadcom_bcm4312_fix.Prelude.Int.{pos, ℤ}

-- The functions of the two tables.
pub data IwHandler : Type 0 where
  h_config_commit h_get_name h_set_freq h_get_freq h_set_mode h_get_mode h_get_range : IwHandler
  h_set_spy h_get_spy h_set_wap h_get_wap h_mlme h_get_aplist h_set_scan h_get_scan : IwHandler
  h_set_essid h_get_essid h_set_nick h_get_nick h_set_rate h_get_rate h_set_rts : IwHandler
  h_get_rts h_set_frag h_get_frag h_set_txpow h_get_txpow h_set_retry h_get_retry : IwHandler
  h_set_encode h_get_encode h_set_power h_get_power h_set_wpaie h_get_wpaie : IwHandler
  h_set_wpaauth h_get_wpaauth h_set_encodeext h_get_encodeext h_set_pmksa : IwHandler
  h_set_leddc h_set_vlanmode h_set_pm : IwHandler

abbrev pub null_2 : List (Option IwHandler)
null_2 = none ∷ none ∷ []

abbrev pub pair : IwHandler → IwHandler → List (Option IwHandler)
pair a b = some a ∷ some b ∷ []

-- By the number behind SIOCIWFIRST, for which the kernel defines the command that the function
-- serves.
unfoldable pub wl_iw_handler : List (Option IwHandler)
wl_iw_handler =
    pair h_config_commit h_get_name
    ++ null_2
    ++ pair h_set_freq h_get_freq
    ++ pair h_set_mode h_get_mode
    ++ null_2
    ++ (none ∷ some h_get_range ∷ [])
    ++ null_2
    ++ null_2
    ++ pair h_set_spy h_get_spy
    ++ null_2
    ++ pair h_set_wap h_get_wap
    ++ pair h_mlme h_get_aplist
    ++ pair h_set_scan h_get_scan
    ++ pair h_set_essid h_get_essid
    ++ pair h_set_nick h_get_nick
    ++ null_2
    ++ pair h_set_rate h_get_rate
    ++ pair h_set_rts h_get_rts
    ++ pair h_set_frag h_get_frag
    ++ pair h_set_txpow h_get_txpow
    ++ pair h_set_retry h_get_retry
    ++ pair h_set_encode h_get_encode
    ++ pair h_set_power h_get_power
    ++ null_2
    ++ pair h_set_wpaie h_get_wpaie
    ++ pair h_set_wpaauth h_get_wpaauth
    ++ pair h_set_encodeext h_get_encodeext
    ++ some h_set_pmksa ∷ []

unfoldable pub wl_iw_priv_handler : List IwHandler
wl_iw_priv_handler = h_set_leddc ∷ h_set_vlanmode ∷ h_set_pm ∷ []

-- What the caller passes and what the kernel's copies do: the number behind SIOCIWFIRST, the length
-- of the iw_point, the bytes at its pointer, NULL where `none`, and whether each copy succeeds.
pub record Request : Type 0 where
  pub cmd : ℕ
  pub len : ℕ
  pub pointer : Option Bytes
  pub from_user : Bool
  pub to_user : Bool

-- A handler's C interface: `extra` and the length, and both of them afterwards with the status.
abbrev pub RunHandler : Type 0
RunHandler = IwHandler → Option Bytes → ℕ → IwM (ℤ × (ℕ × Option Bytes))

module _ (d : Driver) where
  -- `max_tokens` and `token_size`.
  unfoldable pub tokens_of : IwHandler → ℕ × ℕ
  tokens_of h_set_essid = (d.essid_max_size + 1, 1)
  tokens_of h_get_essid = (d.essid_max_size + 1, 1)
  tokens_of h_set_nick = (d.essid_max_size + 1, 1)
  tokens_of h_get_nick = (d.essid_max_size + 1, 1)
  tokens_of h_set_encode = (d.encoding_token_max, 1)
  tokens_of h_get_encode = (d.encoding_token_max, 1)
  tokens_of h_set_encodeext = (d.encoding_token_max, 1)
  tokens_of h_get_encodeext = (d.encoding_token_max, 1)
  tokens_of h_get_range = (d.range_size, 1)
  tokens_of h_get_aplist = (d.max_ap, d.sockaddr_size + d.quality_size)
  tokens_of h_get_scan = (d.scan_max_data, 1)
  tokens_of h_set_spy = (d.max_spy, d.sockaddr_size)
  tokens_of h_get_spy = (d.max_spy, d.sockaddr_size + d.quality_size)
  tokens_of _ = (0, 1)

  -- The buffer `extra`, NULL where the request has none, or an error. `fresh` is what the allocator's
  -- memory holds.
  unfoldable pub copy_in : (ℕ → Bytes) → List IwEffect → IwHandler → Request → ℤ × Option Bytes
  copy_in fresh log h req =
      let max_tokens = (tokens_of h).0 in
      let token_size = (tokens_of h).1 in
      elim req.pointer [
        | none ↦ (pos 0, none)
        | some bytes ↦
            if max_tokens == 0
            then (pos 0, none)
            else if ltb max_tokens req.len
            then (neg_e2big, none)
            else if not (d.kmalloc log (max_tokens * token_size))
            then (neg_enomem, none)
            else if req.from_user
            then (
              pos 0,
              some (memcpy (fresh (max_tokens * token_size)) 0 bytes (req.len * token_size)),
            )
            else (neg_efault, none)
      ]

  -- The status, and the bytes that are copied out: as many as the handler's length says.
  unfoldable pub copy_out : IwHandler → Request → ℤ × (ℕ × Option Bytes) → ℤ × Option Bytes
  copy_out h req (ret, (len, none)) = (ret, none)
  copy_out h req (ret, (len, some extra)) =
      if req.to_user then (ret, some (take (len * (tokens_of h).1) extra)) else (neg_efault, none)

  unfoldable pub call_handler :
      (ℕ → Bytes) → RunHandler → IwHandler → Request → IwM (ℤ × Option Bytes)
  call_handler fresh run h req w =
      let extra = copy_in fresh w.log h req in
      if is_zero (extra.0)
      then (run h (extra.1) req.len >>= λ r. pure (copy_out h req r)) w
      else ((extra.0, none), w)

  unfoldable pub wl_iw_ioctl : (ℕ → Bytes) → RunHandler → Request → IwM (ℤ × Option Bytes)
  wl_iw_ioctl fresh run req = elim (get_elem? wl_iw_handler req.cmd) [
    | some (some h) ↦ call_handler fresh run h req
    | _ ↦ pure (neg_eopnotsupp, none)
  ]
