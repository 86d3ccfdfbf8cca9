-- ===== src/Iovar.antt =====
-- wl_dev_ioctl and the four functions that read and write the firmware's named variables
-- (src/wl/sys/wl_cfg80211_hybrid.c).
pub mod Laws
pub mod Frame
pub mod Total
use broadcom_bcm4312_fix.Prelude.{if◌then◌else◌, ltb, some, take, ℕ, ◌==◌, ◌∷◌}
use broadcom_bcm4312_fix.Headers.{IoVar, Status, int_size, ioctl_len_max, ioctl_smlen}
use broadcom_bcm4312_fix.State.{
  Arg, Ioctl, M, Platform, Reply, bug, ioctl_call, pure, var_name, var_word, ◌>>=◌,
}
use broadcom_bcm4312_fix.Headers.Commands.{get_var, set_var}

module _ (x : Platform) where
  -- The call itself: it is logged, and answered by the firmware.
  unfoldable pub call : ℕ → Arg → ℕ → M Reply
  call cmd arg len w =
      let c : Ioctl = record { cmd = cmd; arg = arg; len = len } in
      some (x.reply w.log c, record w { log = ioctl_call c ∷ w.log })

  -- `BUG_ON(len < sizeof(int))`
  unfoldable pub wl_dev_ioctl : ℕ → Arg → ℕ → M Reply
  wl_dev_ioctl cmd arg len = if ltb len int_size then bug else call cmd arg len

  unfoldable pub wl_dev_intvar_set : IoVar → ℕ → M Status
  wl_dev_intvar_set name val =
      let len = x.mkiovar name int_size ioctl_smlen in
      if len == 0
      then bug
      else (wl_dev_ioctl set_var (var_word name val) len >>= λ r. pure r.status)

  -- The value is stored whether or not the call succeeded.
  unfoldable pub wl_dev_intvar_get : IoVar → M (Status × ℕ)
  wl_dev_intvar_get name =
      let len = x.mkiovar name 0 ioctl_smlen in
      if len == 0
      then bug
      else (wl_dev_ioctl get_var (var_name name) len >>= λ r. pure (r.status, r.value))

  unfoldable pub wl_dev_bufvar_set : Arg → IoVar → ℕ → M Status
  wl_dev_bufvar_set arg name len =
      let buflen = x.mkiovar name len ioctl_len_max in
      if buflen == 0 then bug else (wl_dev_ioctl set_var arg buflen >>= λ r. pure r.status)

  -- The buffer's first `buf_len` bytes are copied out only on success.
  unfoldable pub wl_dev_bufvar_get : IoVar → ℕ → M (Status × Reply)
  wl_dev_bufvar_get name buf_len =
      let len = x.mkiovar name 0 ioctl_len_max in
      if len == 0
      then bug
      else (wl_dev_ioctl get_var (var_name name) ioctl_len_max >>= λ r.
          pure (r.status, record r { bytes = take buf_len r.bytes }))
