-- ===== src/Iw/Monad.antt =====
-- The monad of the handlers of src/wl/sys/wl_iw.c, their error codes, and the functions through which
-- they reach the firmware.
use broadcom_bcm4312_fix.Prelude.{
  Bool, Option, bit_and, false, if◌then◌else◌, ltb, none, not, some, suc, take, true, zero, ℕ, ◌-◌,
  ◌==◌, ◌^◌, ◌∷◌,
}
use broadcom_bcm4312_fix.Iw.{Answer, Driver, EventCmd, IwWorld, Payload, WlIw, fw_call, send_event}
use broadcom_bcm4312_fix.Headers.{Addr, IoVar, int_size, ioctl_smlen}
use broadcom_bcm4312_fix.State.{Arg, Ioctl, var_name, var_word}
use broadcom_bcm4312_fix.Headers.Commands.{get_var, set_var}
use broadcom_bcm4312_fix.Prelude.Int.{negsuc, pos, ℤ}

abbrev pub IwM : Type 0 → Type 0
IwM A = IwWorld → A × IwWorld

abbrev pub pure : {A : Type 0} → A → IwM A
pure a w = (a, w)

infixl 5 ◌>>=◌ ◌>>◌
abbrev pub ◌>>=◌ : {A B : Type 0} → IwM A → (A → IwM B) → IwM B
◌>>=◌ m f w = let r = m w in f (r.0) (r.1)

-- `if (!error) ...`
abbrev pub is_zero : ℤ → Bool
is_zero (pos zero) = true
is_zero (pos (suc n)) = false
is_zero (negsuc n) = false

-- `if ((error = call)) return error;`
abbrev pub unless_error : ℤ → IwM ℤ → IwM ℤ
unless_error error k = if is_zero error then k else pure error

abbrev pub ◌>>◌ : IwM ℤ → IwM ℤ → IwM ℤ
m >> k = m >>= λ error. unless_error error k

-- IW_DEV_IF(dev), an assignment through it, and an event.
abbrev pub iw_dev_if : IwM WlIw
iw_dev_if w = (w.iw, w)

abbrev pub store : (WlIw → WlIw) → IwM ℤ
store f w = (pos 0, record w { iw = f w.iw })

abbrev pub wireless_send_event : EventCmd → Addr → ℕ → Payload → IwM ℤ
wireless_send_event cmd addr len extra w =
    (pos 0, record w { log = send_event cmd addr len extra ∷ w.log })

-- The negated error numbers of the kernel.
abbrev pub neg_e2big : ℤ
neg_e2big = negsuc 6

abbrev pub neg_eagain : ℤ
neg_eagain = negsuc 10

abbrev pub neg_enomem : ℤ
neg_enomem = negsuc 11

abbrev pub neg_efault : ℤ
neg_efault = negsuc 13

abbrev pub neg_einval : ℤ
neg_einval = negsuc 21

abbrev pub neg_eopnotsupp : ℤ
neg_eopnotsupp = negsuc 94

abbrev pub neg_einprogress : ℤ
neg_einprogress = negsuc 114

abbrev pub max_wliw_ioctl_len : ℕ
max_wliw_ioctl_len = 1024

-- The s32 of 32 bits.
abbrev pub s32 : ℕ → ℤ
s32 v = if ltb v (2 ^ 31) then pos v else negsuc (2 ^ 32 - 1 - v)

-- `v < bound`
abbrev pub is_small : ℤ → ℕ → Bool
is_small (pos n) bound = ltb n bound
is_small (negsuc n) bound = true

-- `flags & bit`, as a test.
abbrev pub has : ℕ → ℕ → Bool
has flags bit = not (bit_and flags bit == 0)

module _ (d : Driver) where
  -- The call is logged, and answered by the firmware.
  unfoldable pub dev_wlc_ioctl : ℕ → Arg → ℕ → IwM Answer
  dev_wlc_ioctl cmd arg len w =
      let c : Ioctl = record { cmd = cmd; arg = arg; len = len } in
      (d.answer w.log c, record w { log = fw_call c ∷ w.log })

  -- The status alone.
  unfoldable pub set_ioctl : ℕ → Arg → ℕ → IwM ℤ
  set_ioctl cmd arg len = dev_wlc_ioctl cmd arg len >>= λ r. pure r.status

  -- ASSERT is not compiled in, here and below: a variable without room is sent with length 0.
  unfoldable pub dev_wlc_intvar_set : IoVar → ℕ → IwM ℤ
  dev_wlc_intvar_set name val =
      set_ioctl set_var (var_word name val) (d.host.mkiovar name int_size ioctl_smlen)

  unfoldable pub dev_wlc_bufvar_set : Arg → IoVar → ℕ → IwM ℤ
  dev_wlc_bufvar_set arg name len w =
      if d.kmalloc w.log max_wliw_ioctl_len
      then set_ioctl set_var arg (d.host.mkiovar name len max_wliw_ioctl_len) w
      else (neg_enomem, w)

  -- The first `buflen` bytes are copied on success; `none` is a buffer that is left alone.
  unfoldable pub dev_wlc_bufvar_get : IoVar → ℕ → IwM (ℤ × Option Answer)
  dev_wlc_bufvar_get name buflen w =
      if d.kmalloc w.log max_wliw_ioctl_len
      then (dev_wlc_ioctl get_var (var_name name) max_wliw_ioctl_len >>= λ r. pure (
        r.status,
        if is_zero r.status then some (record r { bytes = take buflen r.bytes }) else none,
      ))
          w
      else ((neg_enomem, none), w)

  -- The value is stored whether or not the call succeeded.
  unfoldable pub dev_wlc_intvar_get : IoVar → IwM Answer
  dev_wlc_intvar_get name =
      dev_wlc_ioctl get_var (var_name name) (d.host.mkiovar name 0 ioctl_smlen)
