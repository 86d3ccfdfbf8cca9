-- ===== src/Iovar/Total.antt =====
-- Whether the ioctls and the variable functions return.
use broadcom_bcm4312_fix.Prelude.{arith, false, if◌then◌else◌, take, ℕ, ◌==◌, ◌≡◌, ◌≤◌}
use broadcom_bcm4312_fix.Iovar.{
  call, wl_dev_bufvar_get, wl_dev_bufvar_set, wl_dev_intvar_get, wl_dev_intvar_set, wl_dev_ioctl,
}
use broadcom_bcm4312_fix.Headers.{IoVar, int_size, ioctl_len_max}
use broadcom_bcm4312_fix.State.{Arg, M, Platform, bug, pure, var_name, var_word, ◌>>=◌}
use broadcom_bcm4312_fix.State.Total.{Total, bind-Total, pure-Total}
use broadcom_bcm4312_fix.Headers.Commands.{get_var, set_var}
use broadcom_bcm4312_fix.Iovar.Laws.{MkiovarFits}

pub wl_dev_ioctl-Total :
    (x : Platform) (cmd : ℕ) (arg : Arg) (len : ℕ)
    → int_size ≤ len
    → Total (wl_dev_ioctl x cmd arg len)
unfolding wl_dev_ioctl call
wl_dev_ioctl-Total x cmd arg len h = record { returns = λ w e. ground (arith, h, e) }

pub status-Total :
    (x : Platform) (cmd : ℕ) (arg : Arg) (len : ℕ)
    → int_size ≤ len
    → Total (wl_dev_ioctl x cmd arg len >>= λ r. pure r.status)
status-Total x cmd arg len h =
    bind-Total _ _ (wl_dev_ioctl-Total x cmd arg len h) (λ r. pure-Total r.status)

-- The length that bcm_mkiovar gives is not 0.
past_bug :
    {A : Type 0} (len : ℕ) (k : M A)
    → int_size ≤ len
    → Total k
    → Total (if len == 0 then bug else k)
past_bug len k h t = rw (not_zero len h) t
  where
    not_zero : (len : ℕ) → int_size ≤ len → (len == 0) ≡ false
    not_zero len h = ground arith

module _ (x : Platform) (fits : MkiovarFits x) where
  pub wl_dev_intvar_set-Total : (v : IoVar) (n : ℕ) → Total (wl_dev_intvar_set x v n)
  unfolding wl_dev_intvar_set
  wl_dev_intvar_set-Total v n =
      past_bug _ _ (fits.small v int_size (omega arith))
        (status-Total x set_var (var_word v n) _ (fits.small v int_size (omega arith)))

  pub wl_dev_intvar_get-Total : (v : IoVar) → Total (wl_dev_intvar_get x v)
  unfolding wl_dev_intvar_get
  wl_dev_intvar_get-Total v = past_bug _ _ (fits.small v 0 (omega arith)) (
      bind-Total _ _ (wl_dev_ioctl-Total x get_var (var_name v) _ (fits.small v 0 (omega arith)))
        (λ r. pure-Total (r.status, r.value)))

  pub wl_dev_bufvar_set-Total :
      (arg : Arg) (v : IoVar) (n : ℕ) → n ≤ 1024 → Total (wl_dev_bufvar_set x arg v n)
  unfolding wl_dev_bufvar_set
  wl_dev_bufvar_set-Total arg v n h =
      past_bug _ _ (fits.large v n h) (status-Total x set_var arg _ (fits.large v n h))

  pub wl_dev_bufvar_get-Total : (v : IoVar) (n : ℕ) → Total (wl_dev_bufvar_get x v n)
  unfolding wl_dev_bufvar_get
  wl_dev_bufvar_get-Total v n = past_bug _ _ (fits.large v 0 (omega arith)) (
      bind-Total _ _ (wl_dev_ioctl-Total x get_var (var_name v) ioctl_len_max (omega arith))
        (λ r. pure-Total (r.status, record r { bytes = take n r.bytes })))
