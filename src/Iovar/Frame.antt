-- ===== src/Iovar/Frame.antt =====
-- What the ioctls and the variable functions leave alone.
use broadcom_bcm4312_fix.Prelude.{arith, take, ℕ, ◌==◌, ◌∷◌, ◌≡◌}
use broadcom_bcm4312_fix.Iovar.{
  call, wl_dev_bufvar_get, wl_dev_bufvar_set, wl_dev_intvar_get, wl_dev_intvar_set, wl_dev_ioctl,
}
use broadcom_bcm4312_fix.Headers.{IoVar, int_size, ioctl_len_max, ioctl_smlen}
use broadcom_bcm4312_fix.State.{
  Arg, Ioctl, Platform, World, bug, ioctl_call, pure, var_name, var_word, ◌>>=◌,
}
use broadcom_bcm4312_fix.State.Keeps.{Keeps, bind-Keeps, bug-Keeps, if-Keeps, pure-Keeps}
use broadcom_bcm4312_fix.Headers.Commands.{get_var, set_var}

abbrev pub Blind : {B : Type 0} → (World → B) → Type 0
Blind f = (w : World) (c : Ioctl) → f (record w { log = ioctl_call c ∷ w.log }) ≡ f w

module _ {B : Type 0} (x : Platform) (f : World → B) (blind : Blind f) where
  pub wl_dev_ioctl-Keeps : (cmd : ℕ) (arg : Arg) (len : ℕ) → Keeps f (wl_dev_ioctl x cmd arg len)
  unfolding wl_dev_ioctl call
  wl_dev_ioctl-Keeps cmd arg len = record {
    apply = λ w r w' e. ground (arith, blind w (record { cmd = cmd; arg = arg; len = len }));
  }

  -- The status of an ioctl.
  pub status-Keeps :
      (cmd : ℕ) (arg : Arg) (len : ℕ) → Keeps f (wl_dev_ioctl x cmd arg len >>= λ r. pure r.status)
  status-Keeps cmd arg len =
      bind-Keeps f _ _ (wl_dev_ioctl-Keeps cmd arg len) (λ r. pure-Keeps f r.status)

  pub wl_dev_intvar_set-Keeps : (v : IoVar) (n : ℕ) → Keeps f (wl_dev_intvar_set x v n)
  unfolding wl_dev_intvar_set
  wl_dev_intvar_set-Keeps v n =
      if-Keeps f (x.mkiovar v int_size ioctl_smlen == 0) bug _ (bug-Keeps f _)
        (status-Keeps set_var (var_word v n) (x.mkiovar v int_size ioctl_smlen))

  pub wl_dev_intvar_get-Keeps : (v : IoVar) → Keeps f (wl_dev_intvar_get x v)
  unfolding wl_dev_intvar_get
  wl_dev_intvar_get-Keeps v = if-Keeps f (x.mkiovar v 0 ioctl_smlen == 0) bug _ (bug-Keeps f _) (
      bind-Keeps f _ _ (wl_dev_ioctl-Keeps get_var (var_name v) (x.mkiovar v 0 ioctl_smlen))
        (λ r. pure-Keeps f (r.status, r.value)))

  pub wl_dev_bufvar_set-Keeps :
      (arg : Arg) (v : IoVar) (n : ℕ) → Keeps f (wl_dev_bufvar_set x arg v n)
  unfolding wl_dev_bufvar_set
  wl_dev_bufvar_set-Keeps arg v n =
      if-Keeps f (x.mkiovar v n ioctl_len_max == 0) bug _ (bug-Keeps f _)
        (status-Keeps set_var arg (x.mkiovar v n ioctl_len_max))

  pub wl_dev_bufvar_get-Keeps : (v : IoVar) (n : ℕ) → Keeps f (wl_dev_bufvar_get x v n)
  unfolding wl_dev_bufvar_get
  wl_dev_bufvar_get-Keeps v n =
      if-Keeps f (x.mkiovar v 0 ioctl_len_max == 0) bug _ (bug-Keeps f _) (
        bind-Keeps f _ _ (wl_dev_ioctl-Keeps get_var (var_name v) ioctl_len_max)
          (λ r. pure-Keeps f (r.status, record r { bytes = take n r.bytes })))
