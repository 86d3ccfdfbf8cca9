-- ===== src/Linux/Proc.antt =====
-- The file under /proc that shows and sets the monitor mode: wl_proc_read for a current kernel
-- (src/wl/sys/wl_linux.c); wl_proc_write stands in Requests.
pub mod Echo
use broadcom_bcm4312_fix.Prelude.{
  Bool, [], if◌then◌else◌, leb, length, ltb, suc, zero, ℕ, ◌%◌, ◌++◌, ◌+◌, ◌-◌, ◌/◌, ◌^◌, ◌∷◌,
}
use broadcom_bcm4312_fix.Headers.{Bytes}
use broadcom_bcm4312_fix.Linux.Requests.{Glue, GlueState, glue_call, ioctl_glue}
use broadcom_bcm4312_fix.Shared.Endian.{ltoh32_ua}
use broadcom_bcm4312_fix.Iw.Monad.{is_zero, neg_efault}
use broadcom_bcm4312_fix.Headers.Commands.{get_monitor}
use broadcom_bcm4312_fix.Prelude.Int.{negsuc, pos, ℤ}

-- The decimal digits of a number, by fuel; ten are enough for 32 bits.
unfoldable pub decimal : ℕ → ℕ → Bytes
decimal zero n = []
decimal (suc fuel) n =
    let front = decimal fuel (n / 10) in
    if ltb n 10 then (0x30 + n) ∷ [] else front ++ (0x30 + n % 10) ∷ []

-- "%d\n" of snprintf for the int whose word is `w`.
unfoldable pub int_line : ℕ → Bytes
int_line w =
    if ltb w (2 ^ 31)
    then decimal 10 w ++ 0x0a ∷ []
    else 0x2d ∷ (decimal 10 (2 ^ 32 - w) ++ 0x0a ∷ [])

-- ARRAY_SIZE(tmp)
abbrev pub tmp_size : ℕ
tmp_size = 8

abbrev pub zero_int : Bytes
zero_int = 0 ∷ 0 ∷ 0 ∷ 0 ∷ []

-- The result comes with the bytes that are copied to user space. -ERANGE is -34, -EMSGSIZE is -90.
unfoldable pub copy_line : Bytes → ℕ → Bool → ℤ × Bytes
copy_line line len to_user =
    if leb tmp_size (length line)
    then (negsuc 33, [])
    else if ltb len (length line)
    then (negsuc 89, [])
    else if to_user
    then (pos (length line), line)
    else (neg_efault, [])

-- -EIO is -5.
module _ (g : Glue) where
  unfoldable pub wl_proc_read : ℕ → ℕ → Bool → GlueState → (ℤ × Bytes) × GlueState
  wl_proc_read offset len to_user s =
      if ltb 0 offset
      then ((pos 0, []), s)
      else (let r = glue_call g (ioctl_glue get_monitor zero_int) s in
          if is_zero ((r.0).0)
          then (copy_line (int_line (ltoh32_ua (((r.0).1).1))) len to_user, r.1)
          else ((negsuc 4, []), r.1))
