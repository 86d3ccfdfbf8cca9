-- ===== src/Linux/Proc/Echo.antt =====
-- What is written to the file under /proc is read back (src/wl/sys/wl_linux.c).
use broadcom_bcm4312_fix.Prelude.{
  List, [], ap, arith, false, leb, length, ltb, refl, suc, true, ℕ, ◌+◌, ◌-◌, ◌<◌, ◌^◌, ◌∙◌, ◌∷◌,
  ◌≡◌, ◌≤◌,
}
use broadcom_bcm4312_fix.Headers.{Bytes}
use broadcom_bcm4312_fix.Linux.Requests.{
  Glue, GlueCall, GlueState, glue_call, ioctl_glue, wl_proc_write,
}
use broadcom_bcm4312_fix.Linux.Proc.{copy_line, decimal, int_line, wl_proc_read, zero_int}
use broadcom_bcm4312_fix.Shared.Endian.{ltoh32_ua}
use broadcom_bcm4312_fix.Shared.Endian.Agreement.{ltoh32_ua_bytes}
use broadcom_bcm4312_fix.Headers.Commands.{get_monitor, set_monitor}
use broadcom_bcm4312_fix.Prelude.Int.{pos}

-- A binary part that takes WLC_SET_MONITOR and answers WLC_GET_MONITOR with what was set last.
pub record KeepsMonitor (g : Glue) : Type 0 where
  pub takes :
      (log : List GlueCall) (v : Bytes) → (g.answer log (ioctl_glue set_monitor v)).0 ≡ pos 0
  pub keeps :
      (log : List GlueCall) (v : Bytes)
      → g.answer (ioctl_glue set_monitor v ∷ log) (ioctl_glue get_monitor zero_int)
        ≡ (pos 0, (0, v))

digit_word : (d : ℕ) → d < 10 → ltoh32_ua (d ∷ 0 ∷ 0 ∷ 0 ∷ []) ≡ d
digit_word d h = ltoh32_ua_bytes d 0 0 0 (omega arith) (omega arith) (omega arith) ∙ omega arith

digit_line : (d : ℕ) → d < 10 → int_line d ≡ (0x30 + d) ∷ 0x0a ∷ []
unfolding int_line decimal
digit_line d h =
    let word : ltb d (2 ^ 31) ≡ true = ground arith in
    let one : ltb d 10 ≡ true = ground arith in rw (word, one) refl

written_digit :
    (g : Glue) (digit : ℕ) (behind : Bytes) (s : GlueState)
    → KeepsMonitor g
    → length behind ≤ 1
    → wl_proc_write g ((0x30 + digit) ∷ behind) true s ≡ (
      pos (suc (length behind)),
      record s { calls = ioctl_glue set_monitor (digit ∷ 0 ∷ 0 ∷ 0 ∷ []) ∷ s.calls },
    )
unfolding wl_proc_write glue_call
written_digit g digit [] s k h =
    let at_least : leb 0x30 (0x30 + digit) ≡ true = ground arith in
    let value : 0x30 + digit - 0x30 ≡ digit = omega arith in
    rw (at_least, value, k.takes s.calls (digit ∷ 0 ∷ 0 ∷ 0 ∷ [])) refl
written_digit g digit (c ∷ []) s k h =
    let at_least : leb 0x30 (0x30 + digit) ≡ true = ground arith in
    let value : 0x30 + digit - 0x30 ≡ digit = omega arith in
    rw (at_least, value, k.takes s.calls (digit ∷ 0 ∷ 0 ∷ 0 ∷ [])) refl
written_digit g digit (c ∷ d ∷ cs) s k h = absurd (omega arith)

read_digit :
    (g : Glue) (digit len : ℕ) (s : GlueState)
    → KeepsMonitor g
    → digit < 10
    → 2 ≤ len
    → (wl_proc_read g 0 len true
        (record s { calls = ioctl_glue set_monitor (digit ∷ 0 ∷ 0 ∷ 0 ∷ []) ∷ s.calls })).0
      ≡ (pos 2, (0x30 + digit) ∷ 0x0a ∷ [])
unfolding wl_proc_read copy_line glue_call
read_digit g digit len s k small room =
    let fits : ltb len 2 ≡ false = ground arith in
    rw
      (
        k.keeps s.calls (digit ∷ 0 ∷ 0 ∷ 0 ∷ []),
        digit_word digit small,
        digit_line digit small,
        fits,
      )
      refl

-- On a binary part that keeps the monitor mode, a digit that is written to the file, alone or with one
-- character behind it, is taken with its length, and a read of two or more bytes from the start
-- then copies the digit and a newline.
pub wl_proc_read-wl_proc_write :
    (g : Glue) (digit len : ℕ) (behind : Bytes) (s : GlueState)
    → KeepsMonitor g
    → digit < 10
    → length behind ≤ 1
    → 2 ≤ len
    → let w = wl_proc_write g ((0x30 + digit) ∷ behind) true s in
      (w.0 ≡ pos (suc (length behind)))
      × ((wl_proc_read g 0 len true (w.1)).0 ≡ (pos 2, (0x30 + digit) ∷ 0x0a ∷ []))
wl_proc_read-wl_proc_write g digit len behind s k small short room =
    let w = written_digit g digit behind s k short in
    (
      ap (λ r. r.0) w,
      ap (λ r. (wl_proc_read g 0 len true (r.1)).0) w ∙ read_digit g digit len s k small room,
    )
