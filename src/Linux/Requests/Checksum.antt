-- ===== src/Linux/Requests/Checksum.antt =====
-- The commands of ethtool that switch the checksum offload (src/wl/sys/wl_linux.c).
use broadcom_bcm4312_fix.Prelude.{
  Bool, List, ap, arith, bit_and, bit_or, false, if◌then◌else◌, min, not, refl, some, sym, true, ℕ,
  ◌%◌, ◌*◌, ◌+◌, ◌-◌, ◌/◌, ◌<◌, ◌==◌, ◌^◌, ◌∙◌, ◌∷◌, ◌≡◌,
}
use broadcom_bcm4312_fix.Connect.{clear_bits}
use broadcom_bcm4312_fix.Linux.Requests.{
  Glue, GlueCall, GlueState, GlueVar, get_csum, glue_call, read_var, set_csum, toe, toe_ol,
  wl_toe_get, wl_toe_set, write_var,
}
use broadcom_bcm4312_fix.Iw.Monad.{has}
use broadcom_bcm4312_fix.Headers.Commands.{toe_rx_csum_ol, toe_tx_csum_ol}
use broadcom_bcm4312_fix.Prelude.Bits.{bit_and-zero, bit_and_step, bit_or-zero, bit_or_step}
use broadcom_bcm4312_fix.Prelude.Int.{pos}
use broadcom_bcm4312_fix.Prelude.Bits.Fields.{bit_and_low}

-- A binary part that takes both variables of the offload, and answers with the components that were
-- written last.
pub record KeepsToe (g : Glue) : Type 0 where
  pub reads : (log : List GlueCall) → (g.answer log (read_var toe_ol)).0 ≡ pos 0
  pub takes : (log : List GlueCall) (x : GlueVar) (v : ℕ) → (g.answer log (write_var x v)).0 ≡ pos 0
  pub keeps :
      (log : List GlueCall) (v on : ℕ)
      → ((g.answer (write_var toe on ∷ write_var toe_ol v ∷ log) (read_var toe_ol)).1).0 ≡ v

low_bit : (v : ℕ) → bit_and v 1 ≡ v % 2
low_bit v = omega (arith, bit_and_step v 1, bit_and-zero (v / 2))

pub next_bit : (v : ℕ) → bit_and v 2 ≡ v / 2 % 2 * 2
next_bit v = omega (arith, bit_and_step v 2, low_bit (v / 2))

set_low : (v : ℕ) → bit_or v 1 ≡ v / 2 * 2 + 1
set_low v = omega (arith, bit_or_step v 1, bit_or-zero (v / 2))

set_next : (v : ℕ) → bit_or v 2 ≡ v / 4 * 4 + 2 + v % 2
set_next v = omega (arith, bit_or_step v 2, set_low (v / 2))

clear_low : (v : ℕ) → v < 2 ^ 32 → clear_bits v 1 ≡ v / 2 * 2
clear_low v h = omega (arith, bit_and_step v (2 ^ 32 - 1 - 1), bit_and_low 31 (v / 2))

clear_next : (v : ℕ) → v < 2 ^ 32 → clear_bits v 2 ≡ v / 4 * 4 + v % 2
clear_next v h =
    let one : bit_and v (2 ^ 32 - 1 - 2) ≡ bit_and (v / 2) 2147483646 * 2 + min (v % 2) 1 =
      bit_and_step v (2 ^ 32 - 1 - 2) in
    let two : bit_and (v / 2) 2147483646 ≡ bit_and (v / 2 / 2) 1073741823 * 2 + min (v / 2 % 2) 0 =
      bit_and_step (v / 2) 2147483646 in
    let low : bit_and (v / 2 / 2) 1073741823 ≡ v / 2 / 2 % 1073741824 =
      bit_and_low 30 (v / 2 / 2) in
    omega (arith, one, two, low)

-- The components behind a switch of the received or the transmitted packets.
abbrev switched : Bool → Bool → ℕ → ℕ
switched tx off v =
    if off
    then clear_bits v (if tx then toe_tx_csum_ol else toe_rx_csum_ol)
    else bit_or v (if tx then toe_tx_csum_ol else toe_rx_csum_ol)

abbrev dir : Bool → ℕ
dir tx = if tx then toe_tx_csum_ol else toe_rx_csum_ol

switched_bit : (tx off : Bool) (v : ℕ) → v < 2 ^ 32 → has (switched tx off v) (dir tx) ≡ not off
switched_bit true true v h = ground (arith, clear_low v h, low_bit (v / 2 * 2))
switched_bit true false v h = ground (arith, set_low v, low_bit (v / 2 * 2 + 1))
switched_bit false true v h = ground (arith, clear_next v h, next_bit (v / 4 * 4 + v % 2))
switched_bit false false v h = ground (arith, set_next v, next_bit (v / 4 * 4 + 2 + v % 2))

other_bit :
    (tx off : Bool) (v : ℕ)
    → v < 2 ^ 32
    → has (switched tx off v) (dir (not tx)) ≡ has v (dir (not tx))
other_bit true true v h = ground (arith, clear_low v h, next_bit (v / 2 * 2), next_bit v)
other_bit true false v h = ground (arith, set_low v, next_bit (v / 2 * 2 + 1), next_bit v)
other_bit false true v h = ground (arith, clear_next v h, low_bit (v / 4 * 4 + v % 2), low_bit v)
other_bit false false v h = ground (arith, set_next v, low_bit (v / 4 * 4 + 2 + v % 2), low_bit v)

-- What set_csum leaves.
after_switch : (g : Glue) → Bool → ℕ → ℕ → GlueState → GlueState
after_switch g tx word v s =
    let calls =
      write_var toe (if switched tx (word == 0) v == 0 then 0 else 1)
      ∷ write_var toe_ol (switched tx (word == 0) v)
      ∷ read_var toe_ol
      ∷ s.calls in
    if tx then record s { calls = calls; ip_csum = not (word == 0) } else record s { calls = calls }

set_csum_lem :
    (g : Glue) (tx : Bool) (word : ℕ) (s : GlueState)
    → KeepsToe g
    → set_csum g tx word s
      ≡ (pos 0, after_switch g tx word (((g.answer s.calls (read_var toe_ol)).1).0) s)
unfolding set_csum wl_toe_get wl_toe_set glue_call after_switch
set_csum_lem g true word s k =
    let v = ((g.answer s.calls (read_var toe_ol)).1).0 in
    let new = switched true (word == 0) v in
    rw
      (
        k.reads s.calls,
        k.takes (read_var toe_ol ∷ s.calls) toe_ol new,
        k.takes (write_var toe_ol new ∷ read_var toe_ol ∷ s.calls) toe (if new == 0 then 0 else 1),
      )
      refl
set_csum_lem g false word s k =
    let v = ((g.answer s.calls (read_var toe_ol)).1).0 in
    let new = switched false (word == 0) v in
    rw
      (
        k.reads s.calls,
        k.takes (read_var toe_ol ∷ s.calls) toe_ol new,
        k.takes (write_var toe_ol new ∷ read_var toe_ol ∷ s.calls) toe (if new == 0 then 0 else 1),
      )
      refl

read_back :
    (g : Glue) (tx : Bool) (log : List GlueCall) (v on : ℕ) (t : GlueState)
    → KeepsToe g
    → t.calls ≡ write_var toe on ∷ write_var toe_ol v ∷ log
    → (get_csum g tx t).0 ≡ (pos 0, some (if has v (dir tx) then 1 else 0))
unfolding get_csum wl_toe_get glue_call
read_back g tx log v on t k e =
    rw (e, k.reads (write_var toe on ∷ write_var toe_ol v ∷ log), k.keeps log v on) refl

first_read :
    (g : Glue) (tx : Bool) (s : GlueState)
    → KeepsToe g
    → (get_csum g tx s).0
      ≡ (pos 0, some (if has (((g.answer s.calls (read_var toe_ol)).1).0) (dir tx) then 1 else 0))
unfolding get_csum wl_toe_get glue_call
first_read g tx s k = rw (k.reads s.calls) refl

after_switch-calls :
    (g : Glue) (tx : Bool) (word v : ℕ) (s : GlueState)
    → (after_switch g tx word v s).calls
      ≡ write_var toe (if switched tx (word == 0) v == 0 then 0 else 1)
        ∷ write_var toe_ol (switched tx (word == 0) v)
        ∷ read_var toe_ol
        ∷ s.calls
unfolding after_switch
after_switch-calls g true word v s = refl
after_switch-calls g false word v s = refl

after_switch-features :
    (g : Glue) (tx : Bool) (word v : ℕ) (s : GlueState)
    → (after_switch g tx word v s).ip_csum ≡ (if tx then not (word == 0) else s.ip_csum)
unfolding after_switch
after_switch-features g true word v s = refl
after_switch-features g false word v s = refl

abbrev flag : Bool → ℕ
flag b = if b then 1 else 0

chosen : (b : Bool) → flag (not b) ≡ (if b then 0 else 1)
chosen true = refl
chosen false = refl

-- On a binary part that keeps the offload, whose components are a word of 32 bits, a command of
-- ethtool that switches the offload of received or of transmitted packets succeeds; then this offload
-- is read as on just where the command's word is not 0, the other is read as it was, and the
-- feature of the device follows for transmitted packets and is left alone for received ones.
pub get_csum-set_csum :
    (g : Glue) (tx : Bool) (word : ℕ) (s : GlueState)
    → KeepsToe g
    → ((g.answer s.calls (read_var toe_ol)).1).0 < 2 ^ 32
    → let r = set_csum g tx word s in
      (r.0 ≡ pos 0)
      × ((get_csum g tx (r.1)).0 ≡ (pos 0, some (if word == 0 then 0 else 1)))
      × ((get_csum g (not tx) (r.1)).0 ≡ (get_csum g (not tx) s).0)
      × ((r.1).ip_csum ≡ (if tx then not (word == 0) else s.ip_csum))
get_csum-set_csum g tx word s k h =
    let v = ((g.answer s.calls (read_var toe_ol)).1).0 in
    let r = set_csum_lem g tx word s k in
    let t = after_switch g tx word v s in
    let calls = after_switch-calls g tx word v s in
    (
      ap (λ x. x.0) r,
      ap (λ x. (get_csum g tx (x.1)).0) r
          ∙ read_back g tx _ _ _ t k calls
          ∙ ap (λ b. (pos 0, some (flag b))) (switched_bit tx (word == 0) v h)
          ∙ ap (λ n. (pos 0, some n)) (chosen (word == 0)),
      ap (λ x. (get_csum g (not tx) (x.1)).0) r
          ∙ read_back g (not tx) _ _ _ t k calls
          ∙ ap (λ b. (pos 0, some (flag b))) (other_bit tx (word == 0) v h)
          ∙ sym (first_read g (not tx) s k),
      ap (λ x. (x.1).ip_csum) r ∙ after_switch-features g tx word v s,
    )
