-- ===== src/Linux/Txq/Order.antt =====
-- The transmit queue over all interleavings of wl_start and its work function
-- (src/wl/sys/wl_linux.c): its count, its order, and that it is not left alone.
use broadcom_bcm4312_fix.Prelude.{
  Bool, Bool-cases, List, [], ap, append-nil, append_assoc, arith, false, if◌then◌else◌, inl, inr,
  length, length-append, refl, sym, true, ℕ, ◌++◌, ◌+◌, ◌||◌, ◌∙◌, ◌∷◌, ◌≡◌, ◌⊎◌,
}
use broadcom_bcm4312_fix.Linux.Txq.{
  Packet, Tx, TxReach, TxStep, dispatch, is_full, start_packet, tx_new, tx_step, txqwork_end,
  txqwork_round, wl_start, wl_start_int, work_begin, work_end, work_packet,
}

-- The count is that of the queue, there is one callback just for a dispatched work function, which
-- includes a running one, and a queue without one is empty or stands since schedule_work failed.
abbrev pub IsSound : Tx → Type 0
IsSound s =
    (s.txq_cnt ≡ length s.queue)
    × (s.callbacks ≡ (if s.txq_dispatched then 1 else 0))
    × ((s.working ≡ false) ⊎ (s.txq_dispatched ≡ true))
    × ((s.queue ≡ []) ⊎ (s.txq_dispatched || s.unscheduled ≡ true))

calls_when : (n : ℕ) (d b : Bool) → n ≡ (if d then 1 else 0) → d ≡ b → n ≡ (if b then 1 else 0)
calls_when n d b h e = h ∙ ap (λ (k : Bool). if k then 1 else 0) e

dispatch-IsSound :
    (scheduled : Bool) (s : Tx)
    → s.txq_cnt ≡ length s.queue
    → s.callbacks ≡ (if s.txq_dispatched then 1 else 0)
    → (s.working ≡ false) ⊎ (s.txq_dispatched ≡ true)
    → IsSound (dispatch scheduled s)
unfolding dispatch
dispatch-IsSound true s count calls busy = elim (Bool-cases s.txq_dispatched) [
  | inl on ↦
      rw on (count, calls_when s.callbacks s.txq_dispatched true calls on, inr refl, inr refl)
  | inr off ↦ rw off (
    count,
    omega (arith, calls_when s.callbacks s.txq_dispatched false calls off),
    inr refl,
    inr refl,
  )
]
dispatch-IsSound false s count calls busy = elim (Bool-cases s.txq_dispatched) [
  | inl on ↦
      rw on (count, calls_when s.callbacks s.txq_dispatched true calls on, inr refl, inr refl)
  | inr off ↦ rw off (
    count,
    calls_when s.callbacks s.txq_dispatched false calls off,
    inl (elim busy [ inl idle ↦ idle | inr on ↦ absurd (cc) ]),
    inr refl,
  )
]

-- A running work function is a dispatched one.
dispatched :
    (s : Tx)
    → s.working ≡ true
    → (s.working ≡ false) ⊎ (s.txq_dispatched ≡ true)
    → s.txq_dispatched ≡ true
dispatched s on (inl off) = absurd (cc)
dispatched s on (inr busy) = busy

start-IsSound :
    (thresh : ℕ) (scheduled : Bool) (skb : Packet) (s : Tx)
    → IsSound s
    → IsSound (wl_start true thresh scheduled skb s)
unfolding wl_start
start-IsSound thresh scheduled skb s (count, calls, busy, kept) =
    elim (Bool-cases (is_full thresh s)) [
      | inl full ↦ rw full (count, calls, busy, kept)
      | inr room ↦ rw room (
          dispatch-IsSound scheduled
            (record s { queue = s.queue ++ skb ∷ []; txq_cnt = s.txq_cnt + 1 })
            (omega (arith, count, length-append s.queue (skb ∷ []))) calls busy)
    ]

TxStep-IsSound : {thresh : ℕ} {s t : Tx} → TxStep thresh s t → IsSound s → IsSound t
unfolding txqwork_round txqwork_end wl_start_int
TxStep-IsSound (start_packet s scheduled skb) h = start-IsSound _ scheduled skb s h
TxStep-IsSound (work_begin s on off) (count, calls, busy, kept) = (count, calls, inr on, kept)
TxStep-IsSound (work_packet s skb rest on e) (count, calls, busy, kept) = (
  ground (arith, ap (length {A = Packet}) e),
  calls,
  busy,
  inr (ap (λ d. d || s.unscheduled) (dispatched s on busy)),
)
TxStep-IsSound (work_end s on e) (count, calls, busy, kept) = (
  count,
  omega (arith, calls_when s.callbacks s.txq_dispatched true calls (dispatched s on busy)),
  inl refl,
  inl e,
)

TxReach-IsSound : {thresh : ℕ} {s : Tx} → TxReach thresh s → IsSound s
TxReach-IsSound tx_new = (refl, refl, inl refl, inl refl)
TxReach-IsSound (tx_step r st) = TxStep-IsSound st (TxReach-IsSound r)

-- The packets that wl_start took into the queue, in the order of its calls.
abbrev pub step_takes : {thresh : ℕ} {s t : Tx} → TxStep thresh s t → List Packet
step_takes {thresh} (start_packet s scheduled skb) = if is_full thresh s then [] else skb ∷ []
step_takes (work_begin s on off) = []
step_takes (work_packet s skb rest on e) = []
step_takes (work_end s on e) = []

abbrev pub taken : {thresh : ℕ} {s : Tx} → TxReach thresh s → List Packet
taken tx_new = []
taken (tx_step r st) = taken r ++ step_takes st

abbrev pub in_line : Tx → List Packet
in_line s = s.sent ++ s.queue

in_line-dispatch : (scheduled : Bool) (s : Tx) → in_line (dispatch scheduled s) ≡ in_line s
unfolding dispatch
in_line-dispatch true s = elim (Bool-cases s.txq_dispatched) [
  | inl on ↦ rw on refl
  | inr off ↦ rw off refl
]
in_line-dispatch false s = elim (Bool-cases s.txq_dispatched) [
  | inl on ↦ rw on refl
  | inr off ↦ rw off refl
]

in_line-start :
    (thresh : ℕ) (scheduled : Bool) (skb : Packet) (s : Tx)
    → in_line (wl_start true thresh scheduled skb s)
      ≡ in_line s ++ (if is_full thresh s then [] else skb ∷ [])
unfolding wl_start
in_line-start thresh scheduled skb s = elim (Bool-cases (is_full thresh s)) [
  | inl full ↦ rw full (sym (append-nil (in_line s)))
  | inr room ↦ rw room (
      in_line-dispatch scheduled (record s { queue = s.queue ++ skb ∷ []; txq_cnt = s.txq_cnt + 1 })
      ∙ sym (append_assoc s.sent s.queue (skb ∷ [])))
]

in_line-step :
    {thresh : ℕ} {s t : Tx} (st : TxStep thresh s t) → in_line t ≡ in_line s ++ step_takes st
unfolding txqwork_round txqwork_end wl_start_int
in_line-step (start_packet s scheduled skb) = in_line-start _ scheduled skb s
in_line-step (work_begin s on off) = sym (append-nil (in_line s))
in_line-step (work_packet s skb rest on e) =
    append_assoc s.sent (skb ∷ []) rest
    ∙ ap (λ q. s.sent ++ q) (sym e)
    ∙ sym (append-nil (in_line s))
in_line-step (work_end s on e) = sym (append-nil (in_line s))

in_line-taken : {thresh : ℕ} {s : Tx} (r : TxReach thresh s) → in_line s ≡ taken r
in_line-taken tx_new = refl
in_line-taken (tx_step r st) = in_line-step st ∙ ap (λ q. q ++ step_takes st) (in_line-taken r)

-- However wl_start and its work function are interleaved, also where schedule_work fails, txq_cnt is
-- the length of the queue, one callback is counted just while the work function is dispatched,
-- a queue without it is empty or stands since schedule_work failed, and the packets that were
-- taken are sent or still queued, exactly once, in their order.
pub TxReach-in_order :
    {thresh : ℕ} {s : Tx} (r : TxReach thresh s) → IsSound s × (s.sent ++ s.queue ≡ taken r)
TxReach-in_order r = (TxReach-IsSound r, in_line-taken r)
