-- ===== src/Linux/Txq.antt =====
-- The queue of packets to transmit: wl_start, wl_start_txqwork, wl_tx_tasklet and wl_txq_free
-- (src/wl/sys/wl_linux.c). WL_CONFIG_SMP() is FALSE, so the queue is used where all work is passive.
pub mod Order
use broadcom_bcm4312_fix.Prelude.{
  Bool, List, [], false, if◌then◌else◌, leb, length, ltb, true, ℕ, ◌&&◌, ◌++◌, ◌+◌, ◌-◌, ◌∷◌, ◌≡◌,
}

-- An sk_buff, by a number.
abbrev pub Packet : Type 0
Packet = ℕ

-- The queue's fields of struct wl_info, what was handed to wlc_sendpkt and what was freed, oldest
-- first, whether the work function runs, and whether the last schedule_work failed.
pub record Tx : Type 0 where
  pub queue : List Packet
  pub txq_cnt : ℕ
  pub txq_dispatched : Bool
  pub callbacks : ℕ
  pub working : Bool
  pub unscheduled : Bool
  pub sent : List Packet
  pub freed : List Packet

-- wl_start_int, of which the binary part of the driver gets the packet.
unfoldable pub wl_start_int : Packet → Tx → Tx
wl_start_int skb s = record s { sent = s.sent ++ skb ∷ [] }

-- `(wl_txq_thresh > 0) && (wl->txq_cnt >= wl_txq_thresh)`
unfoldable pub is_full : ℕ → Tx → Bool
is_full thresh s = ltb 0 thresh && leb thresh s.txq_cnt

-- What follows the append: a work function that is neither scheduled nor running is scheduled.
unfoldable pub dispatch : Bool → Tx → Tx
dispatch scheduled s =
    if s.txq_dispatched
    then s
    else if scheduled
    then record s { callbacks = s.callbacks + 1; txq_dispatched = true; unscheduled = false }
    else record s { unscheduled = true }

-- `scheduled` is whether schedule_work takes the work.
unfoldable pub wl_start : Bool → ℕ → Bool → Packet → Tx → Tx
wl_start passive thresh scheduled skb s =
    if passive
    then (if is_full thresh s
        then record s { freed = s.freed ++ skb ∷ [] }
        else dispatch scheduled (record s { queue = s.queue ++ skb ∷ []; txq_cnt = s.txq_cnt + 1 }))
    else wl_start_int skb s

-- One round of wl_start_txqwork's loop, which holds the lock up to wl_start_int.
unfoldable pub txqwork_round : Packet → List Packet → Tx → Tx
txqwork_round skb rest s = wl_start_int skb (record s { queue = rest; txq_cnt = s.txq_cnt - 1 })

-- What follows the loop.
unfoldable pub txqwork_end : Tx → Tx
txqwork_end s = record s { txq_dispatched = false; callbacks = s.callbacks - 1; working = false }

-- `while (wl->txq_head)`: the packets are freed.
unfoldable pub wl_txq_free : Tx → Tx
wl_txq_free s = record s {
  queue = [];
  txq_cnt = s.txq_cnt - length s.queue;
  freed = s.freed ++ s.queue;
}

-- The kernel's calls of wl_start and the work function, interleaved, where all work is passive.
pub data TxStep (thresh : ℕ) : Tx → Tx → Type 0 where
  start_packet :
      (s : Tx) (scheduled : Bool) (skb : Packet)
      → TxStep thresh s (wl_start true thresh scheduled skb s)
  work_begin :
      (s : Tx)
      → s.txq_dispatched ≡ true
      → s.working ≡ false
      → TxStep thresh s (record s { working = true })
  work_packet :
      (s : Tx) (skb : Packet) (rest : List Packet)
      → s.working ≡ true
      → s.queue ≡ skb ∷ rest
      → TxStep thresh s (txqwork_round skb rest s)
  work_end : (s : Tx) → s.working ≡ true → s.queue ≡ [] → TxStep thresh s (txqwork_end s)

abbrev pub empty_tx : Tx
empty_tx = record {
  queue = [];
  txq_cnt = 0;
  txq_dispatched = false;
  callbacks = 0;
  working = false;
  unscheduled = false;
  sent = [];
  freed = [];
}

pub data TxReach (thresh : ℕ) : Tx → Type 0 where
  tx_new : TxReach thresh empty_tx
  tx_step : {s t : Tx} → TxReach thresh s → TxStep thresh s t → TxReach thresh t
