-- ===== src/Packet/Invariant.antt =====
-- The invariant of the transmit path, on the whole state: the books of Packet.Ledger are right, and
-- packets wait only while one is in flight.
use blazenet_device_fw.Prelude.{ℕ, ◌≡◌, refl, none, some, if◌then◌else◌, arith}
use blazenet_device_fw.Packet.Buffers.{TxPacketBuffer, find}
use blazenet_device_fw.Packet.Ledger.{IsAccounted, IsAccounted-modify}
use blazenet_device_fw.Packet.Tx.{
  update_tx_queue_state, clear_sticky, reject_tx, reject_alloc, fail_alloc,
}
use blazenet_device_fw.Packet.Store.{queued, waiting, total, find-modify_self}
use blazenet_device_fw.System.{System, boot}

abbrev pub Books : System → Type 0
Books s = IsAccounted s.store s.tx.alloc_bytes s.tx.packets_pending s.tx.queues s.radio.last_tx

pub record TxInv (s : System) : Type 0 where
  pub books : Books s
  pub busy : s.radio.last_tx ≡ none → s.tx.packets_pending ≡ 0

pub boot-TxInv : TxInv boot
unfolding queued waiting total find
boot-TxInv = ground arith

-- The parts of the state that the invariant reads.
pub record SameTx (s t : System) : Type 0 where
  pub same_store : t.store ≡ s.store
  pub same_bytes : t.tx.alloc_bytes ≡ s.tx.alloc_bytes
  pub same_pending : t.tx.packets_pending ≡ s.tx.packets_pending
  pub same_queues : t.tx.queues ≡ s.tx.queues
  pub same_flight : t.radio.last_tx ≡ s.radio.last_tx

pub SameTx-Books : {s t : System} → SameTx s t → Books s → Books t
SameTx-Books e v = rw (e.same_store, e.same_bytes, e.same_pending, e.same_queues, e.same_flight) v

pub SameTx-TxInv : {s t : System} → SameTx s t → TxInv s → TxInv t
SameTx-TxInv e v = record {
  books = SameTx-Books e v.books;
  busy = λ h. ground (arith, e.same_flight, e.same_pending, v.busy);
}

pub update_tx_queue_state-SameTx : (s : System) → SameTx s (update_tx_queue_state s)
unfolding update_tx_queue_state
update_tx_queue_state-SameTx s = ground arith

pub trace-update_tx_queue_state : (s : System) → (update_tx_queue_state s).trace ≡ s.trace
unfolding update_tx_queue_state
trace-update_tx_queue_state s = ground arith

pub update_tx_queue_state-TxInv : {s : System} → TxInv s → TxInv (update_tx_queue_state s)
update_tx_queue_state-TxInv {s} v = SameTx-TxInv (update_tx_queue_state-SameTx s) v

pub reject_tx-SameTx : (s : System) → SameTx s (reject_tx s)
unfolding reject_tx update_tx_queue_state
reject_tx-SameTx s = ground arith

pub reject_alloc-SameTx : (s : System) → SameTx s (reject_alloc s)
unfolding reject_alloc update_tx_queue_state
reject_alloc-SameTx s = ground arith

pub fail_alloc-SameTx : (s : System) → SameTx s (fail_alloc s)
unfolding fail_alloc update_tx_queue_state
fail_alloc-SameTx s = ground arith

-- The buffer after QueueTxPacketFinal has cleared a sticky packet's retry count.
abbrev pub cleared : TxPacketBuffer → TxPacketBuffer
cleared b = if b.is_sticky then record b { csma_fail_count = 0 } else b

pub clear_sticky-Books :
    (p : ℕ) (b : TxPacketBuffer) (s : System)
    → Books s
    → find p s.store ≡ some b
    → Books (clear_sticky p b s) × (find p (clear_sticky p b s).store ≡ some (cleared b))
unfolding clear_sticky
clear_sticky-Books p b s v e =
    let c : TxPacketBuffer = record b { csma_fail_count = 0 } in
    ground (arith, IsAccounted-modify p b c v e refl refl refl, find-modify_self p b c s.store e)
