-- ===== src/Packet/Tx/Discard.antt =====
-- DiscardTxPacket of Sources/Packet/Handler.cpp.
use blazenet_device_fw.Prelude.{ℕ, ◌+◌, ◌≡◌, Bool, true, false, not, ◌||◌, some, sub32, ok, arith}
use blazenet_device_fw.Packet.Buffers.{TxPacketBuffer, Store, find, release, tx_header_size}
use blazenet_device_fw.Packet.Tx.{
  update_tx_queue_state, free_tx_buffer, uncount_pending, discard_tx_packet,
}
use blazenet_device_fw.System.{System}

-- One packet less is pending, and the store and its bytes are as given; all else that the transmit
-- path reads is as it was.
pub record Discarded (st : Store) (bytes : ℕ) (s t : System) : Type 0 where
  pub store_after : t.store ≡ st
  pub bytes_after : t.tx.alloc_bytes ≡ bytes
  pub pending_after : t.tx.packets_pending ≡ sub32 s.tx.packets_pending 1
  pub queues_after : t.tx.queues ≡ s.tx.queues
  pub radio_after : t.radio ≡ s.radio
  pub trace_after : t.trace ≡ s.trace
  pub critical_after : t.critical ≡ s.critical

-- The packet is released if it is not sticky, or by force.
pub discard_released :
    (p : ℕ) (b : TxPacketBuffer) (force : Bool) (s : System)
    → find p s.store ≡ some b
    → (not b.is_sticky || force) ≡ true
    → (t : System) × (discard_tx_packet p force s ≡ ok t)
      × Discarded (release p s.store) (sub32 s.tx.alloc_bytes (tx_header_size + b.packet_size)) s t
unfolding discard_tx_packet free_tx_buffer uncount_pending update_tx_queue_state
discard_released p b force s e h =
    (update_tx_queue_state (uncount_pending (free_tx_buffer p b force s)), rw e, ground arith)

-- Otherwise it is kept.
pub discard_kept :
    (p : ℕ) (b : TxPacketBuffer) (force : Bool) (s : System)
    → find p s.store ≡ some b
    → (not b.is_sticky || force) ≡ false
    → (t : System) × (discard_tx_packet p force s ≡ ok t) × Discarded s.store s.tx.alloc_bytes s t
unfolding discard_tx_packet free_tx_buffer uncount_pending update_tx_queue_state
discard_kept p b force s e h =
    (update_tx_queue_state (uncount_pending (free_tx_buffer p b force s)), rw e, ground arith)
