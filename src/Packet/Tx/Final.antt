-- ===== src/Packet/Tx/Final.antt =====
-- QueueTxPacketFinal of Sources/Packet/Handler.cpp: a packet goes out at once or joins its queue.
use blazenet_device_fw.Prelude.{
  ℕ, ◌+◌, ◌≡◌, ◌⊎◌, inl, inr, true, false, some, List, ◌∷◌, length, ◌==◌, ==_iff, u32, pos, negsuc,
  ok, arith,
}
use blazenet_device_fw.Packet.Buffers.{TxPacketPriority, TxPacketBuffer, find, max_tx_queue_size}
use blazenet_device_fw.Packet.Invariant.{
  Books, TxInv, SameTx-TxInv, update_tx_queue_state-SameTx, trace-update_tx_queue_state, cleared,
  clear_sticky-Books,
}
use blazenet_device_fw.Packet.Ledger.{IsAccounted-append, IsAccounted-start, held, pending_small}
use blazenet_device_fw.Packet.Store.{appended}
use blazenet_device_fw.Packet.Tx.{
  update_tx_queue_state, emplace, count_pending, clear_sticky, queue_tx_packet_final,
}
use blazenet_device_fw.Radio.Transmit.Attempt.{Sent, tx_packet_immediate-Attempt}
use blazenet_device_fw.System.{System, Env, write_tx_fifo, start_cca_csma_tx, queue_of}

-- The packet joined the end of its queue, behind the packet in flight.
pub record Waits (priority : TxPacketPriority) (p : ℕ) (s t : System) : Type 0 where
  pub joined : t.tx.queues ≡ appended priority p s.tx.queues
  pub quiet : t.trace ≡ s.trace
  pub behind : t.radio.last_tx ≡ s.radio.last_tx

-- Nothing was pending, and the packet went out at once.
pub record Flies (p : ℕ) (payload : List ℕ) (s t : System) : Type 0 where
  pub alone : s.tx.packets_pending ≡ 0
  pub flies : t.radio.last_tx ≡ some p
  pub on_air : t.trace ≡ start_cca_csma_tx s.radio.tx_channel ∷ write_tx_fifo payload ∷ s.trace

abbrev pub IsRoomy : TxPacketPriority → System → Type 0
IsRoomy priority s = (length (queue_of priority s.tx.queues) == max_tx_queue_size) ≡ false

-- The count of pending packets does not wrap.
pub wrap : {s : System} → TxInv s → u32 (s.tx.packets_pending + 1) ≡ s.tx.packets_pending + 1
wrap v = omega (arith, pending_small v.books)

pub final_busy :
    (env : Env) (priority : TxPacketPriority) (p : ℕ) (b : TxPacketBuffer) (s : System)
    → TxInv s
    → find p s.store ≡ some b
    → (b.is_sticky ≡ true) ⊎ (held p s.tx.queues s.radio.last_tx ≡ 0)
    → IsRoomy priority s
    → (s.tx.packets_pending == 0) ≡ false
    → (t : System) × (queue_tx_packet_final env priority p s ≡ ok (pos 0, t))
      × TxInv t
      × Waits priority p s t
unfolding queue_tx_packet_final emplace count_pending clear_sticky
final_busy env priority p b s v e own room busy =
    let u = update_tx_queue_state (emplace priority p (count_pending (clear_sticky p b s))) in
    let same =
      update_tx_queue_state-SameTx (emplace priority p (count_pending (clear_sticky p b s))) in
    let (books, found) = clear_sticky-Books p b s v.books e in
    let own' : ((cleared b).is_sticky ≡ true) ⊎ (held p s.tx.queues s.radio.last_tx ≡ 0) =
      ground arith in
    let more = IsAccounted-append priority p (cleared b) books found own' room in
    (
      u,
      rw (e, busy),
      SameTx-TxInv same
          (record { books = rw (wrap v) more; busy = λ h. absurd (ground (arith, v.busy h)) }),
      record {
        joined = same.same_queues;
        quiet =
            trace-update_tx_queue_state (emplace priority p (count_pending (clear_sticky p b s)));
        behind = same.same_flight;
      },
    )

-- Nothing was pending and the radio refused the packet: it is counted as pending all the same.
pub record Fails (p : ℕ) (b : TxPacketBuffer) (s t : System) : Type 0 where
  pub store_after : t.store ≡ (clear_sticky p b s).store
  pub bytes_after : t.tx.alloc_bytes ≡ s.tx.alloc_bytes
  pub pending_after : t.tx.packets_pending ≡ 1
  pub queues_after : t.tx.queues ≡ s.tx.queues
  pub flight_after : t.radio.last_tx ≡ s.radio.last_tx

Sent-TxInv :
    (env : Env) (p : ℕ) (b : TxPacketBuffer) (s t : System)
    → Books s
    → s.tx.packets_pending ≡ 0
    → find p s.store ≡ some b
    → Sent env p b (count_pending s) t
    → TxInv t
unfolding count_pending
Sent-TxInv env p b s t v zero_pending e sent = record {
  books =
      rw (sent.same.same_store, sent.same.same_tx, sent.in_flight, zero_pending)
        (IsAccounted-start p b (rw zero_pending at v) e);
  busy = λ h. cc (sent.in_flight);
}

pub final_idle :
    (env : Env) (priority : TxPacketPriority) (p : ℕ) (b : TxPacketBuffer) (s : System)
    → TxInv s
    → find p s.store ≡ some b
    → s.tx.packets_pending ≡ 0
    → ((t : System) × (queue_tx_packet_final env priority p s ≡ ok (pos 0, t))
        × TxInv t
        × Flies p b.payload s t)
      ⊎ ((n : ℕ) × (t : System) × (queue_tx_packet_final env priority p s ≡ ok (negsuc n, t))
          × Fails p b s t)
unfolding queue_tx_packet_final count_pending clear_sticky
final_idle env priority p b s v e zero_pending =
    let s1 = clear_sticky p b s in
    let (books, found) = clear_sticky-Books p b s v.books e in
    let none_pending = (==_iff s.tx.packets_pending 0).1 zero_pending in
    elim (tx_packet_immediate-Attempt env p (cleared b) (count_pending s1) found) [
      | inl (t, run, sent) ↦
          let same = update_tx_queue_state-SameTx t in
          let trace = trace-update_tx_queue_state t in
          inl (
            update_tx_queue_state t,
            rw (e, none_pending, run),
            SameTx-TxInv same (Sent-TxInv env p (cleared b) s1 t books zero_pending found sent),
            ground arith,
          )
      | inr (n, t, run, refused) ↦
          let same = update_tx_queue_state-SameTx t in
          inr (n, update_tx_queue_state t, rw (e, none_pending, run), ground arith)
    ]
