-- ===== src/Packet/Tx/Sticky.antt =====
-- QueueTxPacket of a packet that is already allocated (Sources/Packet/Handler.cpp), as the beacon
-- submits its sticky packet.
use blazenet_device_fw.Prelude.{
  ℕ, ◌≡◌, ◌⊎◌, inl, inr, true, some, length, Bool-cases, ◌==◌, ==_iff, ℤ, pos, negsuc, ok,
}
use blazenet_device_fw.Packet.Buffers.{TxPacketPriority, TxPacketBuffer, find, max_tx_queue_size}
use blazenet_device_fw.Packet.Invariant.{TxInv, SameTx, SameTx-TxInv, reject_tx-SameTx}
use blazenet_device_fw.Packet.Tx.{tx_full, reject_tx, queue_sticky_packet}
use blazenet_device_fw.Packet.Tx.Final.{Waits, Flies, Fails, final_busy, final_idle}
use blazenet_device_fw.System.{System, Env, queue_of}

-- What QueueTxPacket reports of a sticky packet, and the state that it leaves.
abbrev pub Submits : TxPacketPriority → ℕ → TxPacketBuffer → System → ℤ × System → Type 0
Submits priority p b s (pos n, t) = TxInv t × (Flies p b.payload s t ⊎ Waits priority p s t)
Submits priority p b s (negsuc n, t) =
    (TxInv t × SameTx s t) ⊎ ((s.tx.packets_pending ≡ 0) × Fails p b s t)

-- QueueTxPacket of a live sticky packet always returns from a state with right books. If it
-- reports success, the packet is on air or at the end of its queue, and the books are right. If it
-- reports an error, either its queue was full, and the buffers, the queues, the counts of
-- bytes and of pending packets and the packet in flight are as before, or nothing was pending and
-- the radio refused it: then one packet counts as pending although none is queued or in flight.
pub queue_sticky_packet-Submits :
    (env : Env) (priority : TxPacketPriority) (p : ℕ) (b : TxPacketBuffer) (s : System)
    → TxInv s
    → find p s.store ≡ some b
    → b.is_sticky ≡ true
    → (r : ℤ × System) × (queue_sticky_packet env priority p s ≡ ok r) × Submits priority p b s r
unfolding queue_sticky_packet tx_full
queue_sticky_packet-Submits env priority p b s v found sticky =
    elim (Bool-cases (length (queue_of priority s.tx.queues) == max_tx_queue_size)) [
      | inl full ↦
          (let same = reject_tx-SameTx s in
            ((negsuc 0, reject_tx s), rw full, inl (SameTx-TxInv same v, same)))
      | inr room ↦ elim (Bool-cases (s.tx.packets_pending == 0)) [
        | inr busy ↦
            (let (t, run, inv, waits) =
                final_busy env priority p b s v found (inl sticky) room busy in
              ((pos 0, t), rw room run, (inv, inr waits)))
        | inl idle ↦
            (let alone = (==_iff s.tx.packets_pending 0).0 idle in
              elim (final_idle env priority p b s v found alone) [
                | inl (t, run, inv, flies) ↦ ((pos 0, t), rw room run, (inv, inl flies))
                | inr (n, t, run, fails) ↦ ((negsuc n, t), rw room run, inr (alone, fails))
              ])
      ]
    ]
