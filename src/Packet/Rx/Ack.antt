-- ===== src/Packet/Rx/Ack.antt =====
-- Task::QueueAck of Sources/Radio/Task.cpp: the automatic acknowledgement of a received packet.
use blazenet_device_fw.Prelude.{
  ℕ, ◌≤◌, ◌≡◌, ◌⊎◌, inl, inr, true, false, Option, none, some, List, length, leb, ok, panic, arith,
}
use blazenet_device_fw.Packet.Buffers.{network_control}
use blazenet_device_fw.Packet.Invariant.{TxInv, SameTx}
use blazenet_device_fw.Packet.Rx.{mac_header_size, ack_packet, require_none, queue_ack}
use blazenet_device_fw.Packet.Tx.{queue_tx_packet}
use blazenet_device_fw.Packet.Tx.Final.{Waits, Flies}
use blazenet_device_fw.Packet.Tx.Queue.{IsFresh, Queues, queue_tx_packet-Queues}
use blazenet_device_fw.System.{System, Env}

ack_size : (packet : List ℕ) → length (ack_packet packet) ≤ 65535
unfolding ack_packet
ack_size packet = omega arith

ack_cases :
    (env : Env) (packet : List ℕ) (s : System) (r : Option ℕ × System)
    → leb mac_header_size (length packet) ≡ true
    → queue_tx_packet env network_control (ack_packet packet) false s ≡ ok r
    → Queues network_control (ack_packet packet) s r
    → ((t : System) × (queue_ack env packet s ≡ ok t) × SameTx s t)
      ⊎ ((p : ℕ) × (t : System) × (queue_ack env packet s ≡ panic)
          × (queue_tx_packet env network_control (ack_packet packet) false s ≡ ok (some p, t))
          × (Flies p (ack_packet packet) s t ⊎ Waits network_control p s t))
unfolding queue_ack require_none
ack_cases env packet s (none, t) whole run (inv, same) = inl (t, rw (whole, run), same)
ack_cases env packet s (some p, t) whole run (inv, goes) = inr (p, t, rw (whole, run), run, goes)

-- QueueAck of a packet with a whole header returns only if the acknowledgement was not queued: the
-- store, the queues and the packet in flight are then as they were. If the acknowledgement is
-- queued or sent, QueueAck panics.
pub queue_ack-cases :
    (env : Env) (packet : List ℕ) (s : System)
    → IsFresh env
    → mac_header_size ≤ length packet
    → TxInv s
    → ((t : System) × (queue_ack env packet s ≡ ok t) × SameTx s t)
      ⊎ ((p : ℕ) × (t : System) × (queue_ack env packet s ≡ panic)
          × (queue_tx_packet env network_control (ack_packet packet) false s ≡ ok (some p, t))
          × (Flies p (ack_packet packet) s t ⊎ Waits network_control p s t))
queue_ack-cases env packet s fresh whole v =
    let (r, run, queues) =
      queue_tx_packet-Queues env network_control (ack_packet packet) false s fresh (ack_size packet)
        v in
    ack_cases env packet s r (ground (arith, whole)) run queues
