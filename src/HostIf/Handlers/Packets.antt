-- ===== src/HostIf/Handlers/Packets.antt =====
-- The commands of Sources/HostIf/Handlers that move packets between the host and the queues.
use blazenet_device_fw.Prelude.{
  ◌%◌, ℕ, ◌+◌, ◌≡◌, ◌∙◌, ap, ◌⊎◌, min, Bool, false, ◌&&◌, some, List, ◌∷◌, take, ℤ, pos, negsuc,
  Outcome, ok,
}
use blazenet_device_fw.HostIf.Handlers.{copy_to, read_popped, read_packet_read, read_packet_post}
use blazenet_device_fw.Packet.Buffers.{
  background, normal, real_time, network_control, RxPacketBuffer, TxPacketPriority,
}
use blazenet_device_fw.Packet.Invariant.{TxInv, SameTx}
use blazenet_device_fw.Packet.Rx.Ledger.{
  RxAccounted, pop_rx_queue-RxAccounted, discard_rx_packet-RxAccounted,
}
use blazenet_device_fw.Packet.Tx.Final.{Waits, Flies}
use blazenet_device_fw.System.{System, Env}

-- The oldest packet is in the buffer, behind its signal strength and quality, and off the queue.
pub record Delivers (requested : ℕ) (buffer : List ℕ) (b : RxPacketBuffer)
    (bs out : List RxPacketBuffer) (read : Outcome (ℤ × List ℕ × System))
    (post : Bool → System → Outcome System) : Type 0 where
  pub after_read : System
  pub replied :
      let actual = min requested (2 + b.packet_size) in
      read ≡ ok (pos actual, copy_to (take actual (b.rssi ∷ b.lqi ∷ b.payload)) buffer, after_read)
  pub popped : after_read.rx.queue ≡ bs
  pub discarded :
      (success : Bool)
      → (t : System) × (post success after_read ≡ ok t) × (t.rx.queue ≡ bs) × RxAccounted t.rx out

quiet_ack : (a b : Bool) → a ≡ false → (a && b) ≡ false
quiet_ack a b e = ap (λ x. x && b) e

-- With right books of the receive queue and a packet at its front that asks for no
-- acknowledgement, ReadPacket returns the signal strength, the quality and the content of that
-- packet, cut to the number of bytes requested, and takes it off the queue; whether or not the
-- host has read it all, the routine after the read discards it and gives its bytes back.
pub read_packet-Delivers :
    (env : Env) (requested : ℕ) (buffer : List ℕ) (s : System) (b : RxPacketBuffer)
    (bs out : List RxPacketBuffer)
    → s.rx.queue ≡ b ∷ bs
    → b.auto_ack ≡ false
    → RxAccounted s.rx out
    → Delivers requested buffer b bs out
        (read_packet_read requested buffer s)
        (read_packet_post env)
unfolding read_packet_read read_popped read_packet_post
read_packet-Delivers env requested buffer s b bs out e quiet v =
    let (t, run, queue, w) = pop_rx_queue-RxAccounted s b bs out e v in
    let t1 : System = record t { read_pbuf = some b } in
    record {
      after_read = t1;
      replied = rw run;
      popped = queue;
      discarded = λ success.
          (let (u, done, same, x) =
              discard_rx_packet-RxAccounted env t1 b success out
                (quiet_ack b.auto_ack success quiet) w in
            (u, done, same ∙ queue, x));
    }

-- The two lowest bits of the header byte name the priority, from background up.
abbrev pub Names : ℕ → TxPacketPriority → Type 0
Names flags background = flags % 4 ≡ 0
Names flags normal = flags % 4 ≡ 1
Names flags real_time = flags % 4 ≡ 2
Names flags network_control = flags % 4 ≡ 3

-- What TransmitPacket reports: zero for a packet on air or queued, and an error if nothing changed.
abbrev pub Submits : TxPacketPriority → List ℕ → System → ℤ × System → Type 0
Submits priority payload s (err, t) =
    TxInv t
    × (((err ≡ pos 0) × ((p : ℕ) × (Flies p payload s t ⊎ Waits priority p s t)))
        ⊎ ((err ≡ negsuc 1) × SameTx s t))
