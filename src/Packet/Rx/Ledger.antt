-- ===== src/Packet/Rx/Ledger.antt =====
-- The receive half of Sources/Packet/Handler.cpp keeps account of its buffers.
use blazenet_device_fw.Prelude.{
  ℕ, ◌+◌, ◌≤◌, ◌≡◌, refl, ap, ◌∙◌, inl, inr, Bool, true, false, Option, none, some, List, [], ◌∷◌,
  ◌++◌, length, length-append, Bool-cases, ◌&&◌, ltb, ltb→le, ◌==◌, u16, u32, sub32, ok, arith,
}
use blazenet_device_fw.HostIf.Irq
use blazenet_device_fw.HostIf.Interrupt.{packet_received_irq}
use blazenet_device_fw.Packet.Buffers.{
  RxPacketBuffer, rx_header_size, max_rx_buffer_size, max_rx_queue_size,
}
use blazenet_device_fw.Packet.Rx.{
  RxPacketInfo, new_rx_buffer, update_rx_queue_state, handle_rx_packet, set_rx, pop_rx_from,
  pop_rx_queue, discard_rx_packet,
}
use blazenet_device_fw.System.{System, Env, RxState}

-- The bytes that the buffers of a list take.
unfoldable pub rx_bytes : List RxPacketBuffer → ℕ
rx_bytes [] = 0
rx_bytes (b ∷ bs) = rx_header_size + b.packet_size + rx_bytes bs

rx_bytes-append : (bs cs : List RxPacketBuffer) → rx_bytes (bs ++ cs) ≡ rx_bytes bs + rx_bytes cs
unfolding rx_bytes
rx_bytes-append [] cs = omega arith
rx_bytes-append (b ∷ bs) cs = omega (arith, rx_bytes-append bs cs)

-- `out` are the buffers that PopRxQueue gave away and that are not discarded yet.
pub record RxAccounted (r : RxState) (out : List RxPacketBuffer) : Type 0 where
  pub exact : r.alloc_bytes ≡ rx_bytes r.queue + rx_bytes out
  pub bounded : r.alloc_bytes ≤ max_rx_buffer_size
  pub short : length r.queue ≤ max_rx_queue_size

-- A packet was dropped: the overflow flag is set, and the queue and its bytes are as they were.
pub record Drops (s t : System) : Type 0 where
  pub flagged : t.rx.overflow_flag ≡ true
  pub same_queue : t.rx.queue ≡ s.rx.queue
  pub same_bytes : t.rx.alloc_bytes ≡ s.rx.alloc_bytes

update_rx_queue_state-rx : (s : System) → (update_rx_queue_state s).rx ≡ s.rx
unfolding update_rx_queue_state
update_rx_queue_state-rx s = ground arith

appended_irq :
    (s : System) (bs : List RxPacketBuffer) (b : RxPacketBuffer)
    → s.rx.queue ≡ bs ++ b ∷ []
    → (update_rx_queue_state s).irq ≡ Irq.assert packet_received_irq s.irq
unfolding update_rx_queue_state
appended_irq s [] b e = rw e
appended_irq s (c ∷ bs) b e = rw e

-- What HandleRxPacket returns and leaves.
abbrev pub Receives :
    RxPacketInfo → List RxPacketBuffer → System → Option RxPacketBuffer × System → Type 0
Receives info out s (none, t) = Drops s t × RxAccounted t.rx out
Receives info out s (some b, t) =
    (b ≡ new_rx_buffer s.radio.address info)
    × (t.rx.queue ≡ s.rx.queue ++ b ∷ [])
    × (t.irq ≡ Irq.assert packet_received_irq s.irq)
    × RxAccounted t.rx out

dropped :
    (s u : System) (out : List RxPacketBuffer)
    → u.rx.overflow_flag ≡ true
    → u.rx.queue ≡ s.rx.queue
    → u.rx.alloc_bytes ≡ s.rx.alloc_bytes
    → RxAccounted s.rx out
    → Drops s (update_rx_queue_state u) × RxAccounted (update_rx_queue_state u).rx out
dropped s u out f q b v =
    let same = update_rx_queue_state-rx u in
    (
      record {
        flagged = ap (λ r. r.overflow_flag) same ∙ f;
        same_queue = ap (λ r. r.queue) same ∙ q;
        same_bytes = ap (λ r. r.alloc_bytes) same ∙ b;
      },
      rw same (record {
        exact = rw (q, b) (v.exact);
        bounded = rw b (v.bounded);
        short = rw q (v.short);
      }),
    )

accepted :
    (s u : System) (out : List RxPacketBuffer) (b : RxPacketBuffer)
    → (length s.rx.queue == max_rx_queue_size) ≡ false
    → s.rx.alloc_bytes + (rx_header_size + b.packet_size) ≤ max_rx_buffer_size
    → u.rx.queue ≡ s.rx.queue ++ b ∷ []
    → u.rx.alloc_bytes ≡ s.rx.alloc_bytes + (rx_header_size + b.packet_size)
    → RxAccounted s.rx out
    → RxAccounted (update_rx_queue_state u).rx out
unfolding rx_bytes
accepted s u out b room fits q bytes v = rw (update_rx_queue_state-rx u) (record {
  exact = rw (q, bytes) (omega (arith, v.exact, rx_bytes-append s.rx.queue (b ∷ [])));
  bounded = rw bytes fits;
  short = rw q (ground (arith, v.short, length-append s.rx.queue (b ∷ [])));
})

-- HandleRxPacket either drops the packet, with the overflow flag set and the queue and its bytes
-- as they were; or it appends the new buffer to the queue, raises the packet received interrupt and
-- returns the buffer. The bytes counted are exactly those of the queued and the popped buffers
-- afterwards, and the limits on bytes and queue length hold.
pub handle_rx_packet-Receives :
    (env : Env) (info : RxPacketInfo) (s : System) (out : List RxPacketBuffer)
    → info.packet_bytes ≤ 65535
    → RxAccounted s.rx out
    → Receives info out s (handle_rx_packet env info s)
unfolding handle_rx_packet new_rx_buffer
handle_rx_packet-Receives env info s out small v =
    let bounded = v.bounded in
    let bytes = u32 (s.rx.alloc_bytes + (rx_header_size + info.packet_bytes)) in
    let fits_now : ltb max_rx_buffer_size bytes ≡ false
        → s.rx.alloc_bytes + (rx_header_size + u16 info.packet_bytes) ≤ max_rx_buffer_size =
      λ h. let le = ltb→le _ _ h in omega arith in
    elim (Bool-cases (length s.rx.queue == max_rx_queue_size)) [
      | inl full ↦ rw full (dropped s _ out refl refl refl v)
      | inr room ↦ elim (Bool-cases (ltb max_rx_buffer_size bytes)) [
        | inl over ↦ rw (room, over) (dropped s _ out refl refl refl v)
        | inr fits ↦
            elim (Bool-cases (env.rx_malloc s.trace (rx_header_size + info.packet_bytes))) [
              | inr oom ↦ rw (room, fits, oom) (dropped s _ out refl refl refl v)
              | inl got ↦
                  rw (room, fits, got)
                    (
                      refl,
                      ap (λ r. r.queue) (update_rx_queue_state-rx _),
                      appended_irq _ s.rx.queue (new_rx_buffer s.radio.address info) refl,
                      accepted s _ out (new_rx_buffer s.radio.address info) room (fits_now fits)
                          refl (omega (arith, fits_now fits, bounded)) v,
                    )
            ]
      ]
    ]

-- PopRxQueue takes the oldest packet, which is outstanding from then on.
pub pop_rx_queue-RxAccounted :
    (s : System) (b : RxPacketBuffer) (bs out : List RxPacketBuffer)
    → s.rx.queue ≡ b ∷ bs
    → RxAccounted s.rx out
    → (t : System) × (pop_rx_queue s ≡ ok (b, t)) × (t.rx.queue ≡ bs) × RxAccounted t.rx (b ∷ out)
unfolding pop_rx_queue pop_rx_from rx_bytes
pop_rx_queue-RxAccounted s b bs out e v =
    let u = set_rx s (record (s.rx) { queue = bs }) in
    let same = update_rx_queue_state-rx u in
    (
      update_rx_queue_state u,
      ap (λ q. pop_rx_from q s) e,
      ap (λ r. r.queue) same,
      rw same (record {
        exact = let x = rw e at v.exact in omega arith;
        bounded = v.bounded;
        short = let x = rw e at v.short in omega arith;
      }),
    )

-- DiscardRxPacket without an acknowledgement gives the bytes of an outstanding packet back.
pub discard_rx_packet-RxAccounted :
    (env : Env) (s : System) (b : RxPacketBuffer) (ack : Bool) (out : List RxPacketBuffer)
    → (b.auto_ack && ack) ≡ false
    → RxAccounted s.rx (b ∷ out)
    → (t : System) × (discard_rx_packet env b ack s ≡ ok t)
      × (t.rx.queue ≡ s.rx.queue)
      × RxAccounted t.rx out
unfolding discard_rx_packet rx_bytes
discard_rx_packet-RxAccounted env s b ack out quiet v =
    let x = v.exact in
    let y = v.bounded in
    (
      set_rx s
          (record (s.rx) { alloc_bytes = sub32 s.rx.alloc_bytes (rx_header_size + b.packet_size) }),
      rw quiet,
      refl,
      record { exact = omega arith; bounded = omega arith; short = v.short },
    )
