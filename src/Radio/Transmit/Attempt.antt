-- ===== src/Radio/Transmit/Attempt.antt =====
-- What one attempt of Task::TxPacketImmediate (Sources/Radio/Task.cpp) does.
use blazenet_device_fw.Prelude.{
  ℕ, ◌+◌, ◌≡◌, ◌≢◌, refl, false, ==_iff, ◌∙◌, sym, ◌⊎◌, inl, inr, true, some, List, ◌∷◌, length,
  Bool-cases, ◌==◌, ℤ, pos, negsuc, Outcome, ok, arith,
}
use blazenet_device_fw.Packet.Buffers.{TxPacketBuffer, find}
use blazenet_device_fw.Radio.Transmit.{attempt_transmit, tx_packet_immediate}
use blazenet_device_fw.System.{System, Env, Effect, write_tx_fifo, start_cca_csma_tx}

-- RAIL takes every packet whole and starts every transmission.
pub record Accepts (env : Env) : Type 0 where
  pub takes_all : (tr : List Effect) (xs : List ℕ) → env.fifo_written tr xs ≡ length xs
  pub starts : (tr : List Effect) (channel : ℕ) → env.tx_starts tr channel ≡ true

-- Nothing but the radio's own state, the critical section and the trace has changed.
pub record SameBuffers (s t : System) : Type 0 where
  pub same_store : t.store ≡ s.store
  pub same_tx : t.tx ≡ s.tx
  pub same_rx : t.rx ≡ s.rx
  pub same_irq : t.irq ≡ s.irq

-- The packet is in flight, and its bytes were handed to the radio on the current channel.
pub record Sent (env : Env) (p : ℕ) (b : TxPacketBuffer) (s t : System) : Type 0 where
  pub whole : env.fifo_written s.trace b.payload ≡ b.packet_size
  pub started : env.tx_starts (write_tx_fifo b.payload ∷ s.trace) s.radio.tx_channel ≡ true
  pub same : SameBuffers s t
  pub in_flight : t.radio.last_tx ≡ some p
  pub on_air : t.trace ≡ start_cca_csma_tx s.radio.tx_channel ∷ write_tx_fifo b.payload ∷ s.trace
  pub left_critical : t.critical ≡ s.critical

-- The radio did not take the packet, and a critical section stays open.
pub record Refused (env : Env) (b : TxPacketBuffer) (n : ℕ) (s t : System) : Type 0 where
  pub why :
      ((n ≡ 0) × (env.fifo_written s.trace b.payload ≢ b.packet_size))
      ⊎ ((n ≡ 1)
          × (env.fifo_written s.trace b.payload ≡ b.packet_size)
          × (env.tx_starts (write_tx_fifo b.payload ∷ s.trace) s.radio.tx_channel ≡ false))
  pub same : SameBuffers s t
  pub in_flight : t.radio.last_tx ≡ s.radio.last_tx
  pub in_critical : t.critical ≡ s.critical + 1

abbrev pub Attempt : Env → ℕ → TxPacketBuffer → System → Outcome (ℤ × System) → Type 0
Attempt env p b s m =
    ((t : System) × (m ≡ ok (pos 0, t)) × Sent env p b s t)
    ⊎ ((n : ℕ) × (t : System) × (m ≡ ok (negsuc n, t)) × Refused env b n s t)

-- An attempt to transmit a live packet puts it in flight, with exactly its bytes handed to the
-- radio, if the radio takes as many bytes as the packet has and starts the transmission. If it takes
-- another number of bytes the attempt returns -1, and if it does not start -2; the packet in
-- flight and all buffers are then as they were, and one more critical section is open.
pub tx_packet_immediate-Attempt :
    (env : Env) (p : ℕ) (b : TxPacketBuffer) (s : System)
    → find p s.store ≡ some b
    → Attempt env p b s (tx_packet_immediate env p s)
unfolding tx_packet_immediate
tx_packet_immediate-Attempt env p b s e =
    let t = (attempt_transmit env p b s).1 in
    elim (Bool-cases (env.fifo_written s.trace b.payload == b.packet_size)) [
      | inr short ↦
          (let part : env.fifo_written s.trace b.payload ≢ b.packet_size =
              λ e. ground (arith, e, short) in
            inr (
              0,
              t,
              ground arith,
              record {
                why = inl (refl, part);
                same = ground arith;
                in_flight = ground arith;
                in_critical = ground arith;
              },
            ))
      | inl whole ↦
          elim (Bool-cases (env.tx_starts (write_tx_fifo b.payload ∷ s.trace) s.radio.tx_channel)) [
            | inl started ↦ inl (
              t,
              ground arith,
              record {
                whole = (==_iff _ _).0 whole;
                started = started;
                same = ground arith;
                in_flight = ground arith;
                on_air = ground arith;
                left_critical = ground arith;
              },
            )
            | inr idle ↦ inr (
              1,
              t,
              ground arith,
              record {
                why = inr (refl, (==_iff _ _).0 whole, idle);
                same = ground arith;
                in_flight = ground arith;
                in_critical = ground arith;
              },
            )
          ]
    ]

-- With a radio that accepts, the attempt succeeds.
pub tx_packet_immediate-Accepts :
    (env : Env) (p : ℕ) (b : TxPacketBuffer) (s : System)
    → Accepts env
    → find p s.store ≡ some b
    → b.packet_size ≡ length b.payload
    → (t : System) × (tx_packet_immediate env p s ≡ ok (pos 0, t)) × Sent env p b s t
unfolding tx_packet_immediate
tx_packet_immediate-Accepts env p b s acc e size =
    let whole = acc.takes_all s.trace b.payload in
    let started = acc.starts (write_tx_fifo b.payload ∷ s.trace) s.radio.tx_channel in
    (
      (attempt_transmit env p b s).1,
      ground arith,
      record {
        whole = whole ∙ sym size;
        started = started;
        same = ground arith;
        in_flight = ground arith;
        on_air = ground arith;
        left_critical = ground arith;
      },
    )
