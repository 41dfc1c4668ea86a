-- ===== src/Radio/Transmit.antt =====
-- Task::TxPacketImmediate of Sources/Radio/Task.cpp.
pub mod Attempt
use blazenet_device_fw.Prelude.{
  ℕ, ◌+◌, ◌-◌, ◌%◌, Bool, true, false, Option, none, some, ◌==◌, if◌then◌else◌, u32, ℤ, pos, negsuc,
  Outcome, ok, fault, ◌>>=◌, deref,
}
use blazenet_device_fw.Packet.Buffers.{TxPacketBuffer, find}
use blazenet_device_fw.System.{System, Env, Effect, write_tx_fifo, start_cca_csma_tx, on_irq, emit}

unfoldable pub enter_critical : System → System
enter_critical s = record s { critical = s.critical + 1 }

unfoldable pub exit_critical : System → System
exit_critical s = record s { critical = s.critical - 1 }

-- kUseCca is the constant true: the packet is sent with clear channel assessment.
unfoldable pub start_transmit : Env → ℕ → System → ℤ × System
unfolding emit exit_critical
start_transmit env p s =
    let s1 = emit (start_cca_csma_tx s.radio.tx_channel) s in
    if env.tx_starts s.trace s.radio.tx_channel
    then (pos 0, exit_critical (record s1 { radio = record (s1.radio) { last_tx = some p } }))
    else (negsuc 1, s1)

-- The body of the attempt, once the buffer is at hand. The two error returns leave the critical
-- section open, as the source does.
unfoldable pub attempt_transmit : Env → ℕ → TxPacketBuffer → System → ℤ × System
unfolding start_transmit enter_critical emit
attempt_transmit env p b s =
    let s1 = emit (write_tx_fifo b.payload) (enter_critical s) in
    if env.fifo_written s.trace b.payload == b.packet_size then start_transmit env p s1 else (
      negsuc 0,
      record s1 { radio = record (s1.radio) { tx_fifo_drops = u32 (s1.radio.tx_fifo_drops + 1) } },
    )

unfoldable pub tx_packet_immediate : Env → ℕ → System → Outcome (ℤ × System)
unfolding attempt_transmit
tx_packet_immediate env p s = do b ← deref (find p s.store); ok (attempt_transmit env p b s)
