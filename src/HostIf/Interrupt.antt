-- ===== src/HostIf/Interrupt.antt =====
-- The interrupt flags of Sources/HostIf/IrqManager.h, with the operators that ENUM_FLAGS_EX of
-- Includes/bitflags.h generates for them. A flag set is a record of its four named bits; the
-- module `Words` relates it to the machine word of the source.
pub mod Words
use blazenet_device_fw.Prelude.{Bool, true, false, not, ◌&&◌, ◌||◌}

pub record Interrupt : Type 0 where
  pub command_error : Bool
  pub packet_received : Bool
  pub packet_transmitted : Bool
  pub tx_queue_empty : Bool

abbrev pub no_interrupt : Interrupt
no_interrupt = record {
  command_error = false;
  packet_received = false;
  packet_transmitted = false;
  tx_queue_empty = false;
}

abbrev pub command_error_irq : Interrupt
command_error_irq = record no_interrupt { command_error = true }

abbrev pub packet_received_irq : Interrupt
packet_received_irq = record no_interrupt { packet_received = true }

abbrev pub packet_transmitted_irq : Interrupt
packet_transmitted_irq = record no_interrupt { packet_transmitted = true }

abbrev pub tx_queue_empty_irq : Interrupt
tx_queue_empty_irq = record no_interrupt { tx_queue_empty = true }

-- `x & y`
unfoldable pub inter : Interrupt → Interrupt → Interrupt
inter x y = record {
  command_error = x.command_error && y.command_error;
  packet_received = x.packet_received && y.packet_received;
  packet_transmitted = x.packet_transmitted && y.packet_transmitted;
  tx_queue_empty = x.tx_queue_empty && y.tx_queue_empty;
}

-- `x | y`
unfoldable pub union : Interrupt → Interrupt → Interrupt
union x y = record {
  command_error = x.command_error || y.command_error;
  packet_received = x.packet_received || y.packet_received;
  packet_transmitted = x.packet_transmitted || y.packet_transmitted;
  tx_queue_empty = x.tx_queue_empty || y.tx_queue_empty;
}

-- `~x`, of which the code only ever keeps the named bits (`gActive &= ~which`)
unfoldable pub complement : Interrupt → Interrupt
complement x = record {
  command_error = not x.command_error;
  packet_received = not x.packet_received;
  packet_transmitted = not x.packet_transmitted;
  tx_queue_empty = not x.tx_queue_empty;
}

-- `TestFlags(x)`
unfoldable pub test_flags : Interrupt → Bool
test_flags x = x.command_error || x.packet_received || x.packet_transmitted || x.tx_queue_empty
