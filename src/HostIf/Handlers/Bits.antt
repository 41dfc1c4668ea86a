-- ===== src/HostIf/Handlers/Bits.antt =====
-- The layout of the interrupt bytes that the host reads and writes (Sources/HostIf/Commands.h).
use blazenet_device_fw.Prelude.{◌≡◌, arith}
use blazenet_device_fw.HostIf.Interrupt.{Interrupt}
use blazenet_device_fw.HostIf.Handlers.{irq_byte, irq_of_byte}

-- The byte that reports a set of interrupts, written back, names exactly that set.
pub irq_of_byte-irq_byte : (i : Interrupt) → irq_of_byte (irq_byte i) ≡ i
unfolding irq_of_byte irq_byte
irq_of_byte-irq_byte i = ground arith
