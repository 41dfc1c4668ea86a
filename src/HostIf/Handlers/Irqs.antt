-- ===== src/HostIf/Handlers/Irqs.antt =====
-- Sources/HostIf/Handlers/IrqConfig.h and IrqStatus.h on the state of the interrupt manager.
use blazenet_device_fw.Prelude.{ℕ, ◌≤◌, ◌≡◌, false, List, [], ◌∷◌, ltb, pos, ok, arith}
use blazenet_device_fw.HostIf.Handlers.{copy_to, irq_byte, irq_config_read, irq_config_write}
use blazenet_device_fw.HostIf.Handlers.Bits.{irq_of_byte-irq_byte}
use blazenet_device_fw.HostIf.Interrupt.{Interrupt}
use blazenet_device_fw.HostIf.Irq.{IrqManager, set_mask, update}
use blazenet_device_fw.System.{System, on_irq}

mask-set_mask : (i : Interrupt) (m : IrqManager) → (set_mask i m).mask ≡ i
unfolding set_mask update
mask-set_mask i m = ground arith

-- A mask that the host has written is the mask that it reads back.
pub irq_config_read-write :
    (i : Interrupt) (requested : ℕ) (buffer : List ℕ) (s : System)
    → 1 ≤ requested
    → irq_config_read requested buffer (irq_config_write (irq_byte i ∷ []) s).1
      ≡ ok (pos 1, copy_to (irq_byte i ∷ []) buffer, (irq_config_write (irq_byte i ∷ []) s).1)
unfolding irq_config_read irq_config_write on_irq
irq_config_read-write i requested buffer s h =
    let enough : ltb requested 1 ≡ false = ground arith in
    rw (enough, irq_of_byte-irq_byte i, mask-set_mask i s.irq)
