-- ===== src/HostIf/Irq.antt =====
-- Sources/HostIf/IrqManager.h and IrqManager.cpp: the host's interrupt line, and the recovery of
-- interrupts that the host has lost. Each routine runs inside one critical section of its own,
-- so it is one step here. Log messages are left out.
pub mod Line
pub mod Recovery
use blazenet_device_fw.Prelude.{
  ℕ, ◌+◌, Bool, true, false, ◌&&◌, ◌||◌, ltb, ◌==◌, if◌then◌else◌, u16,
}
use blazenet_device_fw.HostIf.Interrupt.{
  Interrupt, no_interrupt, inter, union, complement, test_flags,
}

-- `line` is the state of the interrupt output: true while it is asserted (driven low).
pub record IrqManager : Type 0 where
  pub active : Interrupt
  pub mask : Interrupt
  pub masked_active : Interrupt
  pub lost_irq_recovery : Bool
  pub ticks_pending : ℕ
  pub pending_stage : ℕ
  pub line : Bool

-- The static initialisers, after `Init` has set the output high.
unfoldable pub init : IrqManager
init = record {
  active = no_interrupt;
  mask = no_interrupt;
  masked_active = no_interrupt;
  lost_irq_recovery = false;
  ticks_pending = 0;
  pending_stage = 0;
  line = false;
}

unfoldable pub set_irq_status : Bool → IrqManager → IrqManager
set_irq_status asserted m = record m { line = asserted }

-- kToggleIrqLine is the constant false, so the line follows the level of the result.
unfoldable pub update : IrqManager → IrqManager
unfolding set_irq_status
update m =
    let result = inter m.active m.mask in
    let m1 = if m.lost_irq_recovery then m else set_irq_status (test_flags result) m in
    record m1 { masked_active = result }

unfoldable pub set_mask : Interrupt → IrqManager → IrqManager
unfolding update
set_mask new_mask m = update (record m { mask = new_mask })

unfoldable pub assert : Interrupt → IrqManager → IrqManager
unfolding update
assert which m = update (record m { active = union m.active which })

unfoldable pub acknowledge : Interrupt → IrqManager → IrqManager
unfolding update
acknowledge which m = update (record m {
  active = inter m.active (complement which);
  ticks_pending = 0;
  pending_stage = 0;
  lost_irq_recovery = false;
})

-- The ladder on `gPendingStage`.
unfoldable pub recover : IrqManager → IrqManager
unfolding set_irq_status
recover m =
    if m.pending_stage == 0
    then record (set_irq_status false m) { lost_irq_recovery = true; pending_stage = 1 }
    else if m.pending_stage == 1 || m.pending_stage == 2
    then record m { pending_stage = u16 (m.pending_stage + 1) }
    else if m.pending_stage == 3
    then record (set_irq_status true m) { pending_stage = 3 }
    else if m.pending_stage == 4
    then record m { lost_irq_recovery = false; ticks_pending = 0; pending_stage = 0 }
    else m

-- `irq_threshold` is kIrqThreshold, 50 ms in ticks of the RTOS.
unfoldable pub tick_callback : ℕ → IrqManager → IrqManager
unfolding recover
tick_callback irq_threshold m =
    let pending = test_flags m.masked_active in
    let m1 = if pending then record m { ticks_pending = u16 (m.ticks_pending + 1) } else m in
    if (pending && ltb irq_threshold m1.ticks_pending) || m1.lost_irq_recovery
    then recover m1
    else m1
