-- ===== src/HostIf/Irq/Line.antt =====
-- What the host sees of Sources/HostIf/IrqManager.cpp: the level of the interrupt line.
use blazenet_device_fw.Prelude.{ℕ, ◌≤◌, ◌≡◌, true, false, List, [], ◌∷◌, arith}
use blazenet_device_fw.HostIf.Interrupt.{Interrupt, no_interrupt, inter, complement, test_flags}
use blazenet_device_fw.HostIf.Irq.{IrqManager, init, set_mask, assert, acknowledge, tick_callback}

-- The calls that change the manager's state.
pub data Call : Type 0 where
  masks : Interrupt → Call
  asserts : Interrupt → Call
  acknowledges : Interrupt → Call
  ticks : ℕ → Call

unfoldable pub step : Call → IrqManager → IrqManager
unfolding set_mask assert acknowledge tick_callback
step (masks x) m = set_mask x m
step (asserts x) m = assert x m
step (acknowledges x) m = acknowledge x m
step (ticks threshold) m = tick_callback threshold m

unfoldable pub run : List Call → IrqManager → IrqManager
run [] m = m
run (c ∷ cs) m = run cs (step c m)

pub record IsConsistent (m : IrqManager) : Type 0 where
  pub masked : m.masked_active ≡ inter m.active m.mask
  pub level : m.lost_irq_recovery ≡ false → m.line ≡ test_flags m.masked_active
  pub at_rest : m.lost_irq_recovery ≡ false → m.pending_stage ≡ 0
  pub recovering : m.lost_irq_recovery ≡ true → 1 ≤ m.pending_stage
  pub stages : m.pending_stage ≤ 3

pub init-IsConsistent : IsConsistent init
unfolding init inter test_flags
init-IsConsistent = ground arith

pub step-IsConsistent : (c : Call) (m : IrqManager) → IsConsistent m → IsConsistent (step c m)
unfolding step
step-IsConsistent (masks x) m v = ground arith
step-IsConsistent (asserts x) m v = ground arith
step-IsConsistent (acknowledges x) m v = ground arith
step-IsConsistent (ticks t) m v = ground arith

run_from-IsConsistent : (cs : List Call) (m : IrqManager) → IsConsistent m → IsConsistent (run cs m)
unfolding run
run_from-IsConsistent [] m v = v
run_from-IsConsistent (c ∷ cs) m v = run_from-IsConsistent cs (step c m) (step-IsConsistent c m v)

-- After any calls from start-up, in any order: GetPending is the active interrupts that the mask
-- lets through; outside the recovery of a lost interrupt the line is asserted exactly when there
-- is one; and the recovery's stage is 0 outside the recovery, and from 1 to 3 in it.
pub run-IsConsistent : (cs : List Call) → IsConsistent (run cs init)
run-IsConsistent cs = run_from-IsConsistent cs init init-IsConsistent

-- In a consistent state, acknowledging what GetPending returned releases the line, ends a
-- recovery, and keeps every active interrupt that was masked out.
pub acknowledge_pending :
    (m : IrqManager)
    → IsConsistent m
    → let m' = acknowledge m.masked_active m in
      (m'.line ≡ false)
      × (m'.masked_active ≡ no_interrupt)
      × (m'.lost_irq_recovery ≡ false)
      × (m'.active ≡ inter m.active (complement m.mask))
unfolding acknowledge inter test_flags complement
acknowledge_pending m v = ground arith
