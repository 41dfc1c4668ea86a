-- ===== src/HostIf/Irq/Recovery.antt =====
-- The recovery of lost interrupts, `TickCallback` of Sources/HostIf/IrqManager.cpp.
use blazenet_device_fw.Prelude.{◌≡◌, true, List, [], ◌∷◌, arith}
use blazenet_device_fw.HostIf.Irq.{IrqManager}
use blazenet_device_fw.HostIf.Irq.Line.{
  Call, masks, asserts, acknowledges, ticks, step, run, IsConsistent, step-IsConsistent,
}

-- Calls other than an acknowledgement by the host.
abbrev pub NoAcknowledge : List Call → Type 0
NoAcknowledge [] = Unit {0}
NoAcknowledge (acknowledges x ∷ cs) = ⊥
NoAcknowledge (masks x ∷ cs) = NoAcknowledge cs
NoAcknowledge (asserts x ∷ cs) = NoAcknowledge cs
NoAcknowledge (ticks t ∷ cs) = NoAcknowledge cs

step_recovering :
    (c : Call) (m : IrqManager)
    → NoAcknowledge (c ∷ [])
    → IsConsistent m
    → m.lost_irq_recovery ≡ true
    → (step c m).lost_irq_recovery ≡ true
unfolding step
step_recovering (masks x) m n v h = ground arith
step_recovering (asserts x) m n v h = ground arith
step_recovering (acknowledges x) m n v h = absurd n
step_recovering (ticks t) m n v h = ground arith

-- A recovery never ends by itself: once the manager is in one, no calls but an acknowledgement by
-- the host take it out (the stage that would do so is never reached).
pub recovery_never_ends :
    (cs : List Call) (m : IrqManager)
    → NoAcknowledge cs
    → IsConsistent m
    → m.lost_irq_recovery ≡ true
    → (run cs m).lost_irq_recovery ≡ true
unfolding run
recovery_never_ends [] m n v h = h
recovery_never_ends (masks x ∷ cs) m n v h =
    recovery_never_ends cs _ n (step-IsConsistent (masks x) m v)
      (step_recovering (masks x) m tt v h)
recovery_never_ends (asserts x ∷ cs) m n v h =
    recovery_never_ends cs _ n (step-IsConsistent (asserts x) m v)
      (step_recovering (asserts x) m tt v h)
recovery_never_ends (acknowledges x ∷ cs) m n v h = absurd n
recovery_never_ends (ticks t ∷ cs) m n v h =
    recovery_never_ends cs _ n (step-IsConsistent (ticks t) m v)
      (step_recovering (ticks t) m tt v h)
