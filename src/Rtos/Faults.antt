-- ===== src/Rtos/Faults.antt =====
-- What a fault of Sources/Init/FaultHandlers.cpp leaves on the UART, and what the idle task does.
use blazenet_device_fw.Prelude.{ℕ, ◌≤◌, ◌≡◌, refl, length, ok}
use blazenet_device_fw.HostIf.Irq.{IrqManager}
use blazenet_device_fw.Log.Logger.{LogState, Caller, done}
use blazenet_device_fw.Log.Logger.Panic.{Kernel, task_info_size}
use blazenet_device_fw.Log.Logger.Panic.PrintOut.{PrintsOut, log_panic-PrintsOut}
use blazenet_device_fw.Rtos.{
  Fault, fault_stack, registers_from_stack, panic_on, hard_fault_handler, idle_hook,
}

-- The lost interrupts' recovery never runs from the idle task.
idle_hook-same : (irq_threshold : ℕ) (m : IrqManager) → idle_hook irq_threshold m ≡ m
unfolding idle_hook
idle_hook-same irq_threshold m = refl

-- A hard fault on the process stack prints the eight words of the frame there, from any state of
-- the logger, before the lines of Panic.
pub hard_fault_handler-PrintsOut :
    (c : Caller) (k : Kernel) (message : Fault → ℕ) (memory : ℕ → ℕ) (lr msp psp : ℕ) (s : LogState)
    → length c.stamp ≡ 13
    → length (k.system_state task_info_size) ≤ task_info_size
    → (t : LogState) × (hard_fault_handler c k message memory lr msp psp s ≡ ok (done t))
      × PrintsOut c k (message (registers_from_stack memory (fault_stack lr msp psp))) s t
unfolding hard_fault_handler panic_on
hard_fault_handler-PrintsOut c k message memory lr msp psp s stamp few =
    log_panic-PrintsOut c k (message (registers_from_stack memory (fault_stack lr msp psp))) s stamp
      few
