-- ===== src/Rtos.antt =====
-- The routines that the RTOS and the processor call: Sources/Rtos/Idle.cpp, Rtos/Memory.cpp,
-- Init/FaultHandlers.cpp, Init/StackGuard.cpp, and the assertion of RAIL in Radio/Init.cpp. The
-- assembly of HardFault_Handler is the choice of the stack.
pub mod Faults
use blazenet_device_fw.Prelude.{ℕ, ◌+◌, ◌*◌, ◌/◌, ◌%◌, Bool, false, ◌==◌, if◌then◌else◌, Outcome}
use blazenet_device_fw.HostIf.Irq.{IrqManager, tick_callback}
use blazenet_device_fw.Log.Logger.{LogState, Caller, Progress}
use blazenet_device_fw.Log.Logger.Panic.{Kernel, log_panic}

-- kRecoveryEnabled
abbrev pub recovery_enabled : Bool
recovery_enabled = false

-- vApplicationIdleHook before it waits for an interrupt
unfoldable pub idle_hook : ℕ → IrqManager → IrqManager
idle_hook irq_threshold m = if recovery_enabled then tick_callback irq_threshold m else m

-- The static objects of Memory.cpp
pub data StaticObject : Type 0 where
  idle_tcb idle_stack timer_tcb timer_stack : StaticObject

-- configMINIMAL_STACK_SIZE and configTIMER_TASK_STACK_DEPTH
abbrev pub idle_stack_size : ℕ
idle_stack_size = 130

abbrev pub timer_stack_size : ℕ
timer_stack_size = idle_stack_size * 2

pub record TaskMemory : Type 0 where
  pub tcb : StaticObject
  pub stack : StaticObject
  pub stack_size : ℕ

unfoldable pub idle_task_memory : TaskMemory
idle_task_memory = record { tcb = idle_tcb; stack = idle_stack; stack_size = idle_stack_size }

unfoldable pub timer_task_memory : TaskMemory
timer_task_memory = record { tcb = timer_tcb; stack = timer_stack; stack_size = timer_stack_size }

-- What ends the firmware, as the arguments of its message
pub data Fault : Type 0 where
  stack_overflow : ℕ → Fault
  pure_virtual : Fault
  rail_assert : ℕ → ℕ → Fault
  hard_fault : ℕ → ℕ → ℕ → ℕ → ℕ → ℕ → ℕ → ℕ → ℕ → Fault

-- The stack in use when the processor faulted: bit 2 of lr is clear for the main stack.
unfoldable pub fault_stack : ℕ → ℕ → ℕ → ℕ
fault_stack lr msp psp = if lr / 4 % 2 == 0 then msp else psp

-- prvGetRegistersFromStack; `memory` is the word at an address.
unfoldable pub registers_from_stack : (ℕ → ℕ) → ℕ → Fault
registers_from_stack memory sp =
    let at = (λ (i : ℕ). memory (sp + 4 * i)) in
    hard_fault (at 0) (at 1) (at 2) (at 3) (at 4) (at 5) (at 6) (at 7) (memory 0xe000ed2c)

-- A fault panics with its message, which `message` numbers.
unfoldable pub panic_on : Caller → Kernel → (Fault → ℕ) → Fault → LogState → Outcome Progress
panic_on c k message f s = log_panic c k (message f) s

unfoldable pub hard_fault_handler :
    Caller → Kernel → (Fault → ℕ) → (ℕ → ℕ) → ℕ → ℕ → ℕ → LogState → Outcome Progress
hard_fault_handler c k message memory lr msp psp s =
    panic_on c k message (registers_from_stack memory (fault_stack lr msp psp)) s
