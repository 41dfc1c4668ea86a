-- ===== src/Log/Logger/Panic.antt =====
-- The start and the end of Sources/Log/Logger.cpp: Init, the trace output, and Panic.
--
-- Each line that Panic prints is a message of its own; `message` numbers the lines for vsnprintf.
-- The machine stops in the state that Panic returns.
pub mod PrintOut
use blazenet_device_fw.Prelude.{
  ℕ, Bool, true, false, if◌then◌else◌, List, [], ◌∷◌, Outcome, ok, ◌>>=◌, ◌>>◌, require,
}
use blazenet_device_fw.Log.Logger.{LogState, Caller, Progress, done, waiting, error, log, log_at}

-- Logger::Init with the trace output off; `created` says whether xSemaphoreCreateBinaryStatic has
-- given a semaphore.
unfoldable pub init : Bool → LogState → Outcome LogState
init created s = require created >> ok (record s { uart_completion = true })

-- TracePutString: the bytes written to channel 0 of the trace, newest first.
unfoldable pub trace_put_string : List ℕ → List ℕ → List ℕ
trace_put_string [] written = 10 ∷ written
trace_put_string (c ∷ cs) written = trace_put_string cs (c ∷ written)

-- eTaskState
pub data TaskState : Type 0 where
  ready running blocked suspended deleted invalid : TaskState

-- TaskStatus_t, as far as Panic reads it
pub record TaskStatus : Type 0 where
  pub handle : ℕ
  pub name : ℕ
  pub current_state : TaskState
  pub run_time_counter : ℕ
  pub current_priority : ℕ
  pub stack_high_water_mark : ℕ

-- stateChar
unfoldable pub state_char : TaskState → ℕ
state_char ready = b'R'
state_char running = b'*'
state_char blocked = b'B'
state_char suspended = b'S'
state_char deleted = b'x'
state_char invalid = b'?'

pub data PanicLine : Type 0 where
  halting no_rtos_state state_title total_runtime columns : PanicLine
  task_line : TaskStatus → ℕ → PanicLine

-- What Panic asks the kernel: uxTaskGetSystemState for an array of so many tasks.
pub record Kernel : Type 0 where
  pub system_state : ℕ → List TaskStatus
  pub message : PanicLine → ℕ

-- kTaskInfoSize
abbrev pub task_info_size : ℕ
task_info_size = 8

-- One call of Error after another.
unfoldable pub print_lines : Caller → (PanicLine → ℕ) → List PanicLine → Progress → Outcome Progress
print_lines c message [] p = ok p
print_lines c message (l ∷ ls) (waiting s) = ok (waiting s)
print_lines c message (l ∷ ls) (done s) = log_at error c (message l) s >>= print_lines c message ls

unfoldable pub task_lines : List TaskStatus → List PanicLine
task_lines [] = []
task_lines (t ∷ ts) = task_line t (state_char t.current_state) ∷ task_lines ts

-- The branch on what uxTaskGetSystemState has returned.
unfoldable pub state_lines : List TaskStatus → List PanicLine
state_lines [] = no_rtos_state ∷ []
state_lines (t ∷ ts) = state_title ∷ total_runtime ∷ columns ∷ task_lines (t ∷ ts)

unfoldable pub panic_halt : Caller → Kernel → Progress → Outcome Progress
panic_halt c k p =
    let lines = state_lines (k.system_state task_info_size) in
    let print_state = (λ (r : Progress). print_lines c k.message lines r) in
    print_lines c k.message (halting ∷ []) p >>= λ r.
    if c.scheduler_started then print_state r else ok r

-- Logger::Panic with a message, and log_panic
unfoldable pub log_panic : Caller → Kernel → ℕ → LogState → Outcome Progress
log_panic c k msg s = log c false msg s >>= panic_halt c k
