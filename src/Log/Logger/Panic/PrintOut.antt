-- ===== src/Log/Logger/Panic/PrintOut.antt =====
-- What Panic of Sources/Log/Logger.cpp hands to the UART before it stops the machine.
use blazenet_device_fw.Prelude.{
  ℕ, ◌≤◌, ◌≡◌, ◌≢◌, refl, ap, ◌∙◌, Bool, true, false, not, ◌||◌, List, [], ◌∷◌, length,
  if◌then◌else◌, ok, ◌>>=◌, arith,
}
use blazenet_device_fw.Log.Logger.Messages.{IsMessage, message_bytes-IsMessage}
use blazenet_device_fw.Log.Logger.Panic.{
  TaskState, ready, running, blocked, suspended, deleted, invalid, state_char, task_line,
  TaskStatus, PanicLine, halting, no_rtos_state, state_title, total_runtime, columns, Kernel,
  task_info_size, print_lines, task_lines, state_lines, panic_halt, log_panic,
}
use blazenet_device_fw.Log.Logger.{
  error, Sent, force_transmitted, LogState, Caller, done, message_bytes, newline, log_directly, log,
  log_at,
}

-- The transmissions of messages sent one after another, newest first.
unfoldable pub printed : Caller → List ℕ → List Sent → List Sent
printed c [] older = older
printed c (m ∷ ms) older =
    printed c ms (force_transmitted newline ∷ force_transmitted (message_bytes c m) ∷ older)

abbrev pub All {ℓ κ} : {A : Type ℓ} → (A → Type κ) → List A → Type κ
All P [] = Unit
All P (x ∷ xs) = P x × All P xs

unfoldable pub numbers : (PanicLine → ℕ) → List PanicLine → List ℕ
numbers message [] = []
numbers message (l ∷ ls) = message l ∷ numbers message ls

-- The letter for a state: R, *, B, S, x or a question mark, as ASCII codes.
abbrev pub letter : TaskState → ℕ
letter ready = 82
letter running = 42
letter blocked = 66
letter suspended = 83
letter deleted = 120
letter invalid = 63

-- One line for each task, in order, with its letter.
abbrev pub Describes : List TaskStatus → List PanicLine → Type 0
Describes [] [] = Unit
Describes (t ∷ ts) (l ∷ ls) = (l ≡ task_line t (letter t.current_state)) × Describes ts ls
Describes [] (l ∷ ls) = ⊥
Describes (t ∷ ts) [] = ⊥

-- The lines after the message: one before the scheduler runs, two if the kernel reports no tasks,
-- and otherwise four and one for each task.
pub data Lines (started : Bool) (tasks : List TaskStatus) : List PanicLine → Type 0 where
  early : started ≡ false → Lines started tasks (halting ∷ [])
  blind : started ≡ true → tasks ≡ [] → Lines started tasks (halting ∷ no_rtos_state ∷ [])
  full :
      started ≡ true
      → tasks ≢ []
      → (lines : List PanicLine) → Describes tasks lines
      → Lines started tasks (halting ∷ state_title ∷ total_runtime ∷ columns ∷ lines)

pub record PrintsOut (c : Caller) (k : Kernel) (msg : ℕ) (s t : LogState) : Type 0 where
  pub lines : List PanicLine
  pub chosen : Lines c.scheduler_started (k.system_state task_info_size) lines
  pub sent : t ≡ record s { sent = printed c (msg ∷ numbers k.message lines) s.sent }
  pub cut : All (λ m. IsMessage c m (message_bytes c m)) (msg ∷ numbers k.message lines)
  pub bounded : length lines ≤ 12

or_true : (b : Bool) → (b || true) ≡ true
or_true true = refl
or_true false = refl

log-direct : (c : Caller) (m : ℕ) (s : LogState) → log c false m s ≡ ok (done (log_directly c m s))
unfolding log
log-direct c m s = rw (or_true (not c.scheduler_started))

error-direct :
    (c : Caller) (m : ℕ) (s : LogState) → log_at error c m s ≡ ok (done (log_directly c m s))
unfolding log_at
error-direct c m s = log-direct c m s

print_lines-printed :
    (c : Caller) (message : PanicLine → ℕ) (ls : List PanicLine) (s : LogState)
    → print_lines c message ls (done s)
      ≡ ok (done (record s { sent = printed c (numbers message ls) s.sent }))
unfolding print_lines printed numbers log_directly
print_lines-printed c message [] s = refl
print_lines-printed c message (l ∷ ls) s =
    ap (λ m. m >>= print_lines c message ls) (error-direct c (message l) s)
    ∙ print_lines-printed c message ls (log_directly c (message l) s)

state_char-letter : (u : TaskState) → state_char u ≡ letter u
unfolding state_char
state_char-letter ready = refl
state_char-letter running = refl
state_char-letter blocked = refl
state_char-letter suspended = refl
state_char-letter deleted = refl
state_char-letter invalid = refl

task_lines-Describes : (tasks : List TaskStatus) → Describes tasks (task_lines tasks)
unfolding task_lines
task_lines-Describes [] = tt
task_lines-Describes (t ∷ ts) =
    (ap (task_line t) (state_char-letter t.current_state), task_lines-Describes ts)

state_lines-Lines : (tasks : List TaskStatus) → Lines true tasks (halting ∷ state_lines tasks)
unfolding state_lines
state_lines-Lines [] = blind refl refl
state_lines-Lines (t ∷ ts) =
    full refl (λ e. absurd (cc e)) (task_lines (t ∷ ts)) (task_lines-Describes (t ∷ ts))

length-task_lines : (tasks : List TaskStatus) → length (task_lines tasks) ≡ length tasks
unfolding task_lines
length-task_lines [] = refl
length-task_lines (t ∷ ts) = omega (arith, length-task_lines ts)

length-state_lines : (tasks : List TaskStatus) → length tasks ≤ 8 → length (state_lines tasks) ≤ 11
unfolding state_lines
length-state_lines [] h = omega arith
length-state_lines (t ∷ ts) h = omega (arith, length-task_lines (t ∷ ts))

All-IsMessage :
    (c : Caller) (ms : List ℕ)
    → length c.stamp ≡ 13
    → All (λ m. IsMessage c m (message_bytes c m)) ms
All-IsMessage c [] stamp = tt
All-IsMessage c (m ∷ ms) stamp = (message_bytes-IsMessage c m stamp, All-IsMessage c ms stamp)

-- The rest of Panic after its first line, by whether the scheduler runs.
rest-PrintsOut :
    (c : Caller) (k : Kernel) (msg : ℕ) (s : LogState) (started : Bool)
    → c.scheduler_started ≡ started
    → length c.stamp ≡ 13
    → length (k.system_state task_info_size) ≤ task_info_size
    → let first = record s { sent = printed c (msg ∷ k.message halting ∷ []) s.sent } in
      (t : LogState) × ((if started
          then print_lines c k.message (state_lines (k.system_state task_info_size)) (done first)
          else ok (done first))
        ≡ ok (done t))
      × PrintsOut c k msg s t
unfolding printed numbers
rest-PrintsOut c k msg s true started stamp few =
    let tasks = k.system_state task_info_size in
    let lines = state_lines tasks in
    let first : LogState = record s { sent = printed c (msg ∷ k.message halting ∷ []) s.sent } in
    (
      record s { sent = printed c (msg ∷ numbers k.message (halting ∷ lines)) s.sent },
      print_lines-printed c k.message lines first,
      record {
        lines = halting ∷ lines;
        chosen = rw started (state_lines-Lines tasks);
        sent = refl;
        cut = All-IsMessage c (msg ∷ numbers k.message (halting ∷ lines)) stamp;
        bounded = omega (arith, length-state_lines tasks few);
      },
    )
rest-PrintsOut c k msg s false started stamp few = (
  record s { sent = printed c (msg ∷ k.message halting ∷ []) s.sent },
  refl,
  record {
    lines = halting ∷ [];
    chosen = early started;
    sent = refl;
    cut = All-IsMessage c (msg ∷ k.message halting ∷ []) stamp;
    bounded = omega arith;
  },
)

-- Panic with a message halts the machine from any state of the logger, also one in which other
-- messages wait without an end. With a time stamp of 13 characters and a kernel that reports at
-- most as many tasks as there is room for, it has changed nothing but to send, at once and in this
-- order, the message, the line that it halts and, once the scheduler runs, a line on the state of
-- each task under a title of three lines, or one line if the kernel reports no tasks: at most
-- twelve lines after the message, each with its time stamp and cut to 255 bytes.
pub log_panic-PrintsOut :
    (c : Caller) (k : Kernel) (msg : ℕ) (s : LogState)
    → length c.stamp ≡ 13
    → length (k.system_state task_info_size) ≤ task_info_size
    → (t : LogState) × (log_panic c k msg s ≡ ok (done t)) × PrintsOut c k msg s t
unfolding log_panic panic_halt print_lines log_directly printed
log_panic-PrintsOut c k msg s stamp few =
    rw (log-direct c msg s, error-direct c (k.message halting) (log_directly c msg s))
      (rest-PrintsOut c k msg s c.scheduler_started refl stamp few)
