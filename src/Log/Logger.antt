-- ===== src/Log/Logger.antt =====
-- Sources/Log/Logger.h and Logger.cpp: filtering, formatting and sending of log messages.
--
-- A message is its rendered text: `render` and `stamp` stand for vsnprintf and snprintf, which write
-- at most one character less than the size given and return the full length, or a negative number.
-- The trace output is off (kEnableTraceSwo), and the UART on. Taking the UART's semaphore can
-- block, which `waiting` says. A failed REQUIRE of the logger itself is `Outcome.panic`.
use blazenet_device_fw.Prelude.{
  ℕ, ◌+◌, ◌-◌, Bool, true, false, not, ◌||◌, ◌&&◌, Option, none, some, List, [], ◌∷◌, ◌++◌, length,
  take, ltb, leb, ◌==◌, if◌then◌else◌, Outcome, ok, panic, ◌>>=◌,
}
pub mod Messages
pub mod Panic
pub mod Uart

-- Level, by its number
pub data Level : Type 0 where
  error warning notice debug trace : Level

unfoldable pub level_number : Level → ℕ
level_number error = 5
level_number warning = 4
level_number notice = 3
level_number debug = 2
level_number trace = 1

-- kTaskLogBufferSize
abbrev pub task_log_buffer_size : ℕ
task_log_buffer_size = 256

-- gLogBuffer, or memory at an address.
pub data Buffer : Type 0 where
  static_buffer : Buffer
  allocated_buffer : ℕ → Buffer

-- A transmission that the UART was asked for: in the background, or while the caller waits.
pub data Sent : Type 0 where
  queued : Buffer → List ℕ → Sent
  force_transmitted : List ℕ → Sent

pub record LogState : Type 0 where
  pub level : Level
  pub log_buffer_assigned : Bool
  -- the thread-local pointer of each task
  pub log_buffer : ℕ → Option Buffer
  -- gUartCompletion, and whether its callback is still to come
  pub uart_completion : Bool
  pub callback_due : Bool
  -- newest first
  pub sent : List Sent

-- What surrounds one call: the task that makes it, and what the libraries answer.
pub record Caller : Type 0 where
  pub task : ℕ
  pub scheduler_started : Bool
  pub allocation : Option ℕ
  -- the time stamp
  pub stamp : List ℕ
  -- the text of a message, if it can be formatted, and what lies in the buffer otherwise
  pub render : ℕ → Option (List ℕ)
  pub stale : List ℕ
  -- whether UARTDRV_Transmit takes the message
  pub takes_message : Bool

pub data Progress : Type 0 where
  done waiting : LogState → Progress

-- What of a message is in a buffer of the size given, and is counted in bytesWritten. A negative
-- count is compared as a size_t, so it is cut like one that is too large.
unfoldable pub written_text : Option (List ℕ) → List ℕ → ℕ → List ℕ
written_text none stale size = take (size - 1) stale
written_text (some text) stale size =
    take (if leb size (length text) then size - 1 else length text) text

unfoldable pub message_bytes : Caller → ℕ → List ℕ
message_bytes c msg =
    let num_chars = length c.stamp in
    c.stamp ++ written_text (c.render msg) c.stale (task_log_buffer_size - num_chars)

abbrev pub newline : List ℕ
newline = 13 ∷ 10 ∷ []

-- Log before the scheduler runs, or for a message that is not buffered.
unfoldable pub log_directly : Caller → ℕ → LogState → LogState
log_directly c msg s = record s {
  sent = force_transmitted newline ∷ force_transmitted (message_bytes c msg) ∷ s.sent;
}

unfoldable pub assign : ℕ → Buffer → LogState → LogState
assign task b s = record s {
  log_buffer_assigned = true;
  log_buffer = λ t. if t == task then some b else s.log_buffer t;
}

unfoldable pub allocate_buffer : Option ℕ → Outcome Buffer
allocate_buffer none = panic
allocate_buffer (some p) = ok (allocated_buffer p)

-- The buffer of a task that has none yet.
unfoldable pub new_buffer : Caller → LogState → Outcome Buffer
new_buffer c s = if s.log_buffer_assigned then allocate_buffer c.allocation else ok static_buffer

unfoldable pub task_buffer : Caller → LogState → Option Buffer → Outcome (Buffer × LogState)
task_buffer c s (some b) = ok (b, s)
task_buffer c s none = do b ← new_buffer c s; ok (b, assign c.task b s)

-- Log through the UART's queue. The driver's status is ignored; a message that it does not take has
-- no callback.
unfoldable pub log_queued : Caller → ℕ → Buffer → LogState → Progress
log_queued c msg b s =
    let started = record s {
      uart_completion = false;
      callback_due = c.takes_message;
      sent = queued b newline ∷ queued b (message_bytes c msg) ∷ s.sent;
    } in
    if s.uart_completion then done started else waiting s

unfoldable pub log : Caller → Bool → ℕ → LogState → Outcome Progress
log c buffered msg s =
    let by_queue = (do
      (b, s1) ← task_buffer c s (s.log_buffer c.task)
      ok (log_queued c msg b s1)) in
    if not c.scheduler_started || not buffered then ok (done (log_directly c msg s)) else by_queue

-- The callback of the transmission.
unfoldable pub transmit_complete : LogState → LogState
transmit_complete s =
    if s.callback_due then record s { uart_completion = true; callback_due = false } else s

unfoldable pub filtered : Level → Caller → ℕ → LogState → Outcome Progress
filtered l c msg s =
    if ltb (level_number l) (level_number s.level) then ok (done s) else log c true msg s

-- Logger::Error, Warning, Notice, Debug and Trace
unfoldable pub log_at : Level → Caller → ℕ → LogState → Outcome Progress
log_at error c msg s = log c false msg s
log_at warning c msg s = filtered warning c msg s
log_at notice c msg s = filtered notice c msg s
log_at debug c msg s = filtered debug c msg s
log_at trace c msg s = filtered trace c msg s

-- do_log, where `invalid` is the message on an unknown level.
unfoldable pub do_log : ℕ → ℕ → Caller → ℕ → LogState → Outcome Progress
do_log in_level invalid c msg s =
    if leb 1 in_level && leb in_level 5 then log c false msg s else log_at error c invalid s
