-- ===== src/Log/Logger/Messages.antt =====
-- What a call of Sources/Log/Logger.h hands to the UART.
use blazenet_device_fw.Prelude.{
  ℕ, ◌-◌, ◌≤◌, ◌<◌, ◌≡◌, refl, sym, ap, ◌∙◌, ◌⊎◌, inl, inr, Bool, true, false, not, ◌||◌,
  Bool-cases, Option, none, some, Option-cases, List, ◌∷◌, ◌++◌, length, length-append, length-take,
  take, take_all, ltb, ltb→lt, ltb→le, leb, if◌then◌else◌, Outcome, ok, panic, ◌>>=◌, arith,
}
use blazenet_device_fw.Log.Logger.{
  Level, error, warning, notice, debug, trace, level_number, Buffer, static_buffer,
  allocated_buffer, queued, force_transmitted, LogState, Caller, Progress, done, waiting,
  written_text, message_bytes, newline, log_directly, assign, allocate_buffer, new_buffer,
  task_buffer, log_queued, log, filtered, log_at,
}

-- The time stamp, and as much of the text as the buffer of 256 bytes has room for.
pub record IsMessage (c : Caller) (msg : ℕ) (bytes : List ℕ) : Type 0 where
  pub body : List ℕ
  pub stamped : bytes ≡ c.stamp ++ body
  pub bounded : length bytes ≤ 255
  pub cut : (text : List ℕ) → c.render msg ≡ some text → body ≡ take 242 text

cut_text :
    (text : List ℕ) (b : Bool)
    → leb 243 (length text) ≡ b
    → take (if b then 242 else length text) text ≡ take 242 text
cut_text text true e = refl
cut_text text false e =
    let short : length text ≤ 242 = ground arith in
    take_all (length text) text (omega arith) ∙ sym (take_all 242 text short)

written_text-cut : (text stale : List ℕ) → written_text (some text) stale 243 ≡ take 242 text
unfolding written_text
written_text-cut text stale = cut_text text _ refl

written_text-length :
    (r : Option (List ℕ)) (stale : List ℕ) → length (written_text r stale 243) ≤ 242
unfolding written_text
written_text-length none stale = omega (arith, length-take 242 stale)
written_text-length (some text) stale =
    omega (arith, ap length (written_text-cut text stale), length-take 242 text)

pub message_bytes-IsMessage :
    (c : Caller) (msg : ℕ) → length c.stamp ≡ 13 → IsMessage c msg (message_bytes c msg)
unfolding message_bytes
message_bytes-IsMessage c msg stamp =
    let body = written_text (c.render msg) c.stale 243 in
    let stamped : message_bytes c msg ≡ c.stamp ++ body =
      ap (λ n. c.stamp ++ written_text (c.render msg) c.stale (256 - n)) stamp in
    let room = written_text-length (c.render msg) c.stale in
    record {
      body = body;
      stamped = stamped;
      bounded = omega (arith, stamp, ap length stamped, length-append c.stamp body, room);
      cut = λ text e. ap (λ r. written_text r c.stale 243) e ∙ written_text-cut text c.stale;
    }

-- The calls of Logger by their end: the message is filtered, sent at once, handed to the UART's
-- queue in a buffer, still waiting for the UART, or there is no memory for a buffer.
pub data Logs (l : Level) (c : Caller) (msg : ℕ) (s : LogState) : Outcome Progress → Type 0 where
  dropped : level_number l < level_number s.level → Logs l c msg s (ok (done s))
  direct :
      (s1 : LogState) (bytes : List ℕ)
      → level_number s.level ≤ level_number l
      → IsMessage c msg bytes
      → s1.sent ≡ force_transmitted newline ∷ force_transmitted bytes ∷ s.sent
      → s1.uart_completion ≡ s.uart_completion
      → Logs l c msg s (ok (done s1))
  handed :
      (s1 : LogState) (b : Buffer) (bytes : List ℕ)
      → level_number s.level ≤ level_number l
      → IsMessage c msg bytes
      → s.uart_completion ≡ true
      → s1.sent ≡ queued b newline ∷ queued b bytes ∷ s.sent
      → s1.uart_completion ≡ false
      → Logs l c msg s (ok (done s1))
  blocked :
      (s1 : LogState)
      → level_number s.level ≤ level_number l
      → s.uart_completion ≡ false
      → s1.sent ≡ s.sent
      → Logs l c msg s (ok (waiting s1))
  no_memory : c.allocation ≡ none → Logs l c msg s panic

log_directly-Logs :
    (l : Level) (c : Caller) (msg : ℕ) (s : LogState)
    → level_number s.level ≤ level_number l
    → length c.stamp ≡ 13
    → Logs l c msg s (ok (done (log_directly c msg s)))
unfolding log_directly
log_directly-Logs l c msg s passes stamp =
    direct _ (message_bytes c msg) passes (message_bytes-IsMessage c msg stamp) refl refl

-- The end of the call, by whether the UART is free.
queue_ends :
    (l : Level) (c : Caller) (msg : ℕ) (s s1 started : LogState) (free : Bool) (b : Buffer)
    → level_number s.level ≤ level_number l
    → length c.stamp ≡ 13
    → s.uart_completion ≡ free
    → s1.sent ≡ s.sent
    → started.sent ≡ queued b newline ∷ queued b (message_bytes c msg) ∷ s.sent
    → started.uart_completion ≡ false
    → Logs l c msg s (ok (if free then done started else waiting s1))
queue_ends l c msg s s1 started true b passes stamp free sent asked held =
    handed started b (message_bytes c msg) passes (message_bytes-IsMessage c msg stamp) free asked
      held
queue_ends l c msg s s1 started false b passes stamp taken sent asked held =
    blocked s1 passes taken sent

log_queued-Logs :
    (l : Level) (c : Caller) (msg : ℕ) (b : Buffer) (s s1 : LogState)
    → level_number s.level ≤ level_number l
    → length c.stamp ≡ 13
    → s1.sent ≡ s.sent
    → s1.uart_completion ≡ s.uart_completion
    → Logs l c msg s (ok (log_queued c msg b s1))
unfolding log_queued
log_queued-Logs l c msg b s s1 passes stamp sent same =
    queue_ends l c msg s s1 _ s1.uart_completion b passes stamp (sym same) sent
      (ap (λ older. queued b newline ∷ queued b (message_bytes c msg) ∷ older) sent) refl

-- A new buffer is the static one if it is still free, or is allocated.
new_buffer-cases :
    (c : Caller) (s : LogState)
    → ((b : Buffer) × (new_buffer c s ≡ ok b)) ⊎ ((new_buffer c s ≡ panic) × (c.allocation ≡ none))
unfolding new_buffer allocate_buffer
new_buffer-cases c s =
    let choose : Bool → Outcome Buffer =
      λ used. if used then allocate_buffer c.allocation else ok static_buffer in
    elim (Bool-cases s.log_buffer_assigned) [
      | inr unused ↦ inl (static_buffer, ap choose unused)
      | inl used ↦ elim (Option-cases c.allocation) [
        | inl none_left ↦ inr (ap choose used ∙ ap allocate_buffer none_left, none_left)
        | inr (p, got) ↦ inl (allocated_buffer p, ap choose used ∙ ap allocate_buffer got)
      ]
    ]

-- A task's buffer is there already, is new, or cannot be had.
pub task_buffer-cases :
    (c : Caller) (s : LogState) (held : Option Buffer)
    → ((b : Buffer) × (s1 : LogState) × (task_buffer c s held ≡ ok (b, s1))
        × (s1.sent ≡ s.sent)
        × (s1.uart_completion ≡ s.uart_completion)
        × (s1.callback_due ≡ s.callback_due))
      ⊎ ((task_buffer c s held ≡ panic) × (c.allocation ≡ none))
unfolding task_buffer assign
task_buffer-cases c s (some b) = inl (b, s, refl, refl, refl, refl)
task_buffer-cases c s none =
    let keep : Outcome Buffer → Outcome (Buffer × LogState) =
      λ m. m >>= λ b. ok (b, assign c.task b s) in
    elim (new_buffer-cases c s) [
      | inl (b, got) ↦ inl (b, assign c.task b s, ap keep got, refl, refl, refl)
      | inr (failed, none_left) ↦ inr (ap keep failed, none_left)
    ]

log-Logs :
    (l : Level) (c : Caller) (buffered : Bool) (msg : ℕ) (s : LogState)
    → level_number s.level ≤ level_number l
    → length c.stamp ≡ 13
    → Logs l c msg s (log c buffered msg s)
unfolding log
log-Logs l c buffered msg s passes stamp =
    elim (Bool-cases (not c.scheduler_started || not buffered)) [
      | inl now ↦ rw now (log_directly-Logs l c msg s passes stamp)
      | inr later ↦ elim (task_buffer-cases c s (s.log_buffer c.task)) [
        | inl (b, s1, run, sent, same, due) ↦
            rw (later, run) (log_queued-Logs l c msg b s s1 passes stamp sent same)
        | inr (failed, none_left) ↦ rw (later, failed) (no_memory none_left)
      ]
    ]

filtered-Logs :
    (l : Level) (c : Caller) (msg : ℕ) (s : LogState)
    → length c.stamp ≡ 13
    → Logs l c msg s (filtered l c msg s)
unfolding filtered
filtered-Logs l c msg s stamp = elim (Bool-cases (ltb (level_number l) (level_number s.level))) [
  | inl low ↦ rw low (dropped (ltb→lt _ _ low))
  | inr passes ↦ rw passes (log-Logs l c true msg s (ltb→le _ _ passes) stamp)
]

error_passes : (l : Level) → level_number l ≤ 5
unfolding level_number
error_passes error = omega arith
error_passes warning = omega arith
error_passes notice = omega arith
error_passes debug = omega arith
error_passes trace = omega arith

-- With a time stamp of 13 characters, a call of the logger drops the message only if its level is
-- below the threshold. Otherwise it hands the time stamp and the first 242 characters of the
-- text, 255 bytes at most, to the UART, at once or in a buffer with the semaphore taken; or it
-- waits with nothing sent as the semaphore is taken; or it panics as there is no memory for a
-- buffer.
pub log_at-Logs :
    (l : Level) (c : Caller) (msg : ℕ) (s : LogState)
    → length c.stamp ≡ 13
    → Logs l c msg s (log_at l c msg s)
unfolding log_at level_number
log_at-Logs error c msg s stamp = log-Logs error c false msg s (error_passes s.level) stamp
log_at-Logs warning c msg s stamp = filtered-Logs warning c msg s stamp
log_at-Logs notice c msg s stamp = filtered-Logs notice c msg s stamp
log_at-Logs debug c msg s stamp = filtered-Logs debug c msg s stamp
log_at-Logs trace c msg s stamp = filtered-Logs trace c msg s stamp
