-- ===== src/Log/Logger/Uart.antt =====
-- What Sources/Log/Logger.cpp makes of a message that the UART's driver does not take.
use blazenet_device_fw.Prelude.{
  ℕ, ◌≡◌, refl, sym, subst, ltb, ap, ◌∙◌, ◌⊎◌, inl, inr, Bool, true, false, not, ◌||◌, Bool-cases,
  List, [], ◌∷◌, if◌then◌else◌, Outcome, ok, panic, ◌>>=◌,
}
use blazenet_device_fw.Log.Logger.Messages.{task_buffer-cases}
use blazenet_device_fw.Log.Logger.{
  Level, error, warning, notice, debug, trace, level_number, Buffer, LogState, Caller, Progress,
  done, waiting, log_directly, log_queued, log, task_buffer, transmit_complete, filtered, log_at,
}

-- The semaphore is taken, and no callback will give it.
abbrev pub IsStuck : LogState → Type 0
IsStuck s = (s.uart_completion ≡ false) × (s.callback_due ≡ false)

-- A call of the logger, or the driver's callback.
pub data Event : Type 0 where
  call : Level → Caller → ℕ → Event
  callback : Event

-- What is left after a call; a panic halts the system.
abbrev pub left_by : LogState → Outcome Progress → LogState
left_by s (ok (done s1)) = s1
left_by s (ok (waiting s1)) = s1
left_by s panic = s
left_by s Outcome.fault = s

unfoldable pub after : List Event → LogState → LogState
after [] s = s
after (call l c msg ∷ es) s = after es (left_by s (log_at l c msg s))
after (callback ∷ es) s = after es (transmit_complete s)

abbrev pub Waits : Outcome Progress → Type 0
Waits m = ((s1 : LogState) × (m ≡ ok (waiting s1)) × IsStuck s1) ⊎ (m ≡ panic)

unchanged : (due : Bool) (x y : LogState) → due ≡ false → (if due then x else y) ≡ y
unchanged true x y h = absurd (cc h)
unchanged false x y h = refl

not_free : (free : Bool) (x y : Progress) → free ≡ false → (if free then x else y) ≡ y
not_free true x y h = absurd (cc h)
not_free false x y h = refl

queued-waits :
    (c : Caller) (msg : ℕ) (b : Buffer) (s : LogState)
    → IsStuck s
    → log_queued c msg b s ≡ waiting s
unfolding log_queued
queued-waits c msg b s h = not_free s.uart_completion _ (waiting s) h.0

by_queue-Waits :
    (c : Caller) (msg : ℕ) (s : LogState)
    → IsStuck s
    → Waits (
        task_buffer c s (s.log_buffer c.task) >>= λ (r : Buffer × LogState).
        ok (log_queued c msg r.0 r.1))
by_queue-Waits c msg s h = elim (task_buffer-cases c s (s.log_buffer c.task)) [
  | inl (b, s1, run, sent, same, due) ↦
      (let h1 : IsStuck s1 = (same ∙ h.0, due ∙ h.1) in
        inl (s1, rw (run, queued-waits c msg b s1 h1), h1))
  | inr (failed, none_left) ↦ inr (rw failed)
]

buffered-Waits :
    (c : Caller) (msg : ℕ) (s : LogState)
    → c.scheduler_started ≡ true
    → IsStuck s
    → Waits (log c true msg s)
unfolding log
buffered-Waits c msg s started h =
    let queue : (not c.scheduler_started || not true) ≡ false =
      ap (λ b. not b || not true) started in
    rw queue (by_queue-Waits c msg s h)

direct-IsStuck : (c : Caller) (msg : ℕ) (s : LogState) → IsStuck s → IsStuck (log_directly c msg s)
unfolding log_directly
direct-IsStuck c msg s h = h

Waits-IsStuck : (s : LogState) (m : Outcome Progress) → IsStuck s → Waits m → IsStuck (left_by s m)
Waits-IsStuck s m h (inl (s1, run, h1)) = rw run h1
Waits-IsStuck s m h (inr failed) = rw failed h

log-IsStuck :
    (c : Caller) (buffered : Bool) (msg : ℕ) (s : LogState)
    → IsStuck s
    → IsStuck (left_by s (log c buffered msg s))
unfolding log
log-IsStuck c buffered msg s h = elim (Bool-cases (not c.scheduler_started || not buffered)) [
  | inl now ↦ rw now (direct-IsStuck c msg s h)
  | inr later ↦ rw later (Waits-IsStuck s _ h (by_queue-Waits c msg s h))
]

filtered-IsStuck :
    (l : Level) (c : Caller) (msg : ℕ) (s : LogState)
    → IsStuck s
    → IsStuck (left_by s (filtered l c msg s))
unfolding filtered
filtered-IsStuck l c msg s h = elim (Bool-cases (ltb (level_number l) (level_number s.level))) [
  | inl low ↦ rw low h
  | inr passes ↦ rw passes (log-IsStuck c true msg s h)
]

call-IsStuck :
    (l : Level) (c : Caller) (msg : ℕ) (s : LogState)
    → IsStuck s
    → IsStuck (left_by s (log_at l c msg s))
unfolding log_at
call-IsStuck error c msg s h = log-IsStuck c false msg s h
call-IsStuck warning c msg s h = filtered-IsStuck warning c msg s h
call-IsStuck notice c msg s h = filtered-IsStuck notice c msg s h
call-IsStuck debug c msg s h = filtered-IsStuck debug c msg s h
call-IsStuck trace c msg s h = filtered-IsStuck trace c msg s h

no_callback : (s : LogState) → IsStuck s → IsStuck (transmit_complete s)
unfolding transmit_complete
no_callback s h = elim (Bool-cases s.callback_due) [
  | inl due ↦ absurd (cc (due, h.1))
  | inr none_due ↦ subst IsStuck (sym (unchanged s.callback_due _ s none_due)) h
]

after-IsStuck : (es : List Event) (s : LogState) → IsStuck s → IsStuck (after es s)
unfolding after
after-IsStuck [] s h = h
after-IsStuck (call l c msg ∷ es) s h = after-IsStuck es _ (call-IsStuck l c msg s h)
after-IsStuck (callback ∷ es) s h = after-IsStuck es _ (no_callback s h)

going_on :
    (free : Bool) (x y s1 : LogState) → (if free then done x else waiting y) ≡ done s1 → x ≡ s1
going_on true x y s1 h = cc h
going_on false x y s1 h = absurd (cc h)

refused_queue :
    (c : Caller) (msg : ℕ) (b : Buffer) (s s1 : LogState)
    → c.takes_message ≡ false
    → log_queued c msg b s ≡ done s1
    → IsStuck s1
unfolding log_queued
refused_queue c msg b s s1 refused run =
    subst IsStuck (going_on s.uart_completion _ s s1 run) (refl, refused)

refused_log :
    (c : Caller) (msg : ℕ) (s s1 : LogState)
    → c.scheduler_started ≡ true
    → c.takes_message ≡ false
    → log c true msg s ≡ ok (done s1)
    → IsStuck s1
unfolding log
refused_log c msg s s1 started refused run =
    let queue : (not c.scheduler_started || not true) ≡ false =
      ap (λ b. not b || not true) started in
    let by_queue = rw queue at run in
    elim (task_buffer-cases c s (s.log_buffer c.task)) [
      | inl (b, s2, got, sent, same, due) ↦
          (let asked = rw got at by_queue in
            let going : log_queued c msg b s2 ≡ done s1 = cc asked in
            refused_queue c msg b s2 s1 refused going)
      | inr (failed, none_left) ↦ absurd (cc (rw failed at by_queue))
    ]

-- After a message that the UART driver does not take, and any further calls of the logger and
-- callbacks of the driver, every buffered message that is not filtered waits without an end, or
-- panics for want of memory.
pub refused-Waits :
    (c : Caller) (msg : ℕ) (s s1 : LogState) (es : List Event) (next : Caller) (later : ℕ)
    → c.scheduler_started ≡ true
    → c.takes_message ≡ false
    → log c true msg s ≡ ok (done s1)
    → next.scheduler_started ≡ true
    → Waits (log next true later (after es s1))
refused-Waits c msg s s1 es next later started refused run running =
    buffered-Waits next later (after es s1) running
      (after-IsStuck es s1 (refused_log c msg s s1 started refused run))
