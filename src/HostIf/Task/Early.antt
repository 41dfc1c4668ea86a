-- ===== src/HostIf/Task/Early.antt =====
-- The end of a payload's transfer in Sources/HostIf/Task.cpp, in two parts: the callback of
-- ReadPayload, which an interrupt runs, and the round of the main loop.
use blazenet_device_fw.Prelude.{
  leb, false, arith, ℕ, ◌∷◌, ◌++◌, ◌≡◌, refl, ap, ◌∙◌, true, false, Option, none, some, List, [],
  length, take, drop, get_elem?, ltb, ◌==◌, if◌then◌else◌, Outcome, ok, ◌>>=◌, deref,
}
use blazenet_device_fw.HostIf.Handlers.{copy_to}
use blazenet_device_fw.HostIf.Watchdog.{kick}
use blazenet_device_fw.HostIf.Task.{
  Command, handlers, idle, HostTask, process_handled, arm, read_command, read_payload,
  dispatch_command, number, payload_done,
}
use blazenet_device_fw.HostIf.Task.Rounds.{at_header, at_payload, write_exchange, written_header}
use blazenet_device_fw.System.{Env}

-- The callback: the bytes are in the buffer, and their number is noted.
abbrev pub payload_callback : List ℕ → HostTask → HostTask
payload_callback bytes t = record t {
  armed = idle;
  payload_received = length bytes;
  buffer = copy_to bytes t.buffer;
}

-- The round of the main loop: `none` if it leaves the loop.
unfoldable pub payload_round : Env → HostTask → Outcome (Option HostTask)
payload_round env t = if t.payload_received == 0 then ok none else (do
  c ← deref t.handler
  u ← dispatch_command env c (take t.payload_received t.buffer) t
  v ← read_command u
  ok (some v))

-- The rounds of the header and of the payload, with the callback of the payload as an interrupt of
-- ProcessCommand between ReadPayload and the assignment that follows it.
unfoldable pub interrupted_exchange : Env → List ℕ → Command → HostTask → Outcome (Option HostTask)
interrupted_exchange env bytes c t = do
  u ← process_handled (payload_callback bytes) env c t
  payload_round env (record u { sys = kick u.sys })

take-length {ℓ} : {A : Type ℓ} (xs ys : List A) → take (length xs) (xs ++ ys) ≡ xs
take-length [] [] = refl
take-length [] (y ∷ ys) = refl
take-length (x ∷ xs) ys = ap (λ zs. x ∷ zs) (take-length xs ys)

-- A callback and the round that it wakes are the step of a payload.
payload_done-round :
    (env : Env) (bytes : List ℕ) (t : HostTask)
    → payload_done env bytes t ≡ payload_round env (payload_callback bytes t)
unfolding payload_done payload_round copy_to
payload_done-round env bytes t = rw (take-length bytes (drop (length bytes) t.buffer)) refl

-- A command that has a handler and that the host writes with a payload, whatever bytes are then
-- received. If the callback runs after ProcessCommand, the exchange ends as the round on those bytes.
-- If it interrupts ProcessCommand between ReadPayload and the last assignment, the main loop is left.
pub exchange_order :
    (env : Env) (c : Command) (command size : ℕ) (bytes : List ℕ) (t : HostTask)
    → get_elem? handlers (number command) ≡ some c
    → ltb command 128 ≡ true
    → (size == 0) ≡ false
    → (write_exchange env command size bytes t
        ≡ payload_round env (payload_callback bytes (at_payload command size c t)))
      × (interrupted_exchange env bytes c (at_header command size c t) ≡ ok none)
unfolding write_exchange interrupted_exchange process_handled read_payload payload_round arm
exchange_order env c command size bytes t known write some_size =
    let below : leb 128 command ≡ false = ground (arith, write) in
    (
      ap (λ m. m >>= payload_done env bytes)
            (written_header env c command size t known write some_size)
          ∙ payload_done-round env bytes (at_payload command size c t),
      rw (some_size, below) refl,
    )
