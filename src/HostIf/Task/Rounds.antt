-- ===== src/HostIf/Task/Rounds.antt =====
-- Whole exchanges with the host through Sources/HostIf/Task.cpp.
use blazenet_device_fw.Prelude.{
  bind-ok, is_err, ℕ, zero, suc, ◌∷◌, ◌<◌, ◌≡◌, refl, min, true, false, Option, none, some, List,
  [], length, get_elem?, ltb, ltb→lt, Bool-cases, ◌⊎◌, inl, inr, leb, ◌==◌, ℤ, negsuc, Outcome, ok,
  fault, ◌>>=◌, arith,
}
use blazenet_device_fw.HostIf.Handlers.{copy_to, read_packet_read, read_popped}
use blazenet_device_fw.HostIf.Interrupt.{union, command_error_irq}
use blazenet_device_fw.HostIf.Irq.{IrqManager}
use blazenet_device_fw.HostIf.Irq
use blazenet_device_fw.HostIf.Watchdog.{kick}
use blazenet_device_fw.HostIf.Task.{
  Command, no_op, get_info, radio_config, get_status, irq_config, get_packet_queue_status,
  read_packet, transmit_packet, beacon_config, get_counters, irq_status, num_commands, handlers,
  flags, read_of, write_of, post_of, idle, header, payload_of, HostTask, arm, read_command,
  read_payload, note_write, dispatch_command, dispatch_post_read, respond, dispatch_with_response,
  max_payload_size, number, process_handled, uninterrupted, process_command, header_done,
  payload_done, response_done,
}
use blazenet_device_fw.Packet.Rx.{pop_rx_queue}
use blazenet_device_fw.System.{System, Env, on_irq}

-- After a write that returned an error the error flag is set and the command error interrupt is
-- raised; after any other the flag is clear; and nothing else has changed.
pub record Notes (r : ℤ × System) (t : System) : Type 0 where
  pub raised :
      is_err r.0 ≡ true
      → (t.error_flag ≡ true)
        × (t.irq.active.command_error ≡ true)
        × (t ≡ record (r.1) { error_flag = true; irq = t.irq })
  pub clear : is_err r.0 ≡ false → t ≡ record (r.1) { error_flag = false }

assert-raises : (m : IrqManager) → (Irq.assert command_error_irq m).active.command_error ≡ true
unfolding Irq.assert Irq.update union
assert-raises m = ground arith

note_write-Notes : (r : ℤ × System) → Notes r (note_write r)
unfolding note_write on_irq
note_write-Notes (err, s) = elim (Bool-cases (is_err err)) [
  | inl failed ↦ rw failed (record {
    raised = λ h. (refl, assert-raises s.irq, refl);
    clear = λ h. absurd (cc (h, failed));
  })
  | inr fine ↦ rw fine (record { raised = λ h. absurd (cc (h, fine)); clear = λ h. refl })
]

-- A command that the host writes with a payload: its header, then the payload's bytes.
unfoldable pub write_exchange : Env → ℕ → ℕ → List ℕ → HostTask → Outcome (Option HostTask)
write_exchange env command size bytes t = do
  u ← header_done env true command size t
  payload_done env bytes u

get_elem?-bound {ℓ} :
    {A : Type ℓ} (xs : List A) (i : ℕ) {a : A} → get_elem? xs i ≡ some a → i < length xs
get_elem?-bound [] i h = absurd (cc h)
get_elem?-bound (x ∷ xs) zero h = omega arith
get_elem?-bound (x ∷ xs) (suc i) h = omega (arith, get_elem?-bound xs i h)

-- The state in which the task looks at a header.
abbrev pub at_header : ℕ → ℕ → Command → HostTask → HostTask
at_header command size c t = record t {
  armed = idle;
  command_valid = true;
  command = command;
  payload_length = size;
  handler = some c;
}

header_run :
    (env : Env) (c : Command) (command size : ℕ) (t u : HostTask)
    → get_elem? handlers (number command) ≡ some c
    → process_handled uninterrupted env c (at_header command size c t) ≡ ok u
    → header_done env true command size t ≡ ok (record u { sys = kick u.sys })
unfolding header_done process_command
header_run env c command size t u known run =
    let small : ltb num_commands (number command) ≡ false =
      ground (arith, get_elem?-bound handlers _ known) in
    rw (small, known, run)

-- A command that the host reads: its header, then the whole response.
unfoldable pub read_exchange : Env → ℕ → ℕ → HostTask → Outcome HostTask
read_exchange env command size t = do u ← header_done env true command size t; response_done env u

-- The state in which the payload of a written command is received.
abbrev pub at_payload : ℕ → ℕ → Command → HostTask → HostTask
at_payload command size c t = record (at_header command size c t) {
  sys = kick t.sys;
  armed = payload_of (min size max_payload_size);
  payload_received = 0;
}

-- What follows a response that is sent: nothing, or the routine that the handler wants.
abbrev pub Finishes : Env → Command → System → System → Type 0
Finishes env c s last =
    (((flags c).wants_post_read ≡ false) × (last ≡ s))
    ⊎ (((flags c).wants_post_read ≡ true) × (post_of env c true s ≡ ok last))

-- A handler that refuses a read wants no routine after it: ReadPacket alone wants one, and its reads
-- report no error.
refusing-plain :
    (env : Env) (c : Command) (n : ℕ) (buffer : List ℕ) (s : System) (k : ℕ) (after : List ℕ)
    (u : System)
    → read_of env c n buffer s ≡ ok (negsuc k, after, u)
    → (flags c).wants_post_read ≡ false
unfolding flags read_of read_packet_read read_popped
refusing-plain env read_packet n buffer s k after u h =
    let (r, run, rest) = bind-ok (pop_rx_queue s) (read_popped n buffer) (negsuc k, after, u) h in
    absurd (cc rest)
refusing-plain env no_op n buffer s k after u h = refl
refusing-plain env get_info n buffer s k after u h = refl
refusing-plain env radio_config n buffer s k after u h = refl
refusing-plain env get_status n buffer s k after u h = refl
refusing-plain env irq_config n buffer s k after u h = refl
refusing-plain env get_packet_queue_status n buffer s k after u h = refl
refusing-plain env transmit_packet n buffer s k after u h = refl
refusing-plain env beacon_config n buffer s k after u h = refl
refusing-plain env get_counters n buffer s k after u h = refl
refusing-plain env irq_status n buffer s k after u h = refl

module _ (env : Env) (c : Command) (command size : ℕ) (t : HostTask) where
  pub written_header :
      get_elem? handlers (number command) ≡ some c
      → ltb command 128 ≡ true
      → (size == 0) ≡ false
      → header_done env true command size t ≡ ok (at_payload command size c t)
  unfolding process_handled read_payload arm
  written_header known write some_size =
      let read : leb 128 command ≡ false = ground (arith, write) in
      header_run env c command size t
        (record (at_header command size c t) {
          armed = payload_of (min size max_payload_size);
          payload_received = 0;
        })
        known (rw (some_size, read))

  -- A command that the host writes with a payload runs its handler once, on exactly the bytes
  -- received and a state whose watchdog is kicked. The error flag and the command error interrupt
  -- then follow the handler's result, and the task waits for the next header.
  pub write_exchange-runs :
      (bytes : List ℕ) (r : ℤ × System)
      → get_elem? handlers (number command) ≡ some c
      → ltb command 128 ≡ true
      → (size == 0) ≡ false
      → (length bytes == 0) ≡ false
      → (flags c).supports_write ≡ true
      → write_of env c bytes (kick t.sys) ≡ ok r
      → (u : HostTask) × (write_exchange env command size bytes t ≡ ok (some u))
        × (u.armed ≡ header)
        × Notes r u.sys
  unfolding write_exchange payload_done dispatch_command read_command arm
  write_exchange-runs bytes r known write some_size some_bytes supported runs =
      let u : HostTask = record (at_payload command size c t) {
        sys = note_write r;
        armed = header;
        command_valid = false;
        handler = none;
        payload_received = length bytes;
        buffer = copy_to bytes t.buffer;
      } in
      (
        u,
        rw (written_header known write some_size, some_bytes, supported, runs),
        refl,
        note_write-Notes r,
      )

  read_round :
      (u : HostTask)
      → get_elem? handlers (number command) ≡ some c
      → leb 128 command ≡ true
      → (size == 0) ≡ false
      → dispatch_with_response env c size (at_header command size c t) ≡ ok u
      → header_done env true command size t ≡ ok (record u { sys = kick u.sys })
  unfolding process_handled
  read_round u known read some_size run =
      header_run env c command size t u known (rw (some_size, read) run)

  -- A command that the host reads, and whose handler does not support reads, sets up no transfer at
  -- all: the task waits for an event that no transfer will bring.
  pub header_done-unsupported :
      get_elem? handlers (number command) ≡ some c
      → leb 128 command ≡ true
      → (size == 0) ≡ false
      → (flags c).supports_read ≡ false
      → (u : HostTask) × (header_done env true command size t ≡ ok u)
        × (u.armed ≡ idle)
        × (u.sys ≡ kick t.sys)
  unfolding dispatch_with_response
  header_done-unsupported known read some_size unsupported =
      let u = at_header command size c t in
      (
        record u { sys = kick u.sys },
        read_round u known read some_size (rw unsupported),
        refl,
        refl,
      )

  -- The same holds when the handler reports an error; the error flag is set then, and the command
  -- error interrupt is raised.
  pub header_done-failed :
      (n : ℕ) (buffer : List ℕ) (s : System)
      → get_elem? handlers (number command) ≡ some c
      → leb 128 command ≡ true
      → (size == 0) ≡ false
      → (flags c).supports_read ≡ true
      → read_of env c size t.buffer t.sys ≡ ok (negsuc n, buffer, s)
      → (u : HostTask) × (header_done env true command size t ≡ ok u)
        × (u.armed ≡ idle)
        × (u.sys ≡ kick (on_irq (Irq.assert command_error_irq) (record s { error_flag = true })))
  unfolding dispatch_with_response respond dispatch_post_read
  header_done-failed n buffer s known read some_size supported runs =
      let plain = refusing-plain env c size t.buffer t.sys n buffer s runs in
      let u : HostTask = record (at_header command size c t) {
        sys = on_irq (Irq.assert command_error_irq) (record s { error_flag = true });
        buffer = buffer;
      } in
      (
        record u { sys = kick u.sys },
        read_round u known read some_size (rw (supported, runs, plain)),
        refl,
        refl,
      )

-- A command number without a handler: the number 11 is looked up past the end of the handler
-- table, and any other only makes the task wait for the next header.
pub header_done-unknown :
    (env : Env) (command size : ℕ) (t : HostTask)
    → 10 < number command
    → ((number command ≡ 11) × (header_done env true command size t ≡ fault))
      ⊎ ((11 < number command)
          × ((u : HostTask) × (header_done env true command size t ≡ ok u)
              × (u.armed ≡ header)
              × (u.sys ≡ kick t.sys)))
unfolding header_done process_command read_command arm
header_done-unknown env command size t large =
    let u : HostTask = record t {
      sys = kick t.sys;
      armed = header;
      command_valid = false;
      command = command;
      payload_length = size;
      handler = none;
    } in
    elim (Bool-cases (ltb 11 (number command))) [
      | inr last ↦ (let e : number command ≡ 11 = ground (arith, last) in inl (e, rw (last, e)))
      | inl beyond ↦ inr (ltb→lt _ _ beyond, (u, rw beyond, refl, refl))
    ]
