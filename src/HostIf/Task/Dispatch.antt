-- ===== src/HostIf/Task/Dispatch.antt =====
-- What a command leads to in Sources/HostIf/Task.cpp: a transfer that is set up, or none.
use blazenet_device_fw.Prelude.{
  ℕ, ◌<◌, ◌≤◌, ◌≡◌, refl, sym, ap, ◌∙◌, subst, min, Bool, true, false, none, some, List, [], length,
  length-take, take, ltb, ltb→lt, ltb→le, Bool-cases, ◌⊎◌, inl, inr, leb, ◌==◌, ℤ, pos, negsuc,
  Outcome, ok, panic, fault, ◌>>=◌, ◌>>◌, require, arith,
}
use blazenet_device_fw.HostIf.Interrupt.{command_error_irq}
use blazenet_device_fw.HostIf.Irq
use blazenet_device_fw.HostIf.Task.{
  Command, flags, read_of, write_of, post_of, Armed, idle, header, payload_of, response, HostTask,
  arm, read_command, read_payload, note_write, dispatch_command, dispatch_post_read, respond,
  dispatch_with_response, max_payload_size, process_handled, uninterrupted,
}
use blazenet_device_fw.System.{System, Env, on_irq}

abbrev pub Stops {ℓ} : {A : Type ℓ} → Outcome A → Type ℓ
Stops m = (m ≡ panic) ⊎ (m ≡ fault)

Outcome-cases {ℓ} : {A : Type ℓ} (m : Outcome A) → ((a : A) × (m ≡ ok a)) ⊎ Stops m
Outcome-cases (ok a) = inl (a, refl)
Outcome-cases panic = inr (inl refl)
Outcome-cases fault = inr (inr refl)

pub Stops-bind {ℓ κ} :
    {A : Type ℓ} {B : Type κ} (m : Outcome A) (f : A → Outcome B) → Stops m → Stops (m >>= f)
Stops-bind m f (inl h) = inl (ap (λ x. x >>= f) h)
Stops-bind m f (inr h) = inr (ap (λ x. x >>= f) h)

-- The routine after a write or a read, of a handler that has one, does not return.
abbrev pub WriteStops : Env → Command → List ℕ → System → Type 0
WriteStops env c payload s = ((flags c).supports_write ≡ true) × Stops (write_of env c payload s)

abbrev pub PostStops : Env → Command → Bool → System → Type 0
PostStops env c success s = ((flags c).wants_post_read ≡ true) × Stops (post_of env c success s)

-- What the task leaves of the system when a handler has refused a read.
abbrev pub refusal : System → System
refusal s = on_irq (Irq.assert command_error_irq) (record s { error_flag = true })

-- A routine behind a command that does not return after the command's header, or that returns more
-- bytes than fit the buffer.
pub data HeaderStops (env : Env) (c : Command) (n : ℕ) (buffer : List ℕ) (s : System) : Type 0 where
  writes : WriteStops env c [] s → HeaderStops env c n buffer s
  reads :
      (flags c).supports_read ≡ true
      → Stops (read_of env c n buffer s)
      → HeaderStops env c n buffer s
  refuses :
      (k : ℕ) (after : List ℕ) (u : System)
      → read_of env c n buffer s ≡ ok (negsuc k, after, u)
      → PostStops env c false (refusal u)
      → HeaderStops env c n buffer s
  too_long :
      (k : ℕ) (after : List ℕ) (u : System)
      → read_of env c n buffer s ≡ ok (pos k, after, u)
      → 256 ≤ k
      → HeaderStops env c n buffer s

-- The handler reports an error to a read of so many bytes.
abbrev pub Refuses : Env → Command → ℕ → Type 0
Refuses env c n =
    (buffer : List ℕ) × (s : System) × (k : ℕ) × (after : List ℕ) × (u : System) × (read_of env c n
        buffer s
      ≡ ok (negsuc k, after, u))

-- What is known of the task by the transfer that is set up.
abbrev pub ArmedFor : Env → HostTask → Armed → Type 0
ArmedFor env t header = Unit
ArmedFor env t (payload_of n) = (c : Command) × (t.handler ≡ some c) × (0 < n) × (n ≤ 256)
ArmedFor env t (response bytes) = (c : Command) × (t.handler ≡ some c) × (length bytes ≤ 255)
ArmedFor env t idle =
    (c : Command) × (t.handler ≡ some c)
    × (leb 128 t.command ≡ true)
    × ((t.payload_length == 0) ≡ false)
    × (((flags c).supports_read ≡ false) ⊎ Refuses env c t.payload_length)

abbrev pub IsArmed : Env → HostTask → Type 0
IsArmed env t = ArmedFor env t t.armed

-- A step of the task goes on with a transfer accounted for, or stops for a cause.
abbrev pub Goes : Env → Type 0 → Outcome HostTask → Type 0
Goes env Cause m = ((u : HostTask) × (m ≡ ok u) × IsArmed env u) ⊎ (Stops m × Cause)

pub Goes-causes :
    {C D : Type 0} (env : Env) (m : Outcome HostTask) → (C → D) → Goes env C m → Goes env D m
Goes-causes env m f (inl goes) = inl goes
Goes-causes env m f (inr (stuck, why)) = inr (stuck, f why)

pub read_command-header :
    (t : HostTask)
    → t.armed ≡ idle
    → read_command t ≡ ok (record t { armed = header; command_valid = false; handler = none })
unfolding read_command arm
read_command-header t free = rw free

pub dispatch_command-cases :
    (env : Env) (c : Command) (payload : List ℕ) (t : HostTask)
    → ((s : System) × (dispatch_command env c payload t ≡ ok (record t { sys = s })))
      ⊎ (Stops (dispatch_command env c payload t) × WriteStops env c payload t.sys)
unfolding dispatch_command
dispatch_command-cases env c payload t = elim (Bool-cases ((flags c).supports_write)) [
  | inr no_write ↦ inl (t.sys, rw no_write)
  | inl does_write ↦ elim (Outcome-cases (write_of env c payload t.sys)) [
    | inl (r, run) ↦ inl (note_write r, rw (does_write, run))
    | inr stuck ↦
        inr (rw does_write (Stops-bind (write_of env c payload t.sys) _ stuck), (does_write, stuck))
  ]
]

pub dispatch_post_read-cases :
    (env : Env) (c : Command) (success : Bool) (t : HostTask)
    → ((s : System) × (dispatch_post_read env c success t ≡ ok (record t { sys = s })))
      ⊎ (Stops (dispatch_post_read env c success t) × PostStops env c success t.sys)
unfolding dispatch_post_read
dispatch_post_read-cases env c success t = elim (Bool-cases ((flags c).wants_post_read)) [
  | inr none_wanted ↦ inl (t.sys, rw none_wanted)
  | inl wanted ↦ elim (Outcome-cases (post_of env c success t.sys)) [
    | inl (s, run) ↦ inl (s, rw (wanted, run))
    | inr stuck ↦
        inr (rw wanted (Stops-bind (post_of env c success t.sys) _ stuck), (wanted, stuck))
  ]
]

-- A dispatch, and then the set-up for the next header.
pub then_header :
    {C : Type 0} (env : Env) (m : Outcome HostTask) (t : HostTask)
    → t.armed ≡ idle
    → ((s : System) × (m ≡ ok (record t { sys = s }))) ⊎ (Stops m × C)
    → Goes env C (m >>= read_command)
then_header env m t free (inl (s, run)) =
    let u : HostTask = record t { sys = s } in
    inl (
      record u { armed = header; command_valid = false; handler = none },
      ap (λ x. x >>= read_command) run ∙ read_command-header u free,
      tt,
    )
then_header env m t free (inr (stuck, why)) = inr (Stops-bind m read_command stuck, why)

-- What a step does with the task's record, apart from the state of the rest of the system.
pub keep-ArmedFor :
    (env : Env) (t : HostTask) (s : System) (a : Armed)
    → ArmedFor env t a
    → ArmedFor env (record t { sys = s }) a
keep-ArmedFor env t s idle h = h
keep-ArmedFor env t s header h = h
keep-ArmedFor env t s (payload_of n) h = h
keep-ArmedFor env t s (response bytes) h = h

-- The task has looked at a command with a handler.
pub record Looks (c : Command) (t : HostTask) : Type 0 where
  pub free : t.armed ≡ idle
  pub handled : t.handler ≡ some c

arm-ok : (new : Armed) (t : HostTask) → t.armed ≡ idle → arm new t ≡ ok (record t { armed = new })
unfolding arm
arm-ok new t free = rw free

-- A response that the handler has produced, or its error.
respond-Goes :
    (env : Env) (c : Command) (t : HostTask) (r : ℤ × List ℕ × System)
    → Looks c t
    → leb 128 t.command ≡ true
    → (t.payload_length == 0) ≡ false
    → read_of env c t.payload_length t.buffer t.sys ≡ ok r
    → Goes env (HeaderStops env c t.payload_length t.buffer t.sys) (respond env c t r)
unfolding respond
respond-Goes env c t (pos n, buffer, s) looks read some_size run =
    let u : HostTask = record t { sys = record s { error_flag = false }; buffer = buffer } in
    let set_up : Outcome HostTask = arm (response (take n buffer)) u in
    elim (Bool-cases (ltb n 256)) [
      | inl fits ↦
          (let short : length (take n buffer) ≤ 255 =
              omega (arith, length-take n buffer, ltb→lt n 256 fits) in
            inl (
              record u { armed = response (take n buffer) },
              ap (λ b. require b >> set_up) fits ∙ arm-ok (response (take n buffer)) u looks.free,
              (c, looks.handled, short),
            ))
      | inr long ↦
          inr
            (inl (ap (λ b. require b >> set_up) long), too_long n buffer s run (ltb→le n 256 long))
    ]
respond-Goes env c t (negsuc k, buffer, s) looks read some_size run =
    let u : HostTask = record t { sys = refusal s; buffer = buffer } in
    elim (dispatch_post_read-cases env c false u) [
      | inl (s2, posted) ↦
          (let v : HostTask = record u { sys = s2 } in
            let why : IsArmed env v =
              subst (ArmedFor env v) (sym looks.free)
                (c, looks.handled, read, some_size, inr (t.buffer, t.sys, k, buffer, s, run)) in
            inl (v, posted, why))
      | inr (stuck, why) ↦ inr (stuck, refuses k buffer s run why)
    ]

dispatch_with_response-Goes :
    (env : Env) (c : Command) (t : HostTask)
    → Looks c t
    → leb 128 t.command ≡ true
    → (t.payload_length == 0) ≡ false
    → Goes env
        (HeaderStops env c t.payload_length t.buffer t.sys)
        (dispatch_with_response env c t.payload_length t)
unfolding dispatch_with_response
dispatch_with_response-Goes env c t looks read some_size =
    elim (Bool-cases ((flags c).supports_read)) [
      | inr unsupported ↦
          (let why : IsArmed env t =
              subst (ArmedFor env t) (sym looks.free)
                (c, looks.handled, read, some_size, inl unsupported) in
            rw unsupported (inl (t, refl, why)))
      | inl supported ↦ elim (Outcome-cases (read_of env c t.payload_length t.buffer t.sys)) [
        | inl (r, run) ↦ rw (supported, run) (respond-Goes env c t r looks read some_size run)
        | inr stuck ↦ rw supported (
            inr (
              Stops-bind (read_of env c t.payload_length t.buffer t.sys) (respond env c t) stuck,
              reads supported stuck,
            ))
      ]
    ]

payload-Goes :
    (env : Env) (c : Command) (t : HostTask)
    → Looks c t
    → (t.payload_length == 0) ≡ false
    → Goes env (HeaderStops env c t.payload_length t.buffer t.sys) (
        read_payload t.payload_length t >>= λ (u : HostTask).
        ok (record u { payload_received = 0 }))
unfolding read_payload
payload-Goes env c t looks some_size =
    let n = min t.payload_length max_payload_size in
    let u : HostTask = record t { payload_received = 0 } in
    let some_bytes : 0 < n = ground (arith, some_size) in
    let few : n ≤ 256 = omega arith in
    inl (
      record u { armed = payload_of n },
      ap (λ m. m >>= λ (v : HostTask). ok (record v { payload_received = 0 }))
          (arm-ok (payload_of n) u looks.free),
      (c, looks.handled, some_bytes, few),
    )

pub process_handled-Goes :
    (env : Env) (c : Command) (t : HostTask)
    → Looks c t
    → Goes env
        (HeaderStops env c t.payload_length t.buffer t.sys)
        (process_handled uninterrupted env c t)
unfolding process_handled
process_handled-Goes env c t looks = elim (Bool-cases (t.payload_length == 0)) [
  | inl empty ↦ rw empty (
      Goes-causes env (dispatch_command env c [] t >>= read_command) writes (
        then_header env (dispatch_command env c [] t) t looks.free
          (dispatch_command-cases env c [] t)))
  | inr some_size ↦ elim (Bool-cases (leb 128 t.command)) [
    | inl read ↦ rw (some_size, read) (dispatch_with_response-Goes env c t looks read some_size)
    | inr written ↦ rw (some_size, written) (payload-Goes env c t looks some_size)
  ]
]
