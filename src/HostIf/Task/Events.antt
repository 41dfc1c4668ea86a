-- ===== src/HostIf/Task/Events.antt =====
-- Which transfer the host interface task of Sources/HostIf/Task.cpp has set up after any events.
use blazenet_device_fw.Prelude.{
  ℕ, zero, suc, ◌∷◌, ◌≤◌, ◌≡◌, refl, sym, ap, ◌∙◌, subst, Bool, true, false, Option, none, some,
  Option-cases, List, [], length, get_elem?, ltb, ltb→le, Bool-cases, ◌⊎◌, inl, inr, ◌==◌,
  if◌then◌else◌, Outcome, ok, panic, fault, ◌>>=◌, deref, arith,
}
use blazenet_device_fw.HostIf.Handlers.{copy_to}
use blazenet_device_fw.HostIf.Watchdog.{kick}
use blazenet_device_fw.HostIf.Task.{
  Command, num_commands, handlers, Armed, idle, header, payload_of, response, HostTask,
  read_command, dispatch_command, dispatch_post_read, number, process_handled, uninterrupted,
  process_command, header_done, payload_done, response_done,
}
use blazenet_device_fw.System.{Env}
use blazenet_device_fw.HostIf.Task.Dispatch.{
  WriteStops, PostStops, Stops, Stops-bind, HeaderStops, Goes-causes, ArmedFor, IsArmed, Goes,
  keep-ArmedFor, read_command-header, dispatch_command-cases, dispatch_post_read-cases, then_header,
  process_handled-Goes,
}

-- The end of a transfer: of a header, with whether it was received whole and its two bytes, of a
-- payload, with the bytes received, or of a response.
pub data Event : Type 0 where
  header_end : Bool → ℕ → ℕ → Event
  payload_end : List ℕ → Event
  response_end : Event

-- The round of the main loop after it; `none` if the loop is left.
unfoldable pub happen : Env → Event → HostTask → Outcome (Option HostTask)
happen env (header_end valid command size) t = do
  u ← header_done env valid command size t
  ok (some u)
happen env (payload_end bytes) t = payload_done env bytes t
happen env response_end t = do u ← response_done env t; ok (some u)

-- The transfers that can end are those that are set up.
abbrev pub Fits : Armed → Event → Type 0
Fits header (header_end valid command size) = Unit
Fits (payload_of n) (payload_end bytes) = length bytes ≤ n
Fits (response bytes) response_end = Unit
Fits a e = ⊥

-- The states that events lead to.
pub data Reaches (env : Env) (t : HostTask) : HostTask → Type 0 where
  here : Reaches env t t
  after :
      {u v : HostTask} (e : Event)
      → Reaches env t u
      → Fits u.armed e
      → happen env e u ≡ ok (some v)
      → Reaches env t v

-- The routine of a handler that stops the round after an event: it runs for the command of the
-- header or of the transfer, on the bytes and the state that the task has then.
abbrev pub Cause : Env → HostTask → Event → Type 0
Cause env t (header_end valid command size) =
    (c : Command) × (get_elem? handlers (number command) ≡ some c)
    × HeaderStops env c size t.buffer t.sys
Cause env t (payload_end bytes) =
    (c : Command) × (t.handler ≡ some c) × WriteStops env c bytes t.sys
Cause env t response_end = (c : Command) × (t.handler ≡ some c) × PostStops env c true t.sys

-- How the round after an event ends.
pub data Steps (env : Env) (t : HostTask) (e : Event) : Outcome (Option HostTask) → Type 0 where
  goes_on : (u : HostTask) → IsArmed env u → Steps env t e (ok (some u))
  leaves : e ≡ payload_end [] → Steps env t e (ok none)
  stopped : (r : Outcome (Option HostTask)) → Stops r → Cause env t e → Steps env t e r
  past_table :
      (command size : ℕ)
      → e ≡ header_end true command size
      → number command ≡ 11
      → Steps env t e fault

get_elem?-none {ℓ} : {A : Type ℓ} (xs : List A) (i : ℕ) → get_elem? xs i ≡ none → length xs ≤ i
get_elem?-none [] i h = omega arith
get_elem?-none (x ∷ xs) zero h = absurd (cc h)
get_elem?-none (x ∷ xs) (suc i) h = omega (arith, get_elem?-none xs i h)

-- The set-up for the next header goes on.
header-Goes : (C : Type 0) (env : Env) (t : HostTask) → t.armed ≡ idle → Goes env C (read_command t)
header-Goes C env t free = inl (
  record t { armed = header; command_valid = false; handler = none },
  read_command-header t free,
  tt,
)

-- The handler of the command stops on it.
abbrev Stuck : Env → HostTask → Type 0
Stuck env t =
    (c : Command) × (get_elem? handlers (number t.command) ≡ some c)
    × HeaderStops env c t.payload_length t.buffer t.sys

abbrev looked_up : Env → HostTask → Option Command → Outcome HostTask
looked_up env t o =
    deref o >>= λ c. process_handled uninterrupted env c (record t { handler = some c })

process_command-cases :
    (env : Env) (t : HostTask)
    → t.armed ≡ idle
    → Goes env (Stuck env t) (process_command env t)
      ⊎ ((process_command env t ≡ fault) × (number t.command ≡ 11))
unfolding process_command
process_command-cases env t free = elim (Bool-cases (ltb num_commands (number t.command))) [
  | inl unknown ↦ inl (rw unknown (header-Goes (Stuck env t) env t free))
  | inr small ↦ elim (Option-cases (get_elem? handlers (number t.command))) [
    | inr (c, found) ↦
        (let u : HostTask = record t { handler = some c } in
          inl (
            rw small (
              subst (λ o. Goes env (Stuck env t) (looked_up env t o)) (sym found)
                (Goes-causes env (process_handled uninterrupted env c u) (λ why. (c, found, why))
                  (process_handled-Goes env c u (record { free = free; handled = refl }))))))
    | inl missing ↦
        (let past : 11 ≤ number t.command = get_elem?-none handlers (number t.command) missing in
          inr (rw (small, missing), omega (arith, past, ltb→le _ _ small)))
  ]
]

-- The round goes on as its step does.
Goes-Steps :
    (env : Env) (t : HostTask) (e : Event) (m : Outcome HostTask) (f : HostTask → HostTask)
    → ((u : HostTask) → IsArmed env u → IsArmed env (f u))
    → Goes env (Cause env t e) m
    → Steps env t e (m >>= λ u. ok (some (f u)))
Goes-Steps env t e m f keep (inl (u, run, h)) = rw run (goes_on (f u) (keep u h))
Goes-Steps env t e m f keep (inr (stuck, why)) =
    stopped (m >>= λ u. ok (some (f u))) (Stops-bind m (λ u. ok (some (f u))) stuck) why

kicked : (env : Env) (u : HostTask) → IsArmed env u → IsArmed env (record u { sys = kick u.sys })
kicked env u h = keep-ArmedFor env u (kick u.sys) u.armed h

bind_assoc {ℓ} :
    {A B C : Type ℓ} (m : Outcome A) (f : A → Outcome B) (g : B → Outcome C)
    → ((m >>= f) >>= g) ≡ (m >>= λ a. f a >>= g)
bind_assoc (ok a) f g = refl
bind_assoc panic f g = refl
bind_assoc fault f g = refl

abbrev continue : HostTask → Outcome (Option HostTask)
continue u = ok (some u)

-- The kick of the watchdog after a header.
kicked-Steps :
    (env : Env) (t : HostTask) (e : Event) (m : Outcome HostTask)
    → Goes env (Cause env t e) m
    → Steps env t e ((m >>= λ u. ok (record u { sys = kick u.sys })) >>= continue)
kicked-Steps env t e m goes =
    let f : HostTask → HostTask = λ u. record u { sys = kick u.sys } in
    subst (Steps env t e) (sym (bind_assoc m (λ u. ok (f u)) continue))
      (Goes-Steps env t e m f (kicked env) goes)

header_done-Steps :
    (env : Env) (valid : Bool) (command size : ℕ) (t : HostTask)
    → Steps env t (header_end valid command size) (happen env (header_end valid command size) t)
unfolding happen header_done
header_done-Steps env false command size t =
    let t1 : HostTask = record t {
      armed = idle;
      command_valid = false;
      command = command;
      payload_length = size;
    } in
    kicked-Steps env t (header_end false command size) (read_command t1)
      (header-Goes (Cause env t (header_end false command size)) env t1 refl)
header_done-Steps env true command size t =
    let t1 : HostTask = record t {
      armed = idle;
      command_valid = true;
      command = command;
      payload_length = size;
    } in
    elim (process_command-cases env t1 refl) [
      | inl goes ↦ kicked-Steps env t (header_end true command size) (process_command env t1) goes
      | inr (stuck, eleven) ↦ rw stuck (past_table command size refl eleven)
    ]

same_state : (env : Env) (u : HostTask) → IsArmed env u → IsArmed env u
same_state env u h = h

response_done-Steps :
    (env : Env) (c : Command) (t : HostTask)
    → t.handler ≡ some c
    → Steps env t response_end (happen env response_end t)
unfolding happen response_done
response_done-Steps env c t handled =
    let t1 : HostTask = record t { armed = idle } in
    let round : Option Command → Outcome (Option HostTask) =
      λ o. (deref o >>= λ d. dispatch_post_read env d true t1 >>= read_command) >>= continue in
    let goes =
      Goes-causes env (dispatch_post_read env c true t1 >>= read_command) (λ why. (c, handled, why))
        (then_header env (dispatch_post_read env c true t1) t1 refl
          (dispatch_post_read-cases env c true t1)) in
    subst (λ o. Steps env t response_end (round o)) (sym handled)
      (Goes-Steps env t response_end (dispatch_post_read env c true t1 >>= read_command) (λ u. u)
        (same_state env) goes)

payload_done-Steps :
    (env : Env) (c : Command) (bytes : List ℕ) (t : HostTask)
    → t.handler ≡ some c
    → Steps env t (payload_end bytes) (happen env (payload_end bytes) t)
unfolding happen payload_done
payload_done-Steps env c [] t handled = leaves refl
payload_done-Steps env c (b ∷ bs) t handled =
    let t1 : HostTask = record t {
      armed = idle;
      payload_received = length (b ∷ bs);
      buffer = copy_to (b ∷ bs) t.buffer;
    } in
    let round : Option Command → Outcome (Option HostTask) = λ o.
      deref o >>= λ d. dispatch_command env d (b ∷ bs) t1 >>= λ u. read_command u >>= continue in
    let nonempty : (length (b ∷ bs) == 0) ≡ false = ground arith in
    let goes =
      Goes-causes env (dispatch_command env c (b ∷ bs) t1 >>= read_command)
        (λ why. (c, handled, why))
        (then_header env (dispatch_command env c (b ∷ bs) t1) t1 refl
          (dispatch_command-cases env c (b ∷ bs) t1)) in
    let chain : happen env (payload_end (b ∷ bs)) t
        ≡ ((dispatch_command env c (b ∷ bs) t1 >>= read_command) >>= continue) =
      ap (λ z. if z then ok none else round t.handler) nonempty
      ∙ ap round handled
      ∙ sym (bind_assoc (dispatch_command env c (b ∷ bs) t1) read_command continue) in
    subst (Steps env t (payload_end (b ∷ bs))) (sym chain) (
      Goes-Steps env t (payload_end (b ∷ bs)) (dispatch_command env c (b ∷ bs) t1 >>= read_command)
        (λ u. u) (same_state env) goes)

-- One event, by the transfer that it ends.
event-Steps :
    (env : Env) (t : HostTask) (a : Armed) (e : Event)
    → ArmedFor env t a
    → Fits a e
    → Steps env t e (happen env e t)
event-Steps env t header (header_end valid command size) h fits =
    header_done-Steps env valid command size t
event-Steps env t (payload_of n) (payload_end bytes) (c, handled, some_bytes, few) fits =
    payload_done-Steps env c bytes t handled
event-Steps env t (response bytes) response_end (c, handled, short) fits =
    response_done-Steps env c t handled
event-Steps env t a e h fits = absurd fits

step-IsArmed :
    (env : Env) (t : HostTask) (e : Event) (u : HostTask)
    → Steps env t e (ok (some u))
    → IsArmed env u
step-IsArmed env t e u (goes_on v h) = h
step-IsArmed env t e u (stopped r stuck why) = elim stuck [
  | inl panics ↦ absurd (cc panics)
  | inr faults ↦ absurd (cc faults)
]

Reaches-IsArmed : (env : Env) (t u : HostTask) → IsArmed env t → Reaches env t u → IsArmed env u
Reaches-IsArmed env t u h here = h
Reaches-IsArmed env t v h (after {u} e before fits run) = step-IsArmed env u e v (
    subst (Steps env u e) run (event-Steps env u u.armed e (Reaches-IsArmed env t u h before) fits))

-- From a task that waits for a header, after the end of any transfers, each of one that was set up:
-- the task waits for a header; or for a payload of 1 to 256 bytes or the end of a response of at
-- most 255, for a command that has a handler; or it has no transfer set up, and then the last
-- command was a read that its handler does not support, or one of a size that its handler refuses
-- in some state. The round after the next end of a transfer goes on in such a state; it leaves the
-- main loop only after a payload of which nothing was received; and it stops only in a routine of
-- the command's handler, by its reply of more than 255 bytes, or by command number 11.
pub events-Steps :
    (env : Env) (t u : HostTask) (e : Event)
    → t.armed ≡ header
    → Reaches env t u
    → Fits u.armed e
    → IsArmed env u × Steps env u e (happen env e u)
events-Steps env t u e first reached fits =
    let h = Reaches-IsArmed env t u (subst (ArmedFor env t) (sym first) tt) reached in
    (h, event-Steps env u u.armed e h fits)
