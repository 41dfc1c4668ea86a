-- ===== src/Hw/Animations/Scripts.antt =====
-- The script interpreter of Sources/Hw/Indicators.cpp ends on every script that does not restart
-- without a delay.
use blazenet_device_fw.Prelude.{
  ℕ, zero, suc, ◌+◌, ◌*◌, ◌≤◌, ◌<◌, ◌≡◌, refl, ap, ◌⊎◌, inl, inr, Bool, true, false, ◌&&◌,
  Bool-cases, none, some, List, [], ◌∷◌, length, length-drop, get_elem?, drop, ltb, ltb→lt, ◌==◌,
  if◌then◌else◌, u8, Outcome, ok, arith,
}
use blazenet_device_fw.Hw.Animations.{
  Channel, no_op, turn_on, turn_off, delay, restart, end_script, set_state, finish_script, wait,
  execute, run_script, update_channel,
}

-- What a byte is read as: a command, where a restart may or may not come, or a delay's argument.
pub data Reading : Type 0 where
  command : Bool → Reading
  argument : Reading

-- Every delay has an argument above zero, and a delay comes before every restart.
unfoldable pub playable : Reading → List ℕ → Bool
playable argument [] = false
playable argument (n ∷ rest) = ltb 0 n && playable (command true) rest
playable (command may) [] = true
playable (command may) (cmd ∷ rest) =
    if cmd == turn_on
    then playable (command may) rest
    else if cmd == turn_off
    then playable (command may) rest
    else if cmd == delay
    then playable argument rest
    else if cmd == restart
    then may
    else if cmd == end_script
    then true
    else if cmd == no_op
    then playable (command may) rest
    else true

-- A script of at most `limit` bytes that may be run from its start, on a channel that runs it.
pub record HasScript (limit : ℕ) (ch : Channel) : Type 0 where
  pub busy : ch.is_idle ≡ false
  pub short : length ch.current_anim ≤ limit
  pub start : playable (command false) ch.current_anim ≡ true

-- The script waits at an offset from which it can go on.
pub record IsPlaying (limit : ℕ) (ch : Channel) : Type 0 where
  pub has_script : HasScript limit ch
  pub wants_update : ch.wants_timer_update ≡ true
  pub resumes : playable (command true) (drop ch.anim_offset ch.current_anim) ≡ true

abbrev pub IsOver : Channel → Type 0
IsOver ch = (ch.is_idle ≡ true) × (ch.wants_timer_update ≡ false)

-- The interpreter returns, with `out` at the end of the script or else at a delay above zero.
abbrev pub Settles : ℕ → ℕ → Outcome (Channel × ℕ) → Type 0
Settles limit out m =
    (ch : Channel) × (next : ℕ) × (m ≡ ok (ch, next))
    × ((IsOver ch × (next ≡ out)) ⊎ (IsPlaying limit ch × (0 < next)))

-- Rounds that are enough: the rest of the script, and all of it once where it may restart.
abbrev rounds : Bool → Channel → List ℕ → ℕ
rounds false ch rest = length rest
rounds true ch rest = length rest + length ch.current_anim + 1

drop-next :
    (xs rest : List ℕ) (x off : ℕ)
    → drop off xs ≡ x ∷ rest
    → (get_elem? xs off ≡ some x) × (drop (suc off) xs ≡ rest) × (off < length xs)
drop-next [] rest x zero h = absurd (cc h)
drop-next (y ∷ xs) rest x zero h = (cc h, cc h, omega arith)
drop-next [] rest x (suc off) h = absurd (cc h)
drop-next (y ∷ xs) rest x (suc off) h =
    let (found, next, inside) = drop-next xs rest x off h in (found, next, omega (arith, inside))

drop-none : (xs : List ℕ) (off : ℕ) → drop off xs ≡ [] → get_elem? xs off ≡ none
drop-none [] off h = refl
drop-none (x ∷ xs) zero h = absurd (cc h)
drop-none (x ∷ xs) (suc off) h = drop-none xs off h

ends : (limit : ℕ) (ch : Channel) (next : ℕ) → Settles limit next (ok (finish_script ch, next))
unfolding finish_script
ends limit ch next = (finish_script ch, next, refl, inl ((refl, refl), refl))

over :
    (limit : ℕ) (again : Channel → ℕ → Outcome (Channel × ℕ)) (ch : Channel) (off out : ℕ)
    → Settles limit out (execute again ch none off out)
unfolding execute
over limit again ch off out = ends limit ch out

waits :
    (limit out : ℕ) (ch : Channel) (off : ℕ) (rest : List ℕ)
    → limit ≤ 255
    → HasScript limit ch
    → drop off ch.current_anim ≡ rest
    → playable argument rest ≡ true
    → Settles limit out (wait ch (get_elem? ch.current_anim off) (suc off))
unfolding playable wait
waits limit out ch off [] small h here good = absurd (cc good)
waits limit out ch off (n ∷ rest) small h here good =
    let (found, next, inside) = drop-next ch.current_anim rest n off here in
    let kept : u8 (suc off) ≡ suc off = omega (arith, inside, h.short) in
    elim (Bool-cases (ltb 0 n)) [
      | inr none_left ↦ absurd (cc (rw none_left at good))
      | inl positive ↦
          (let waiting : Channel = record ch {
            anim_offset = u8 (suc off);
            wants_timer_update = true;
          } in
            let resumes : playable (command true) (drop (u8 (suc off)) ch.current_anim) ≡ true =
              rw (kept, next) (rw positive at good) in
            let playing : IsPlaying limit waiting = record {
              has_script = record { busy = h.busy; short = h.short; start = h.start };
              wants_update = refl;
              resumes = resumes;
            } in
            (waiting, n, rw found, inr (playing, ltb→lt 0 n positive)))
    ]

-- A command that does not end the script goes on with what follows it.
module _ (limit fuel out : ℕ) (ch : Channel) (off x : ℕ) (rest : List ℕ) (may : Bool)
    (small : limit ≤ 255) (h : HasScript limit ch) (good : playable (command may) (x ∷ rest) ≡ true)
    (here : drop (suc off) ch.current_anim ≡ rest)
    (shown : (ch1 : Channel)
      → HasScript limit ch1
      → drop (suc off) ch1.current_anim ≡ rest
      → ch1.current_anim ≡ ch.current_anim
      → playable (command may) rest ≡ true
      → Settles limit out (run_script fuel out ch1 (suc off)))
    (again : (ch1 : Channel)
      → HasScript limit ch1
      → may ≡ true
      → ch1.current_anim ≡ ch.current_anim
      → Settles limit out (run_script fuel out ch1 0)) where
  command-Settles : Settles limit out (execute (run_script fuel out) ch (some x) (suc off) out)
  unfolding execute set_state playable
  command-Settles = elim (Bool-cases (x == turn_on)) [
    | inl a ↦ rw a (
        shown _ (record { busy = h.busy; short = h.short; start = h.start }) here refl
          (rw a at good))
    | inr a ↦ elim (Bool-cases (x == turn_off)) [
      | inl b ↦
          rw (a, b)
            (shown _ (record { busy = h.busy; short = h.short; start = h.start }) here refl
              (rw (a, b) at good))
      | inr b ↦ elim (Bool-cases (x == delay)) [
        | inl c ↦
            rw (a, b, c) (waits limit out ch (suc off) rest small h here (rw (a, b, c) at good))
        | inr c ↦ elim (Bool-cases (x == restart)) [
          | inl d ↦
              rw (a, b, c, d)
                (again _ (record { busy = h.busy; short = h.short; start = h.start })
                  (rw (a, b, c, d) at good) refl)
          | inr d ↦ elim (Bool-cases (x == end_script)) [
            | inl e ↦ rw (a, b, c, d, e) (ends limit ch out)
            | inr e ↦ elim (Bool-cases (x == no_op)) [
              | inl f ↦ rw (a, b, c, d, e, f) (shown ch h here refl (rw (a, b, c, d, e, f) at good))
              | inr f ↦ rw (a, b, c, d, e, f) (ends limit ch out)
            ]
          ]
        ]
      ]
    ]
  ]

-- From any offset that may be reached, the interpreter settles within the rounds given.
run_script-Settles :
    (limit fuel out : ℕ) (may : Bool) (ch : Channel) (off : ℕ) (rest : List ℕ)
    → limit ≤ 255
    → HasScript limit ch
    → drop off ch.current_anim ≡ rest
    → playable (command may) rest ≡ true
    → rounds may ch rest < fuel
    → Settles limit out (run_script fuel out ch off)
unfolding run_script
run_script-Settles limit zero out may ch off rest small h here good enough =
    absurd (omega (arith, enough))
run_script-Settles limit (suc fuel) out may ch off [] small h here good enough =
    rw (drop-none ch.current_anim off here) (over limit (run_script fuel out) ch (suc off) out)
run_script-Settles limit (suc fuel) out false ch off (x ∷ rest) small h here good enough =
    let (found, next, inside) = drop-next ch.current_anim rest x off here in
    rw found (
      command-Settles limit fuel out ch off x rest false small h good next
        (λ ch1 h1 here1 same good1.
          run_script-Settles limit fuel out false ch1 (suc off) rest small h1 here1 good1
            (omega (arith, enough)))
        (λ ch1 h1 never same. absurd (cc never)))
run_script-Settles limit (suc fuel) out true ch off (x ∷ rest) small h here good enough =
    let (found, next, inside) = drop-next ch.current_anim rest x off here in
    rw found (
      command-Settles limit fuel out ch off x rest true small h good next
        (λ ch1 h1 here1 same good1.
          run_script-Settles limit fuel out true ch1 (suc off) rest small h1 here1 good1
            (omega (arith, enough, ap length same)))
        (λ ch1 h1 may same.
          run_script-Settles limit fuel out false ch1 0 ch1.current_anim small h1 refl h1.start
            (omega (arith, enough, ap length same))))

pub start-Settles :
    (limit fuel out : ℕ) (ch : Channel)
    → limit ≤ 255
    → HasScript limit ch
    → ch.anim_offset ≡ 0
    → limit < fuel
    → Settles limit out (update_channel fuel ch out)
unfolding update_channel
start-Settles limit fuel out ch small h first enough =
    run_script-Settles limit fuel out false ch ch.anim_offset ch.current_anim small h
      (ap (λ off. drop off ch.current_anim) first) h.start (omega (arith, enough, h.short))

pub resume-Settles :
    (limit fuel out : ℕ) (ch : Channel)
    → limit ≤ 255
    → IsPlaying limit ch
    → 2 * limit + 1 < fuel
    → Settles limit out (update_channel fuel ch out)
unfolding update_channel
resume-Settles limit fuel out ch small p enough =
    let rest = drop ch.anim_offset ch.current_anim in
    run_script-Settles limit fuel out true ch ch.anim_offset rest small p.has_script refl p.resumes
      (omega (arith, enough, p.has_script.short, length-drop ch.anim_offset ch.current_anim))
