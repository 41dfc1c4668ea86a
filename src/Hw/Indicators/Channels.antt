-- ===== src/Hw/Indicators/Channels.antt =====
-- A light of Sources/Hw/Indicators.cpp that runs a script waits for the timer.
use blazenet_device_fw.Prelude.{
  ℕ, ◌+◌, ◌<◌, ◌≡◌, refl, ap, ◌∙◌, ◌⊎◌, inl, inr, true, false, not, ◌||◌, Bool-cases, ltb, ◌==◌,
  u32, ok, arith,
}
use blazenet_device_fw.Hw.Animations.{Channel}
use blazenet_device_fw.Hw.Indicators.{schedule, reschedule, is_waiting, fire_channel}
use blazenet_device_fw.Hw.Animations.Scripts.{IsPlaying, IsOver, resume-Settles}

-- A channel has no script, or it waits for the timer at an offset from which its script goes on.
-- No script of the firmware is longer than 7 bytes.
abbrev pub IsScheduled : Channel → Type 0
IsScheduled ch = IsOver ch ⊎ IsPlaying 7 ch

IsPlaying-again :
    (now : ℕ) (ch : Channel)
    → IsPlaying 7 ch
    → IsPlaying 7 (record ch { wants_timer_update = true; next_update = now })
IsPlaying-again now ch p =
    let h = p.has_script in
    record {
      has_script = record { busy = h.busy; short = h.short; start = h.start };
      wants_update = refl;
      resumes = p.resumes;
    }

pub schedule-IsScheduled :
    (now next : ℕ) (ch : Channel)
    → (IsOver ch × (next ≡ 0)) ⊎ (IsPlaying 7 ch × (0 < next))
    → IsScheduled (schedule now next ch)
unfolding schedule
schedule-IsScheduled now next ch (inl (over, none_left)) = rw none_left (inl (over.0, refl))
schedule-IsScheduled now next ch (inr (p, positive)) =
    let some_ticks : (next == 0) ≡ false = ground (arith, positive) in
    rw some_ticks (inr (IsPlaying-again (u32 (now + next)) ch p))

reschedule-IsScheduled :
    (junk now next : ℕ) (ch : Channel)
    → (IsOver ch × (next ≡ junk)) ⊎ (IsPlaying 7 ch × (0 < next))
    → IsScheduled (reschedule now next ch)
unfolding reschedule
reschedule-IsScheduled junk now next ch (inl (over, same)) = elim (Bool-cases (next == 0)) [
  | inl none_left ↦ rw none_left (inl over)
  | inr some_ticks ↦ rw some_ticks (inl (over.0, over.1))
]
reschedule-IsScheduled junk now next ch (inr (p, positive)) =
    let some_ticks : (next == 0) ≡ false = ground (arith, positive) in
    let h = p.has_script in
    rw some_ticks (
      inr (record {
        has_script = record { busy = h.busy; short = h.short; start = h.start };
        wants_update = p.wants_update;
        resumes = p.resumes;
      }))

over_still : (ch : Channel) → IsOver ch → is_waiting ch ≡ false
unfolding is_waiting
over_still ch over = ap (λ b. not (b || not ch.wants_timer_update)) over.0

playing_waits : (ch : Channel) → IsPlaying 7 ch → is_waiting ch ≡ true
unfolding is_waiting
playing_waits ch p =
    ap (λ b. not (b || not ch.wants_timer_update)) p.has_script.busy
    ∙ ap (λ b. not (not b)) p.wants_update

-- The timer's expiry returns, and the light still waits or is idle.
abbrev pub Fires : ℕ → ℕ → ℕ → Channel → Type 0
Fires fuel junk now ch =
    (ch1 : Channel) × (fire_channel fuel junk now ch ≡ ok ch1) × IsScheduled ch1

pub fire_channel-Fires :
    (fuel junk now : ℕ) (ch : Channel) → 15 < fuel → IsScheduled ch → Fires fuel junk now ch
unfolding fire_channel
fire_channel-Fires fuel junk now ch enough (inl over) =
    let still = over_still ch over in (ch, rw still, inl over)
fire_channel-Fires fuel junk now ch enough (inr p) =
    let waits = playing_waits ch p in
    elim (Bool-cases (ltb now ch.next_update)) [
      | inl early ↦ (ch, rw (waits, early), inr p)
      | inr due ↦
          (let (ch1, next, run, settled) =
              resume-Settles 7 fuel junk ch (omega arith) p (omega arith) in
            let done = reschedule-IsScheduled junk now next ch1 settled in
            (reschedule now next ch1, rw (waits, due, run), done))
    ]
