-- ===== src/Startup/Lamps.antt =====
-- The commands that the indicators of Sources/Hw/Indicators.cpp give to their timer at the start.
use blazenet_device_fw.Prelude.{
  ℕ, suc, ◌+◌, ◌-◌, ◌<◌, ◌≡◌, refl, ap, ◌∙◌, ◌⊎◌, inl, inr, max, Bool, true, false, ◌++◌, take,
  length, Option, none, some, List, [], ◌∷◌, ◌==◌, if◌then◌else◌, u32, sub32, Outcome, ok, arith,
}
use blazenet_device_fw.Hw.Animations.{
  Channel, anim_long_blink, set_state, wait, execute, run_script, update_channel,
}
use blazenet_device_fw.Hw.Indicators.{
  Indicator, attention, tx, rx, Lights, channel, store_channel, is_waiting, sooner, next_due,
  arm_timer, update_timer_period, begin_script, schedule, set_channel_script, blink_attention_fast,
  dark, init,
}
use blazenet_device_fw.Startup.{Firmware, indicator_period, period_commands, relight}

abbrev OneWaits : List Channel → Type 0
OneWaits [] = ⊥
OneWaits (ch ∷ chs) = (is_waiting ch ≡ true) ⊎ OneWaits chs

step_some : (b : Bool) (n t : ℕ) → (m : ℕ) × ((if b then sooner (some n) t else some n) ≡ some m)
unfolding sooner
step_some true n t = (_, refl)
step_some false n t = (n, refl)

next_due-some : (now n : ℕ) (chs : List Channel) → (m : ℕ) × (next_due now chs (some n) ≡ some m)
unfolding next_due
next_due-some now n [] = (n, refl)
next_due-some now n (ch ∷ chs) =
    let (k, one) = step_some (is_waiting ch) n (sub32 ch.next_update now) in
    let (m, rest) = next_due-some now k chs in (m, ap (next_due now chs) one ∙ rest)

sooner-some : (found : Option ℕ) (t : ℕ) → (m : ℕ) × (sooner found t ≡ some m)
unfolding sooner
sooner-some none t = (t, refl)
sooner-some (some n) t = (_, refl)

next_due-armed :
    (now : ℕ) (chs : List Channel) (found : Option ℕ)
    → OneWaits chs
    → (m : ℕ) × (next_due now chs found ≡ some m)
unfolding next_due
next_due-armed now [] found h = elim h [ ]
next_due-armed now (ch ∷ chs) found (inl waits) =
    let t = sub32 ch.next_update now in
    let (k, one) = sooner-some found t in
    let (m, rest) = next_due-some now k chs in
    let taken : (if is_waiting ch then sooner found t else found) ≡ sooner found t =
      ap (λ b. if b then sooner found t else found) waits in
    (m, ap (next_due now chs) (taken ∙ one) ∙ rest)
next_due-armed now (ch ∷ chs) found (inr later) =
    next_due-armed now chs
      (if is_waiting ch then sooner found (sub32 ch.next_update now) else found) later

stored-OneWaits :
    (which : Indicator) (ch : Channel) (s : Lights)
    → is_waiting ch ≡ true
    → let s1 = store_channel which ch s in
      OneWaits (s1.attention_channel ∷ s1.tx_channel ∷ s1.rx_channel ∷ [])
unfolding store_channel
stored-OneWaits attention ch s waits = inl waits
stored-OneWaits tx ch s waits = inr (inl waits)
stored-OneWaits rx ch s waits = inr (inr (inl waits))

same-periods :
    (which : Indicator) (ch : Channel) (s : Lights) → (store_channel which ch s).periods ≡ s.periods
unfolding store_channel
same-periods attention ch s = refl
same-periods tx ch s = refl
same-periods rx ch s = refl

-- The call returns, after one command to the timer.
abbrev pub Commands : Outcome Lights → Lights → Type 0
Commands m s = (t : Lights) × (p : ℕ) × (m ≡ ok t) × (t.periods ≡ p ∷ s.periods)

update_timer_period-armed :
    (later : ℕ) (s : Lights)
    → OneWaits (s.attention_channel ∷ s.tx_channel ∷ s.rx_channel ∷ [])
    → (p : ℕ) × ((update_timer_period later s).periods ≡ p ∷ s.periods)
unfolding update_timer_period arm_timer
update_timer_period-armed later s waits =
    let chs = s.attention_channel ∷ s.tx_channel ∷ s.rx_channel ∷ [] in
    let (n, found) = next_due-armed later chs none waits in
    (max n 1, ap (λ o. (arm_timer o s).periods) found)

-- A script that turns its light on for `d` ticks first.
set_channel_script-Commands :
    (fuel : ℕ) (which : Indicator) (d : ℕ) (script : List ℕ) (now later : ℕ) (s : Lights)
    → (d == 0) ≡ false
    → Commands (set_channel_script (suc (suc fuel)) which (16 ∷ 32 ∷ d ∷ script) true now later s) s
unfolding set_channel_script update_channel run_script execute set_state wait begin_script schedule
    is_waiting
set_channel_script-Commands fuel which d script now later s positive =
    let ch : Channel = record (channel which s) {
      wants_timer_update = true;
      is_idle = false;
      is_on = true;
      anim_offset = 3;
      current_anim = 16 ∷ 32 ∷ d ∷ script;
      next_update = u32 (now + d);
      pin_high = false;
    } in
    let s1 = store_channel which ch s in
    let (p, armed) = update_timer_period-armed later s1 (stored-OneWaits which ch s refl) in
    (
      update_timer_period later s1,
      p,
      rw positive,
      armed ∙ ap (λ ps. p ∷ ps) (same-periods which ch s),
    )

module _ (fuel : ℕ) (which : Indicator) (now later : ℕ) (s : Lights) where
  long_blink-Commands :
      1 < fuel → Commands (set_channel_script fuel which anim_long_blink true now later s) s
  long_blink-Commands enough =
      let shape : fuel ≡ suc (suc (fuel - 2)) = omega arith in
      rw shape (set_channel_script-Commands (fuel - 2) which _ _ now later s refl)

-- The self test of Init gives the timer three commands.
pub init-commands :
    (fuel : ℕ) (ticks : ℕ → ℕ)
    → 1 < fuel
    → (t : Lights) × (p : ℕ) × (q : ℕ) × (r : ℕ) × (init fuel ticks ≡ ok t)
      × (t.periods ≡ r ∷ q ∷ p ∷ [])
unfolding init
init-commands fuel ticks enough =
    let (s1, p, run1, e1) = long_blink-Commands fuel attention (ticks 0) (ticks 1) dark enough in
    let (s2, q, run2, e2) = long_blink-Commands fuel rx (ticks 2) (ticks 3) s1 enough in
    let (s3, r, run3, e3) = long_blink-Commands fuel tx (ticks 4) (ticks 5) s2 enough in
    let f = (λ (ps : List ℕ). r ∷ ps) in
    let g = (λ (ps : List ℕ). q ∷ ps) in
    (s3, p, q, r, rw (run1, run2, run3), e3 ∙ ap f (e2 ∙ ap g e1))

-- The fast blink gives it one.
pub blink_attention_fast-Commands :
    (fuel now later : ℕ) (s : Lights)
    → 1 < fuel
    → Commands (blink_attention_fast fuel now later s) s
unfolding blink_attention_fast
blink_attention_fast-Commands fuel now later s enough =
    let shape : fuel ≡ suc (suc (fuel - 2)) = omega arith in
    rw shape (set_channel_script-Commands (fuel - 2) attention _ _ now later s refl)

-- The commands for the timer that a call of the indicators adds to those before it.
module _ (l : Lights) (f : Firmware) where
  pub relight-one :
      (n : ℕ)
      → l.periods ≡ n ∷ f.lights.periods
      → (relight l f).timer_commands ≡ indicator_period n ∷ f.timer_commands
  unfolding relight period_commands
  relight-one n e =
      let old = f.lights.periods in
      let one : suc (length old) - length old ≡ 1 = omega arith in
      ap (λ ps. period_commands (take (length ps - length old) ps) ++ f.timer_commands) e
      ∙ ap (λ k. period_commands (take k (n ∷ old)) ++ f.timer_commands) one

  pub relight-three :
      (p q r : ℕ)
      → f.lights ≡ dark
      → l.periods ≡ r ∷ q ∷ p ∷ []
      → (relight l f).timer_commands
        ≡ indicator_period r ∷ indicator_period q ∷ indicator_period p ∷ f.timer_commands
  unfolding relight period_commands
  relight-three p q r off e =
      ap
        (λ (old : Lights).
          period_commands (take (length l.periods - length old.periods) l.periods)
          ++ f.timer_commands)
        off
      ∙ ap (λ ps. period_commands (take (length ps - 0) ps) ++ f.timer_commands) e
