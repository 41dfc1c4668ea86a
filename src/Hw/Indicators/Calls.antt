-- ===== src/Hw/Indicators/Calls.antt =====
-- Any calls of Sources/Hw/Indicators.cpp from start-up: every script goes on until it ends, and no
-- light is left without the timer.
use blazenet_device_fw.Prelude.{
  ℕ, ◌≤◌, ◌<◌, ◌≡◌, refl, inl, inr, Bool, true, false, not, ◌&&◌, Bool-cases, List, [], ◌∷◌, length,
  Outcome, ok, ◌>>=◌, Option, none, some, arith,
}
use blazenet_device_fw.Hw.Animations.{
  Channel, anim_long_blink, anim_short_blink, anim_turn_off, anim_attention_blink_fast,
  anim_attention_blink_slow,
}
use blazenet_device_fw.Hw.Indicators.{
  Lights, Indicator, attention, tx, rx, channel, store_channel, begin_script, schedule, timer_fired,
  set_channel_script, update_timer_period, arm_timer, pulse_tx, pulse_rx, turn_off_attention,
  blink_attention_fast, blink_attention_slow, dark, init,
}
use blazenet_device_fw.Hw.Animations.Scripts.{command, playable, HasScript, start-Settles}
use blazenet_device_fw.Hw.Indicators.Channels.{
  IsScheduled, schedule-IsScheduled, fire_channel-Fires,
}

pub record AreScheduled (s : Lights) : Type 0 where
  pub attention_scheduled : IsScheduled s.attention_channel
  pub tx_scheduled : IsScheduled s.tx_channel
  pub rx_scheduled : IsScheduled s.rx_channel

arm_timer-AreScheduled :
    (next : Option ℕ) (s : Lights) → AreScheduled s → AreScheduled (arm_timer next s)
unfolding arm_timer
arm_timer-AreScheduled none s h = h
arm_timer-AreScheduled (some next) s h = record {
  attention_scheduled = h.attention_scheduled;
  tx_scheduled = h.tx_scheduled;
  rx_scheduled = h.rx_scheduled;
}

update_timer_period-AreScheduled :
    (later : ℕ) (s : Lights) → AreScheduled s → AreScheduled (update_timer_period later s)
unfolding update_timer_period
update_timer_period-AreScheduled later s h = arm_timer-AreScheduled _ s h

store_channel-AreScheduled :
    (which : Indicator) (ch : Channel) (s : Lights)
    → AreScheduled s
    → IsScheduled ch
    → AreScheduled (store_channel which ch s)
unfolding store_channel
store_channel-AreScheduled attention ch s h c = record {
  attention_scheduled = c;
  tx_scheduled = h.tx_scheduled;
  rx_scheduled = h.rx_scheduled;
}
store_channel-AreScheduled tx ch s h c = record {
  attention_scheduled = h.attention_scheduled;
  tx_scheduled = c;
  rx_scheduled = h.rx_scheduled;
}
store_channel-AreScheduled rx ch s h c = record {
  attention_scheduled = h.attention_scheduled;
  tx_scheduled = h.tx_scheduled;
  rx_scheduled = c;
}

-- A call returns, and leaves no light without its timer.
abbrev pub Keeps : Outcome Lights → Type 0
Keeps m = (s : Lights) × (m ≡ ok s) × AreScheduled s

timer_fired-Keeps :
    (fuel junk now later : ℕ) (s : Lights)
    → 15 < fuel
    → AreScheduled s
    → Keeps (timer_fired fuel junk now later s)
unfolding timer_fired
timer_fired-Keeps fuel junk now later s enough h =
    let (a, run_a, sched_a) =
      fire_channel-Fires fuel junk now s.attention_channel enough h.attention_scheduled in
    let (t, run_t, sched_t) = fire_channel-Fires fuel junk now s.tx_channel enough h.tx_scheduled in
    let (r, run_r, sched_r) = fire_channel-Fires fuel junk now s.rx_channel enough h.rx_scheduled in
    let s1 : Lights = record s { attention_channel = a; tx_channel = t; rx_channel = r } in
    let all : AreScheduled s1 = record {
      attention_scheduled = sched_a;
      tx_scheduled = sched_t;
      rx_scheduled = sched_r;
    } in
    let run : timer_fired fuel junk now later s ≡ ok (update_timer_period later s1) =
      rw (run_a, run_t, run_r) in
    (update_timer_period later s1, run, update_timer_period-AreScheduled later s1 all)

begin-HasScript :
    (script : List ℕ) (ch : Channel)
    → length script ≤ 7
    → playable (command false) script ≡ true
    → HasScript 7 (begin_script script ch)
unfolding begin_script
begin-HasScript script ch short good = record { busy = refl; short = short; start = good }

first_offset : (script : List ℕ) (ch : Channel) → (begin_script script ch).anim_offset ≡ 0
unfolding begin_script
first_offset script ch = refl

pub set_channel_script-Keeps :
    (fuel : ℕ) (which : Indicator) (script : List ℕ) (immediate : Bool) (now later : ℕ) (s : Lights)
    → 15 < fuel
    → length script ≤ 7
    → playable (command false) script ≡ true
    → AreScheduled s
    → Keeps (set_channel_script fuel which script immediate now later s)
unfolding set_channel_script
set_channel_script-Keeps fuel which script immediate now later s enough short good h =
    let ch = channel which s in
    elim (Bool-cases (not immediate && not ch.is_idle)) [
      | inl busy ↦ (s, rw busy, h)
      | inr free ↦
          (let (ch1, next, run, settled) =
              start-Settles 7 fuel 0 (begin_script script ch) (omega arith)
                (begin-HasScript script ch short good) (first_offset script ch) (omega arith) in
            let s1 = store_channel which (schedule now next ch1) s in
            (
              update_timer_period later s1,
              rw (free, run),
              update_timer_period-AreScheduled later s1 (
                  store_channel-AreScheduled which _ s h
                    (schedule-IsScheduled now next ch1 settled)),
            ))
    ]

-- The calls of the other parts of the firmware, and the timer's expiry, at their ticks.
pub data Call : Type 0 where
  timer : ℕ → ℕ → ℕ → Call
  tx_pulse rx_pulse attention_off fast_blink slow_blink : ℕ → ℕ → Call

unfoldable pub perform : ℕ → Call → Lights → Outcome Lights
perform fuel (timer junk now later) s = timer_fired fuel junk now later s
perform fuel (tx_pulse now later) s = pulse_tx fuel now later s
perform fuel (rx_pulse now later) s = pulse_rx fuel now later s
perform fuel (attention_off now later) s = turn_off_attention fuel now later s
perform fuel (fast_blink now later) s = blink_attention_fast fuel now later s
perform fuel (slow_blink now later) s = blink_attention_slow fuel now later s

unfoldable pub perform_all : ℕ → List Call → Lights → Outcome Lights
perform_all fuel [] s = ok s
perform_all fuel (c ∷ cs) s = perform fuel c s >>= perform_all fuel cs

pub perform-Keeps :
    (fuel : ℕ) (c : Call) (s : Lights) → 15 < fuel → AreScheduled s → Keeps (perform fuel c s)
unfolding perform pulse_tx pulse_rx turn_off_attention blink_attention_fast blink_attention_slow
    playable
perform-Keeps fuel (timer junk now later) s enough h =
    timer_fired-Keeps fuel junk now later s enough h
perform-Keeps fuel (tx_pulse now later) s enough h =
    set_channel_script-Keeps fuel tx anim_short_blink false now later s enough (omega arith) refl h
perform-Keeps fuel (rx_pulse now later) s enough h =
    set_channel_script-Keeps fuel rx anim_short_blink false now later s enough (omega arith) refl h
perform-Keeps fuel (attention_off now later) s enough h =
    set_channel_script-Keeps fuel attention anim_turn_off true now later s enough (omega arith) refl
      h
perform-Keeps fuel (fast_blink now later) s enough h =
    set_channel_script-Keeps fuel attention anim_attention_blink_fast true now later s enough
      (omega arith) refl h
perform-Keeps fuel (slow_blink now later) s enough h =
    set_channel_script-Keeps fuel attention anim_attention_blink_slow true now later s enough
      (omega arith) refl h

perform_all-Keeps :
    (fuel : ℕ) (cs : List Call) (s : Lights)
    → 15 < fuel
    → AreScheduled s
    → Keeps (perform_all fuel cs s)
unfolding perform_all
perform_all-Keeps fuel [] s enough h = (s, refl, h)
perform_all-Keeps fuel (c ∷ cs) s enough h =
    let (s1, run, h1) = perform-Keeps fuel c s enough h in
    rw run (perform_all-Keeps fuel cs s1 enough h1)

dark-AreScheduled : AreScheduled dark
dark-AreScheduled = record {
  attention_scheduled = inl (refl, refl);
  tx_scheduled = inl (refl, refl);
  rx_scheduled = inl (refl, refl);
}

pub init-Keeps : (fuel : ℕ) (ticks : ℕ → ℕ) → 15 < fuel → Keeps (init fuel ticks)
unfolding init playable
init-Keeps fuel ticks enough =
    let test : (which : Indicator) (now later : ℕ) (s : Lights)
        → AreScheduled s
        → Keeps (set_channel_script fuel which anim_long_blink true now later s) =
      λ which now later s h.
        set_channel_script-Keeps fuel which anim_long_blink true now later s enough (omega arith)
          refl h in
    let (s1, run1, h1) = test attention (ticks 0) (ticks 1) dark dark-AreScheduled in
    let (s2, run2, h2) = test rx (ticks 2) (ticks 3) s1 h1 in
    let (s3, run3, h3) = test tx (ticks 4) (ticks 5) s2 h2 in (s3, rw (run1, run2, run3), h3)

-- From start-up, Init and any sequence of pulses, blinks and timer expiries, at any ticks, return
-- within 16 rounds of the interpreter for each script; after them every light is idle, or waits
-- for the timer at an offset from which its script goes on.
pub calls-AreScheduled :
    (fuel : ℕ) (ticks : ℕ → ℕ) (cs : List Call)
    → 15 < fuel
    → Keeps (init fuel ticks >>= perform_all fuel cs)
calls-AreScheduled fuel ticks cs enough =
    let (s, run, h) = init-Keeps fuel ticks enough in rw run (perform_all-Keeps fuel cs s enough h)
