-- ===== src/Hw/Indicators/Blink.antt =====
-- The blinking of the attention light, Sources/Hw/Indicators.h.
use blazenet_device_fw.Prelude.{
  ℕ, zero, suc, ◌+◌, ◌*◌, ◌<◌, ◌≡◌, refl, ap, ◌∙◌, Bool, true, false, not, [], ◌∷◌, le→ltb, ◌==◌,
  if◌then◌else◌, u32, Option, none, some, Bool-cases, inl, inr, Outcome, ok, ◌>>=◌, arith,
}
use blazenet_device_fw.Hw.Animations.{
  Channel, turn_on, turn_off, delay, restart, set_state, wait, execute, run_script, update_channel,
}
use blazenet_device_fw.Hw.Indicators.{
  Lights, attention, channel, store_channel, is_waiting, arm_timer, update_timer_period, reschedule,
  fire_channel, begin_script, schedule, set_channel_script, blink_attention_fast,
  blink_attention_slow,
}

-- The attention light in a blink of `d` ticks for each half, on or off until the tick `t`.
abbrev pub blinking : ℕ → Bool → ℕ → Channel
blinking d on t = record {
  is_idle = false;
  wants_timer_update = true;
  is_on = on;
  anim_offset = if on then 3 else 6;
  current_anim = turn_on ∷ delay ∷ d ∷ turn_off ∷ delay ∷ d ∷ restart ∷ [];
  next_update = t;
  pin_high = not on;
}

-- The timer fires `n` times, each time at the tick that the channel waits for.
unfoldable pub fire_on_time : ℕ → ℕ → Channel → Outcome Channel
fire_on_time junk zero ch = ok ch
fire_on_time junk (suc n) ch = fire_channel 16 junk ch.next_update ch >>= fire_on_time junk n

abbrev pub even : ℕ → Bool
even zero = true
even (suc n) = not (even n)

rescheduled :
    (d t : ℕ) (on : Bool) (u : ℕ)
    → 0 < d
    → reschedule t d (blinking d on u) ≡ blinking d on (u32 (t + d))
unfolding reschedule
rescheduled d t on u positive =
    let some_ticks : (d == 0) ≡ false = ground (arith, positive) in rw some_ticks

blink-half :
    (junk d t : ℕ) (on : Bool)
    → 0 < d
    → fire_channel 16 junk t (blinking d on t) ≡ ok (blinking d (not on) (u32 (t + d)))
unfolding fire_channel is_waiting update_channel run_script execute set_state wait
blink-half junk d t true positive =
    rw (le→ltb t t (omega arith)) (ap ok (rescheduled d t false t positive))
blink-half junk d t false positive =
    rw (le→ltb t t (omega arith)) (ap ok (rescheduled d t true t positive))

later_tick : (t d n : ℕ) → u32 (u32 (t + d) + n * d) ≡ u32 (t + suc n * d)
later_tick t d n = let step : suc n * d ≡ d + n * d = grind arith in omega (arith, step)

if_true : (b : Bool) → (if b then true else not true) ≡ b
if_true true = refl
if_true false = refl

not-not : (b : Bool) → not (not b) ≡ b
not-not true = refl
not-not false = refl

-- One more half turns the light over.
after_half :
    (d n u : ℕ) (on : Bool)
    → blinking d (if even n then not on else not (not on)) u
      ≡ blinking d (if not (even n) then on else not on) u
after_half d n u on = elim (Bool-cases (even n)) [
  | inl e ↦ rw e refl
  | inr o ↦ rw o (ap (λ b. blinking d b u) (not-not on))
]

fire_on_time-blinking :
    (junk d n t : ℕ) (on : Bool)
    → 0 < d
    → t < 4294967296
    → fire_on_time junk n (blinking d on t)
      ≡ ok (blinking d (if even n then on else not on) (u32 (t + n * d)))
unfolding fire_on_time
fire_on_time-blinking junk d zero t on positive fits =
    let same : t ≡ u32 (t + 0 * d) = omega arith in ap (λ u. ok (blinking d on u)) same
fire_on_time-blinking junk d (suc n) t on positive fits =
    let rest = fire_on_time-blinking junk d n (u32 (t + d)) (not on) positive (omega arith) in
    rw (blink-half junk d t on positive) (
      rest
      ∙ (ap (λ u. ok (blinking d (if even n then not on else not (not on)) u)) (later_tick t d n)
          ∙ ap ok (after_half d n (u32 (t + suc n * d)) on)))

scheduled :
    (d now : ℕ) (u : ℕ)
    → 0 < d
    → schedule now d (blinking d true u) ≡ blinking d true (u32 (now + d))
unfolding schedule
scheduled d now u positive =
    let some_ticks : (d == 0) ≡ false = ground (arith, positive) in rw some_ticks

arm_timer_attention :
    (next : Option ℕ) (s : Lights) → (arm_timer next s).attention_channel ≡ s.attention_channel
unfolding arm_timer
arm_timer_attention none s = refl
arm_timer_attention (some next) s = refl

period_attention :
    (now : ℕ) (s : Lights) → (update_timer_period now s).attention_channel ≡ s.attention_channel
unfolding update_timer_period
period_attention now s = arm_timer_attention _ s

blink_started :
    (d now later : ℕ) (s : Lights)
    → 0 < d
    → (s1 : Lights) × (set_channel_script 16 attention
          (turn_on ∷ delay ∷ d ∷ turn_off ∷ delay ∷ d ∷ restart ∷ [])
          true
          now
          later
          s
        ≡ ok s1)
      × (s1.attention_channel ≡ blinking d true (u32 (now + d)))
unfolding set_channel_script update_channel run_script execute set_state wait begin_script channel
    store_channel
blink_started d now later s positive =
    (_, refl, period_attention later _ ∙ scheduled d now 0 positive)

-- The light is on or off in turn, for `d` ticks each.
abbrev pub Alternates : ℕ → ℕ → ℕ → Outcome Lights → Type 0
Alternates junk now d m =
    (s1 : Lights) × (m ≡ ok s1)
    × ((n : ℕ)
        → fire_on_time junk n s1.attention_channel
          ≡ ok (blinking d (even n) (u32 (now + suc n * d))))

alternates :
    (junk d now later : ℕ) (s : Lights)
    → 0 < d
    → Alternates junk now d (
        set_channel_script 16 attention
          (turn_on ∷ delay ∷ d ∷ turn_off ∷ delay ∷ d ∷ restart ∷ [])
          true
          now
          later
          s)
alternates junk d now later s positive =
    let (s1, run, lit) = blink_started d now later s positive in
    let halves : (n : ℕ)
        → fire_on_time junk n s1.attention_channel
          ≡ ok (blinking d (even n) (u32 (now + suc n * d))) =
      λ n.
        ap (fire_on_time junk n) lit
        ∙ (fire_on_time-blinking junk d n (u32 (now + d)) true positive (omega arith)
            ∙ (ap (λ b. ok (blinking d b (u32 (u32 (now + d) + n * d)))) (if_true (even n))
                ∙ ap (λ u. ok (blinking d (even n) u)) (later_tick now d n))) in
    (s1, run, halves)

-- From any state, the fast and the slow blink of the attention light start it at once, and after
-- n expiries of the timer at the ticks that it waits for, it is on if n is even and off if n is
-- odd, and waits for the tick n + 1 halves after the call: a half has 125 ticks in the fast and
-- 250 in the slow blink.
pub blink_attention-Alternates :
    (junk now later : ℕ) (s : Lights)
    → Alternates junk now 125 (blink_attention_fast 16 now later s)
      × Alternates junk now 250 (blink_attention_slow 16 now later s)
unfolding blink_attention_fast blink_attention_slow
blink_attention-Alternates junk now later s =
    (alternates junk 125 now later s (omega arith), alternates junk 250 now later s (omega arith))
