-- ===== src/Hw/Indicators.antt =====
-- Sources/Hw/Indicators.h and Indicators.cpp: three lights, each of which runs an animation script.
--
-- A routine reads the tick count once for the channels (`now`) and once for the timer (`later`).
-- The state lock is not modelled, since each routine is one step.
pub mod Channels
pub mod Calls
pub mod Blink
pub mod Period
use blazenet_device_fw.Prelude.{
  ℕ, zero, suc, ◌+◌, ◌*◌, ◌/◌, max, Bool, true, false, not, ◌||◌, ◌&&◌, Option, none, some, List,
  [], ◌∷◌, get_elem?, ltb, ◌==◌, if◌then◌else◌, u8, u32, sub32, Outcome, ok, ◌>>=◌,
}
use blazenet_device_fw.Hw.Animations.{
  Channel, anim_turn_off, anim_long_blink, anim_short_blink, anim_attention_blink_fast,
  anim_attention_blink_slow, update_channel,
}

pub data Indicator : Type 0 where
  attention tx rx : Indicator

-- gState and gTimer; `periods` are those that the timer was given, newest first.
pub record Lights : Type 0 where
  pub attention_channel : Channel
  pub tx_channel : Channel
  pub rx_channel : Channel
  pub periods : List ℕ

unfoldable pub channel : Indicator → Lights → Channel
channel attention s = s.attention_channel
channel tx s = s.tx_channel
channel rx s = s.rx_channel

unfoldable pub store_channel : Indicator → Channel → Lights → Lights
store_channel attention ch s = record s { attention_channel = ch }
store_channel tx ch s = record s { tx_channel = ch }
store_channel rx ch s = record s { rx_channel = ch }

unfoldable pub is_waiting : Channel → Bool
is_waiting ch = not (ch.is_idle || not ch.wants_timer_update)

unfoldable pub sooner : Option ℕ → ℕ → Option ℕ
sooner none from_now = some from_now
sooner (some next) from_now = some (if ltb from_now next then from_now else next)

-- The loop of UpdateTimerPeriod.
unfoldable pub next_due : ℕ → List Channel → Option ℕ → Option ℕ
next_due now [] next = next
next_due now (ch ∷ chs) next =
    let from_now = sub32 ch.next_update now in
    next_due now chs (if is_waiting ch then sooner next from_now else next)

unfoldable pub arm_timer : Option ℕ → Lights → Lights
arm_timer none s = s
arm_timer (some next) s = record s { periods = max next 1 ∷ s.periods }

unfoldable pub update_timer_period : ℕ → Lights → Lights
update_timer_period now s =
    arm_timer (next_due now (s.attention_channel ∷ s.tx_channel ∷ s.rx_channel ∷ []) none) s

-- `channel.nextUpdate = now + next` where it applies.
unfoldable pub reschedule : ℕ → ℕ → Channel → Channel
reschedule now next ch = if next == 0 then ch else record ch { next_update = u32 (now + next) }

-- A channel in the loop of TimerFired; `junk` is what the uninitialised `next` holds.
unfoldable pub fire_channel : ℕ → ℕ → ℕ → Channel → Outcome Channel
fire_channel fuel junk now ch =
    let updated = (update_channel fuel ch junk >>= λ r. ok (reschedule now r.1 r.0)) in
    if not (is_waiting ch) || ltb now ch.next_update then ok ch else updated

unfoldable pub timer_fired : ℕ → ℕ → ℕ → ℕ → Lights → Outcome Lights
timer_fired fuel junk now later s = do
  a ← fire_channel fuel junk now s.attention_channel
  t ← fire_channel fuel junk now s.tx_channel
  r ← fire_channel fuel junk now s.rx_channel
  ok (
      update_timer_period later
        (record s { attention_channel = a; tx_channel = t; rx_channel = r }))

unfoldable pub begin_script : List ℕ → Channel → Channel
begin_script script ch = record ch {
  wants_timer_update = false;
  is_idle = false;
  anim_offset = 0;
  current_anim = script;
  next_update = 0;
}

-- SetChannelScript after it has run the script.
unfoldable pub schedule : ℕ → ℕ → Channel → Channel
schedule now next ch =
    if next == 0
    then record ch { wants_timer_update = false }
    else record ch { wants_timer_update = true; next_update = u32 (now + next) }

unfoldable pub set_channel_script : ℕ → Indicator → List ℕ → Bool → ℕ → ℕ → Lights → Outcome Lights
set_channel_script fuel which script immediate now later s =
    let ch = channel which s in
    let started = update_channel fuel (begin_script script ch) 0 in
    let updated =
      (started >>= λ r.
      ok (update_timer_period later (store_channel which (schedule now r.1 r.0) s))) in
    if not immediate && not ch.is_idle then ok s else updated

unfoldable pub pulse_tx : ℕ → ℕ → ℕ → Lights → Outcome Lights
pulse_tx fuel now later s = set_channel_script fuel tx anim_short_blink false now later s

unfoldable pub pulse_rx : ℕ → ℕ → ℕ → Lights → Outcome Lights
pulse_rx fuel now later s = set_channel_script fuel rx anim_short_blink false now later s

unfoldable pub turn_off_attention : ℕ → ℕ → ℕ → Lights → Outcome Lights
turn_off_attention fuel now later s =
    set_channel_script fuel attention anim_turn_off true now later s

unfoldable pub blink_attention_fast : ℕ → ℕ → ℕ → Lights → Outcome Lights
blink_attention_fast fuel now later s =
    set_channel_script fuel attention anim_attention_blink_fast true now later s

unfoldable pub blink_attention_slow : ℕ → ℕ → ℕ → Lights → Outcome Lights
blink_attention_slow fuel now later s =
    set_channel_script fuel attention anim_attention_blink_slow true now later s

-- The static initialisers, with all lights off.
abbrev pub idle_channel : Channel
idle_channel = record {
  is_idle = true;
  wants_timer_update = false;
  is_on = false;
  anim_offset = 0;
  current_anim = [];
  next_update = 0;
  pin_high = true;
}

abbrev pub dark : Lights
dark = record {
  attention_channel = idle_channel;
  tx_channel = idle_channel;
  rx_channel = idle_channel;
  periods = [];
}

-- The self test of Init; `ticks n` is what the n-th reading of the tick count returns.
unfoldable pub init : ℕ → (ℕ → ℕ) → Outcome Lights
init fuel ticks = do
  s1 ← set_channel_script fuel attention anim_long_blink true (ticks 0) (ticks 1) dark
  s2 ← set_channel_script fuel rx anim_long_blink true (ticks 2) (ticks 3) s1
  set_channel_script fuel tx anim_long_blink true (ticks 4) (ticks 5) s2
