-- ===== src/Tests/Lights.antt =====
-- The theorems on Sources/Hw/Indicators.cpp, applied to the lights after start-up.
use blazenet_device_fw.Prelude.{ℕ, ◌≡◌, ◌⊎◌, true, false, max, [], ◌∷◌, ◌>>=◌, arith}
use blazenet_device_fw.Hw.Animations.{anim_short_blink, anim_attention_blink_fast}
use blazenet_device_fw.Hw.Indicators.{
  Lights, idle_channel, dark, init, blink_attention_fast, blink_attention_slow, update_timer_period,
}
use blazenet_device_fw.Hw.Indicators.Calls.{
  timer, tx_pulse, fast_blink, perform_all, Keeps, calls-AreScheduled,
}
use blazenet_device_fw.Hw.Indicators.Blink.{Alternates, blink_attention-Alternates}
use blazenet_device_fw.Hw.Indicators.Period.{
  channels, NoneWaits, NoneBefore, OneAfter, update_timer_period-IsFirst,
}

-- The transmit light is on until the tick 107, and the attention light blinks from the tick 90 on.
abbrev pulsing : Lights
pulsing = record dark {
  attention_channel = record idle_channel {
    is_idle = false;
    wants_timer_update = true;
    is_on = true;
    current_anim = anim_attention_blink_fast;
    anim_offset = 3;
    next_update = 215;
    pin_high = false;
  };
  tx_channel = record idle_channel {
    is_idle = false;
    wants_timer_update = true;
    is_on = true;
    pin_high = false;
    current_anim = anim_short_blink;
    anim_offset = 3;
    next_update = 107;
  };
}

calls-AreScheduled_example : Keeps (
    init 16 (λ n. n)
    >>= perform_all 16
        (timer 7 130 130 ∷ tx_pulse 140 140 ∷ fast_blink 141 141 ∷ timer 9 147 147 ∷ []))
calls-AreScheduled_example =
    calls-AreScheduled 16 (λ n. n)
      (timer 7 130 130 ∷ tx_pulse 140 140 ∷ fast_blink 141 141 ∷ timer 9 147 147 ∷ []) (omega arith)

blink_attention-Alternates_example :
    Alternates 7 100 125 (blink_attention_fast 16 100 100 pulsing)
    × Alternates 7 100 250 (blink_attention_slow 16 100 100 pulsing)
blink_attention-Alternates_example = blink_attention-Alternates 7 100 100 pulsing

update_timer_period-IsFirst_example :
    (NoneWaits (channels pulsing) × (update_timer_period 100 pulsing ≡ pulsing))
    ⊎ ((p : ℕ) × NoneBefore 100 p (channels pulsing)
        × OneAfter 100 p (channels pulsing)
        × (update_timer_period 100 pulsing
            ≡ record pulsing { periods = max p 1 ∷ pulsing.periods }))
update_timer_period-IsFirst_example = update_timer_period-IsFirst 100 pulsing
