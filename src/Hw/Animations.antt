-- ===== src/Hw/Animations.antt =====
-- The animation scripts of Sources/Hw/Indicators.h, and their interpreter UpdateChannel of
-- Indicators.cpp.
--
-- A script is a list of bytes. The interpreter's loop has no bound in the source, as a script may
-- restart, and runs on fuel here; `Outcome.fault` is fuel that ran out, or a delay whose argument
-- is past the end of the script.
pub mod Scripts
use blazenet_device_fw.Prelude.{
  ℕ, zero, suc, ◌+◌, ◌*◌, ◌/◌, max, Bool, true, false, not, ◌||◌, ◌&&◌, Option, none, some, List,
  [], ◌∷◌, get_elem?, ltb, ◌==◌, if◌then◌else◌, u8, u32, sub32, Outcome, ok, ◌>>=◌,
}

-- State, with the level of the pin, which is low where the light is on.
pub record Channel : Type 0 where
  pub is_idle : Bool
  pub wants_timer_update : Bool
  pub is_on : Bool
  pub anim_offset : ℕ
  pub current_anim : List ℕ
  pub next_update : ℕ
  pub pin_high : Bool

-- AnimCommand
abbrev pub no_op : ℕ
no_op = 0

abbrev pub turn_on : ℕ
turn_on = 16

abbrev pub turn_off : ℕ
turn_off = 17

abbrev pub delay : ℕ
delay = 32

abbrev pub restart : ℕ
restart = 254

abbrev pub end_script : ℕ
end_script = 255

-- pdMS_TO_TICKS at configTICK_RATE_HZ of 250
abbrev pub ms_to_ticks : ℕ → ℕ
ms_to_ticks ms = u32 (ms * 250) / 1000

abbrev pub anim_turn_off : List ℕ
anim_turn_off = turn_off ∷ end_script ∷ []

abbrev pub anim_long_blink : List ℕ
anim_long_blink = turn_on ∷ delay ∷ ms_to_ticks 500 ∷ turn_off ∷ end_script ∷ []

abbrev pub anim_short_blink : List ℕ
anim_short_blink =
    turn_on ∷ delay ∷ ms_to_ticks 30 ∷ turn_off ∷ delay ∷ ms_to_ticks 30 ∷ end_script ∷ []

abbrev pub anim_attention_blink_fast : List ℕ
anim_attention_blink_fast =
    turn_on ∷ delay ∷ ms_to_ticks 500 ∷ turn_off ∷ delay ∷ ms_to_ticks 500 ∷ restart ∷ []

abbrev pub anim_attention_blink_slow : List ℕ
anim_attention_blink_slow =
    turn_on ∷ delay ∷ ms_to_ticks 1000 ∷ turn_off ∷ delay ∷ ms_to_ticks 1000 ∷ restart ∷ []

-- Indicators::SetState
unfoldable pub set_state : Bool → Channel → Channel
set_state on ch = record ch { pin_high = not on }

unfoldable pub finish_script : Channel → Channel
finish_script ch = record ch { is_idle = true; wants_timer_update = false; next_update = 0 }

-- The delay command, given its argument and the offset after it.
unfoldable pub wait : Channel → Option ℕ → ℕ → Outcome (Channel × ℕ)
wait ch none off = Outcome.fault
wait ch (some n) off = ok (record ch { anim_offset = u8 off; wants_timer_update = true }, n)

-- One round of the loop: the command, if there is one, and the offset after it. `out` is
-- outNextUpdate, and `again` the rest of the loop.
unfoldable pub execute :
    (Channel → ℕ → Outcome (Channel × ℕ)) → Channel → Option ℕ → ℕ → ℕ → Outcome (Channel × ℕ)
execute again ch none off out = ok (finish_script ch, out)
execute again ch (some cmd) off out =
    if cmd == turn_on
    then again (set_state true (record ch { is_on = true })) off
    else if cmd == turn_off
    then again (set_state false (record ch { is_on = false })) off
    else if cmd == delay
    then wait ch (get_elem? ch.current_anim off) (suc off)
    else if cmd == restart
    then again (record ch { anim_offset = 0 }) 0
    else if cmd == end_script
    then ok (finish_script ch, out)
    else if cmd == no_op
    then again ch off
    else ok (finish_script ch, out)

unfoldable pub run_script : ℕ → ℕ → Channel → ℕ → Outcome (Channel × ℕ)
run_script zero out ch off = Outcome.fault
run_script (suc fuel) out ch off =
    execute (run_script fuel out) ch (get_elem? ch.current_anim off) (suc off) out

unfoldable pub update_channel : ℕ → Channel → ℕ → Outcome (Channel × ℕ)
update_channel fuel ch out = run_script fuel out ch ch.anim_offset
