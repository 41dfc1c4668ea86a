-- ===== src/Startup/Host.antt =====
-- What HostIf::Init of Sources/HostIf/Init.cpp has done when it returns.
use blazenet_device_fw.Prelude.{
  ℕ, ◌<◌, ◌≡◌, refl, sym, ap, ◌∙◌, subst, ◌∷◌, Outcome, ok, ◌>>=◌, bind-ok, require-ok,
}
use blazenet_device_fw.HostIf.Watchdog.{handle_comms_lost}
use blazenet_device_fw.Hw.Indicators.{Lights, blink_attention_fast}
use blazenet_device_fw.Startup.Lamps.{blink_attention_fast-Commands, relight-one}
use blazenet_device_fw.Startup.{
  Machine, Firmware, indicator_period, watchdog_start, beacon_stop, relight, give_command,
  watchdog_init, host_if_init,
}

-- After HostIf::Init: the attention light blinks, the host counts as lost, and the timers have
-- three commands more.
pub record HostDone (fuel : ℕ) (m : Machine) (f g : Firmware) : Type 0 where
  pub log_kept : g.log ≡ f.log
  pub identity_kept : g.identity ≡ f.identity
  pub host_lost : g.system ≡ handle_comms_lost f.system
  pub calls_kept : g.calls ≡ f.calls
  pub blinking : blink_attention_fast fuel (m.ticks 6) (m.ticks 7) f.lights ≡ ok g.lights
  pub commands :
      (n : ℕ) × (g.timer_commands
        ≡ beacon_stop ∷ indicator_period n ∷ watchdog_start ∷ f.timer_commands)

abbrev pub lost : Lights → Firmware → Firmware
lost l f =
    let f1 = relight l (give_command watchdog_start f) in
    give_command beacon_stop (record f1 { system = handle_comms_lost f1.system })

lost-HostDone :
    (fuel : ℕ) (m : Machine) (f : Firmware) (l : Lights)
    → 1 < fuel
    → blink_attention_fast fuel (m.ticks 6) (m.ticks 7) f.lights ≡ ok l
    → HostDone fuel m f (lost l f)
unfolding give_command
lost-HostDone fuel m f l enough run =
    let (t, n, same_run, periods) =
      blink_attention_fast-Commands fuel (m.ticks 6) (m.ticks 7) f.lights enough in
    let same : t ≡ l = cc (run, same_run) in
    let periods_l : l.periods ≡ n ∷ f.lights.periods =
      ap (λ (u : Lights). u.periods) (sym same) ∙ periods in
    let f1 : Firmware = give_command watchdog_start f in
    record {
      log_kept = unfold relight in refl;
      identity_kept = unfold relight in refl;
      host_lost = unfold relight in refl;
      calls_kept = unfold relight in refl;
      blinking = unfold relight in run;
      commands = (n, ap (λ cs. beacon_stop ∷ cs) (relight-one l f1 n periods_l));
    }

pub host_if_init-HostDone :
    (fuel : ℕ) (m : Machine) (f g : Firmware)
    → 1 < fuel
    → host_if_init fuel m f ≡ ok g
    → HostDone fuel m f g
unfolding host_if_init watchdog_init
host_if_init-HostDone fuel m f g enough h =
    let start : Outcome Firmware =
      blink_attention_fast fuel (m.ticks 6) (m.ticks 7) f.lights >>= λ (l : Lights).
      ok (lost l f) in
    let (task, rest) = require-ok m.host_task start g h in
    let (l, run, last) =
      bind-ok (blink_attention_fast fuel (m.ticks 6) (m.ticks 7) f.lights)
        (λ (l : Lights). ok (lost l f)) g rest in
    let same : lost l f ≡ g = cc last in
    subst (HostDone fuel m f) same (lost-HostDone fuel m f l enough run)
