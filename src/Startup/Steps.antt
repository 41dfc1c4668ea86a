-- ===== src/Startup/Steps.antt =====
-- What each step of main of Sources/Main.cpp has done when it returns.
use blazenet_device_fw.Prelude.{
  ℕ, ◌+◌, ◌<◌, ◌≡◌, refl, sym, ap, ◌∙◌, subst, Bool, true, false, List, [], ◌∷◌, if◌then◌else◌,
  Outcome, ok, ◌>>=◌, ◌>>◌, require, bind-ok, require-ok,
}
use blazenet_device_fw.Hw.Identity.{Identity}
use blazenet_device_fw.Hw.Identity
use blazenet_device_fw.Hw.Indicators.{Lights, dark, blink_attention_fast}
use blazenet_device_fw.Hw.Indicators
use blazenet_device_fw.Log.Logger.{LogState}
use blazenet_device_fw.Log.Logger.Panic
use blazenet_device_fw.Radio.Setup.{Rail, init_task}
use blazenet_device_fw.Startup.Lamps.{init-commands, relight-three}
use blazenet_device_fw.System.{System, boot}
use blazenet_device_fw.Startup.{
  ldma, ldma_xbar, gpio, eusart0, eusart1, eusart2, clock_enable, frc_pri, frc, modem, rac_seq,
  rac_rsm, bufc, agc, protimer, synth, rfeca0, rfeca1, gpioint_init, spidrv_init, dma_init, pa_init,
  rf_path_init, rssi_init, rail_init, uartdrv_init, Machine, Firmware, Call, indicator_period,
  power_on, note_call, enable_clocks, startup_clocks, early_init, relight, hw_init, radio_irqs,
  RadioIrq, set_priority, set_priorities, on_rf_ready, radio_init,
}

-- What the later steps read of the state, apart from the calls.
pub record Same (f g : Firmware) : Type 0 where
  pub same_log : g.log ≡ f.log
  pub same_identity : g.identity ≡ f.identity
  pub same_lights : g.lights ≡ f.lights
  pub same_system : g.system ≡ f.system
  pub same_commands : g.timer_commands ≡ f.timer_commands

pub Same-trans : {f g h : Firmware} → Same f g → Same g h → Same f h
Same-trans a b = record {
  same_log = b.same_log ∙ a.same_log;
  same_identity = b.same_identity ∙ a.same_identity;
  same_lights = b.same_lights ∙ a.same_lights;
  same_system = b.same_system ∙ a.same_system;
  same_commands = b.same_commands ∙ a.same_commands;
}

pub note_call-Same : (c : Call) (f : Firmware) → Same f (note_call c f)
unfolding note_call
note_call-Same c f = record {
  same_log = refl;
  same_identity = refl;
  same_lights = refl;
  same_system = refl;
  same_commands = refl;
}

set_priorities-Same :
    (priority : ℕ) (is : List RadioIrq) (f : Firmware) → Same f (set_priorities priority is f)
unfolding set_priorities
set_priorities-Same priority [] f = record {
  same_log = refl;
  same_identity = refl;
  same_lights = refl;
  same_system = refl;
  same_commands = refl;
}
set_priorities-Same priority (i ∷ is) f =
    Same-trans (note_call-Same (set_priority i priority) f)
      (set_priorities-Same priority is (note_call (set_priority i priority) f))

-- The calls of EarlyInit, newest first.
abbrev pub clock_calls : List Call
clock_calls =
    clock_enable eusart2
    ∷ clock_enable eusart1
    ∷ clock_enable eusart0
    ∷ clock_enable gpio
    ∷ clock_enable ldma_xbar
    ∷ clock_enable ldma
    ∷ []

-- After EarlyInit
pub record EarlyDone (m : Machine) (f : Firmware) : Type 0 where
  pub uart_free : f.log.uart_completion ≡ true
  pub known_device : f.identity ≡ Identity.init m.encoders m.eui64_high m.eui64_low
  pub lights_dark : f.lights ≡ dark
  pub no_flash : f.fs ≡ ([], [])
  pub untouched : f.system ≡ boot
  pub no_commands : f.timer_commands ≡ []
  pub clocks_only : f.calls ≡ clock_calls

log_free :
    (created : Bool) (s t : LogState) → Panic.init created s ≡ ok t → t.uart_completion ≡ true
unfolding Panic.init
log_free created s t h =
    let (made, rest) = require-ok created (ok (record s { uart_completion = true })) t h in
    let same : record s { uart_completion = true } ≡ t = cc rest in
    sym (ap (λ (l : LogState). l.uart_completion) same)

pub early_init-EarlyDone :
    (m : Machine) (f : Firmware) → early_init m power_on ≡ ok f → EarlyDone m f
unfolding early_init enable_clocks note_call
early_init-EarlyDone m f h =
    let f1 = enable_clocks startup_clocks power_on in
    let d = Identity.init m.encoders m.eui64_high m.eui64_low in
    let (l, run, rest) =
      bind-ok (Panic.init m.log_semaphore f1.log)
        (λ (l : LogState). ok (record f1 { log = l; identity = d })) f h in
    let same : record f1 { log = l; identity = d } ≡ f = cc rest in
    subst (EarlyDone m) same record {
      uart_free = log_free m.log_semaphore f1.log l run;
      known_device = refl;
      lights_dark = refl;
      no_flash = refl;
      untouched = refl;
      no_commands = refl;
      clocks_only = refl;
    }

-- After HwInit: the lights' self test runs, and their timer has three commands.
pub record HwDone (fuel : ℕ) (m : Machine) (f g : Firmware) : Type 0 where
  pub log_kept : g.log ≡ f.log
  pub identity_kept : g.identity ≡ f.identity
  pub fs_kept : g.fs ≡ f.fs
  pub system_kept : g.system ≡ f.system
  pub testing : Indicators.init fuel m.ticks ≡ ok g.lights
  pub drivers : g.calls ≡ uartdrv_init ∷ spidrv_init ∷ gpioint_init ∷ f.calls
  pub commands :
      (p : ℕ) × (q : ℕ) × (r : ℕ) × (g.timer_commands
        ≡ indicator_period r ∷ indicator_period q ∷ indicator_period p ∷ f.timer_commands)

relit-HwDone :
    (fuel : ℕ) (m : Machine) (f : Firmware) (l : Lights)
    → 1 < fuel
    → f.lights ≡ dark
    → Indicators.init fuel m.ticks ≡ ok l
    → HwDone fuel m f
        (note_call uartdrv_init (note_call spidrv_init (note_call gpioint_init (relight l f))))
unfolding note_call
relit-HwDone fuel m f l enough off run =
    let (t, p, q, r, same_run, periods) = init-commands fuel m.ticks enough in
    let same : t ≡ l = cc (run, same_run) in
    let periods_l : l.periods ≡ r ∷ q ∷ p ∷ [] =
      ap (λ (u : Lights). u.periods) (sym same) ∙ periods in
    record {
      log_kept = unfold relight in refl;
      identity_kept = unfold relight in refl;
      fs_kept = unfold relight in refl;
      system_kept = unfold relight in refl;
      testing = unfold relight in run;
      drivers = unfold relight in refl;
      commands = (p, q, r, relight-three l f p q r off periods_l);
    }

pub hw_init-HwDone :
    (fuel : ℕ) (m : Machine) (f g : Firmware)
    → 1 < fuel
    → f.lights ≡ dark
    → hw_init fuel m f ≡ ok g
    → HwDone fuel m f g
unfolding hw_init
hw_init-HwDone fuel m f g enough off h =
    let done = (λ (l : Lights).
      note_call uartdrv_init (note_call spidrv_init (note_call gpioint_init (relight l f)))) in
    let start : Outcome Firmware = Indicators.init fuel m.ticks >>= λ (l : Lights). ok (done l) in
    let (timer, rest) = require-ok m.indicator_timer (require m.indicator_lock >> start) g h in
    let (lock, begun) = require-ok m.indicator_lock start g rest in
    let (l, run, last) =
      bind-ok (Indicators.init fuel m.ticks) (λ (l : Lights). ok (done l)) g begun in
    let same : done l ≡ g = cc last in
    subst (HwDone fuel m f) same (relit-HwDone fuel m f l enough off run)

init_task-same : (rail : Rail) (s t : System) → init_task rail s ≡ ok t → t ≡ s
unfolding init_task
init_task-same rail s t h =
    let (created, rest) = require-ok rail.task_created (ok s) t h in sym (cc rest)

on_rf_ready-Same : (rail : Rail) (f g : Firmware) → on_rf_ready rail f ≡ ok g → Same f g
unfolding on_rf_ready
on_rf_ready-Same rail f g h =
    let (s, run, rest) =
      bind-ok (init_task rail f.system) (λ (s : System). ok (record f { system = s })) g h in
    let same : record f { system = s } ≡ g = cc rest in
    subst (Same f) same record {
      same_log = refl;
      same_identity = refl;
      same_lights = refl;
      same_system = init_task-same rail f.system s run;
      same_commands = refl;
    }

ready-Same :
    (ready : Bool) (rail : Rail) (f g : Firmware)
    → (if ready then on_rf_ready rail f else ok f) ≡ ok g
    → Same f g
ready-Same true rail f g h = on_rf_ready-Same rail f g h
ready-Same false rail f g h =
    let same : f ≡ g = cc h in
    subst (Same f) same record {
      same_log = refl;
      same_identity = refl;
      same_lights = refl;
      same_system = refl;
      same_commands = refl;
    }

pub radio_init-Same : (m : Machine) (f g : Firmware) → radio_init m f ≡ ok g → Same f g
unfolding radio_init
radio_init-Same m f g h =
    let f1 = set_priorities (m.syscall_priority + 1) radio_irqs f in
    let a = note_call-Same dma_init f1 in
    let b = note_call-Same pa_init (note_call dma_init f1) in
    let c = note_call-Same rf_path_init (note_call pa_init (note_call dma_init f1)) in
    let f2 = note_call rf_path_init (note_call pa_init (note_call dma_init f1)) in
    let d = note_call-Same rssi_init f2 in
    let e = note_call-Same rail_init (note_call rssi_init f2) in
    Same-trans (set_priorities-Same (m.syscall_priority + 1) radio_irqs f) (
      Same-trans a (
        Same-trans b (
          Same-trans c (
            Same-trans d (
              Same-trans e (
                ready-Same m.rf_ready m.rail (note_call rail_init (note_call rssi_init f2)) g
                  h))))))

-- The calls of Radio::Init, newest first: the priorities of the radio's interrupts, one below those
-- that may call the RTOS, then the DMA, the amplifier, the path, the signal strength and RAIL.
abbrev pub radio_calls : ℕ → List Call → List Call
radio_calls p older =
    rail_init
    ∷ rssi_init
    ∷ rf_path_init
    ∷ pa_init
    ∷ dma_init
    ∷ set_priority rfeca1 p
    ∷ set_priority rfeca0 p
    ∷ set_priority synth p
    ∷ set_priority protimer p
    ∷ set_priority agc p
    ∷ set_priority bufc p
    ∷ set_priority rac_rsm p
    ∷ set_priority rac_seq p
    ∷ set_priority modem p
    ∷ set_priority frc p
    ∷ set_priority frc_pri p
    ∷ older

on_rf_ready-calls : (rail : Rail) (f g : Firmware) → on_rf_ready rail f ≡ ok g → g.calls ≡ f.calls
unfolding on_rf_ready
on_rf_ready-calls rail f g h =
    let (s, run, rest) =
      bind-ok (init_task rail f.system) (λ (s : System). ok (record f { system = s })) g h in
    let same : record f { system = s } ≡ g = cc rest in ap (λ (u : Firmware). u.calls) (sym same)

ready-calls :
    (ready : Bool) (rail : Rail) (f g : Firmware)
    → (if ready then on_rf_ready rail f else ok f) ≡ ok g
    → g.calls ≡ f.calls
ready-calls true rail f g h = on_rf_ready-calls rail f g h
ready-calls false rail f g h = let same : f ≡ g = cc h in ap (λ (u : Firmware). u.calls) (sym same)

pub calls-radio_init :
    (m : Machine) (f g : Firmware)
    → radio_init m f ≡ ok g
    → g.calls ≡ radio_calls (m.syscall_priority + 1) f.calls
unfolding radio_init set_priorities note_call
calls-radio_init m f g h = ready-calls m.rf_ready m.rail _ g h
