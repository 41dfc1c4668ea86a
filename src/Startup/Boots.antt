-- ===== src/Startup/Boots.antt =====
-- What the parts have done when main of Sources/Main.cpp has started the scheduler, or resets.
use blazenet_device_fw.Prelude.{
  ℕ, ◌<◌, ◌≡◌, refl, sym, ap, ◌∙◌, subst, true, false, List, [], ◌∷◌, Outcome, ok, ◌>>=◌, ◌>>◌,
  bind-ok, require-ok, Bool, require, ◌+◌, arith,
}
use blazenet_device_fw.Crypto.Context
use blazenet_device_fw.Fs.Setup.{FsState, Started, mounted, resets}
use blazenet_device_fw.Fs.Setup
use blazenet_device_fw.Fs.Setup.Choice.{HasChosen, chip, init-HasChosen}
use blazenet_device_fw.HostIf.Watchdog.{started, handle_comms_lost}
use blazenet_device_fw.Hw.Identity
use blazenet_device_fw.Hw.Indicators.Calls.{AreScheduled, perform-Keeps, init-Keeps, fast_blink}
use blazenet_device_fw.Hw.Indicators.Calls
use blazenet_device_fw.Hw.Indicators.{Lights, blink_attention_fast}
use blazenet_device_fw.Hw.Indicators
use blazenet_device_fw.Log.Logger.{LogState}
use blazenet_device_fw.Startup.Host.{HostDone, host_if_init-HostDone}
use blazenet_device_fw.Startup.Steps.{
  Same, Same-trans, note_call-Same, EarlyDone, early_init-EarlyDone, HwDone, hw_init-HwDone,
  radio_init-Same, radio_calls, calls-radio_init, clock_calls,
}
use blazenet_device_fw.Startup.{
  Machine, Firmware, Ended, running, reset_after, Call, start_scheduler, clock_enable, semailbox,
  TimerCommand, indicator_period, watchdog_start, beacon_stop, power_on, note_call, early_init,
  hw_init, new_queue, new_queues, num_queues, set_priority_grouping, uartdrv_init, spidrv_init,
  gpioint_init, radio_init, beacon_init, host_if_init, start_parts, schedule_tasks, after_fs,
  sw_init, main,
}
use blazenet_device_fw.System.{boot}

-- There was memory for the five packet queues, and the beacon has its timer.
pub record HasParts (m : Machine) : Type 0 where
  pub queues :
      (m.queue_memory 0 ≡ true)
      × (m.queue_memory 1 ≡ true)
      × (m.queue_memory 2 ≡ true)
      × (m.queue_memory 3 ≡ true)
      × (m.queue_memory 4 ≡ true)
  pub beacons_timer : m.beacon_timer ≡ true

new_queue-made :
    (b : Bool) (m : Outcome (Unit {0})) → new_queue b >> m ≡ ok tt → (b ≡ true) × (m ≡ ok tt)
unfolding new_queue
new_queue-made true m h = (refl, h)
new_queue-made false m h = absurd (cc h)

made-IsMade :
    (memory : ℕ → Bool)
    → new_queues memory 0 num_queues ≡ ok tt
    → (memory 0 ≡ true)
      × (memory 1 ≡ true)
      × (memory 2 ≡ true)
      × (memory 3 ≡ true)
      × (memory 4 ≡ true)
unfolding new_queues
made-IsMade memory h =
    let (a, h1) = new_queue-made (memory 0) _ h in
    let (b, h2) = new_queue-made (memory 1) _ h1 in
    let (c, h3) = new_queue-made (memory 2) _ h2 in
    let (d, h4) = new_queue-made (memory 3) _ h3 in
    let (e, h5) = new_queue-made (memory 4) _ h4 in (a, b, c, d, e)

-- The calls before the file system is mounted, newest first.
abbrev pub first_calls : List Call
first_calls = clock_enable semailbox ∷ uartdrv_init ∷ spidrv_init ∷ gpioint_init ∷ clock_calls

start_parts-HostDone :
    (fuel : ℕ) (m : Machine) (f g : Firmware)
    → 1 < fuel
    → start_parts fuel m f ≡ ok g
    → (f1 : Firmware) × Same f f1
      × HostDone fuel m f1 g
      × (f1.calls ≡ radio_calls (m.syscall_priority + 1) f.calls)
      × HasParts m
unfolding start_parts beacon_init
start_parts-HostDone fuel m f g enough h =
    let last : Firmware → Outcome Firmware = λ f1. beacon_init m >> host_if_init fuel m f1 in
    let (u, made, rest) =
      bind-ok (new_queues m.queue_memory 0 num_queues) (λ (u : Unit {0}). radio_init m f >>= last) g
        h in
    let (f1, radio, rest1) = bind-ok (radio_init m f) last g rest in
    let (v, beacon, rest2) =
      bind-ok (beacon_init m) (λ (v : Unit {0}). host_if_init fuel m f1) g rest1 in
    let (timer, more) = require-ok m.beacon_timer (require m.beacon_lock) v beacon in
    (
      f1,
      radio_init-Same m f f1 radio,
      host_if_init-HostDone fuel m f1 g enough rest2,
      calls-radio_init m f f1 radio,
      record { queues = made-IsMade m.queue_memory made; beacons_timer = timer },
    )

-- The state in which main starts the scheduler.
pub record Booted (m : Machine) (f : Firmware) : Type 0 where
  pub chosen : HasChosen m.board (chip m.board []) mounted
  pub uart_free : f.log.uart_completion ≡ true
  pub known_device : f.identity ≡ Identity.init m.encoders m.eui64_high m.eui64_low
  pub ready : f.system ≡ started
  pub scheduled : AreScheduled f.lights
  pub commands :
      (p : ℕ) × (q : ℕ) × (r : ℕ) × (n : ℕ) × (f.timer_commands
        ≡ beacon_stop
          ∷ indicator_period n
          ∷ watchdog_start
          ∷ indicator_period r
          ∷ indicator_period q
          ∷ indicator_period p
          ∷ [])
  pub parts : HasParts m
  pub calls :
      f.calls
      ≡ start_scheduler ∷ set_priority_grouping 0 ∷ radio_calls (m.syscall_priority + 1) first_calls

-- The state in which main resets.
pub record Formatted (m : Machine) (f : Firmware) : Type 0 where
  pub chosen : HasChosen m.board (chip m.board []) resets
  pub untouched : f.system ≡ boot
  pub scheduled : AreScheduled f.lights
  pub calls : f.calls ≡ first_calls
  pub commands :
      (p : ℕ) × (q : ℕ) × (r : ℕ) × (f.timer_commands
        ≡ indicator_period r ∷ indicator_period q ∷ indicator_period p ∷ [])

abbrev pub Ends : Machine → Ended → Type 0
Ends m (running f) = Booted m f
Ends m (reset_after f) = Formatted m f

self_test-AreScheduled :
    (fuel : ℕ) (m : Machine) (l : Lights)
    → 15 < fuel
    → Indicators.init fuel m.ticks ≡ ok l
    → AreScheduled l
self_test-AreScheduled fuel m l enough run =
    let (t, same_run, h) = init-Keeps fuel m.ticks enough in
    let same : t ≡ l = cc (run, same_run) in subst AreScheduled same h

blink-AreScheduled :
    (fuel now later : ℕ) (s l : Lights)
    → 15 < fuel
    → AreScheduled s
    → blink_attention_fast fuel now later s ≡ ok l
    → AreScheduled l
unfolding Calls.perform
blink-AreScheduled fuel now later s l enough v run =
    let (t, same_run, h) = perform-Keeps fuel (fast_blink now later) s enough v in
    let same : t ≡ l = cc (run, same_run) in subst AreScheduled same h

-- From HwInit to the scheduler.
module _ (fuel : ℕ) (m : Machine) (f1 f2 : Firmware) (enough : 15 < fuel) (early : EarlyDone m f1)
    (hw : HwDone fuel m f1 f2) where
  scheduled_early : AreScheduled f2.lights
  scheduled_early = self_test-AreScheduled fuel m f2.lights enough hw.testing

  host-Booted :
      (f3 f4 g : Firmware)
      → Same f2 f3
      → Same f3 f4
      → HostDone fuel m f4 g
      → f4.calls ≡ radio_calls (m.syscall_priority + 1) first_calls
      → HasParts m
      → HasChosen m.board (chip m.board []) mounted
      → Booted m (schedule_tasks g)
  unfolding schedule_tasks note_call started
  host-Booted f3 f4 g a b host called parts chosen =
      let same = Same-trans a b in
      let lights4 : AreScheduled f4.lights =
        subst AreScheduled (sym same.same_lights) scheduled_early in
      let (p, q, r, tested) = hw.commands in
      let (n, told) = host.commands in
      let commands4 = same.same_commands ∙ tested in
      let add =
        (λ (cs : List TimerCommand). beacon_stop ∷ indicator_period n ∷ watchdog_start ∷ cs) in
      let three = (λ (cs : List TimerCommand).
        indicator_period r ∷ indicator_period q ∷ indicator_period p ∷ cs) in
      let system4 = same.same_system ∙ hw.system_kept ∙ early.untouched in
      record {
        chosen = chosen;
        uart_free =
            ap (λ (l : LogState). l.uart_completion) (host.log_kept ∙ same.same_log ∙ hw.log_kept)
            ∙ early.uart_free;
        known_device =
            host.identity_kept ∙ same.same_identity ∙ hw.identity_kept ∙ early.known_device;
        ready = host.host_lost ∙ ap handle_comms_lost system4;
        scheduled =
            blink-AreScheduled fuel (m.ticks 6) (m.ticks 7) f4.lights g.lights enough lights4
              host.blinking;
        commands = (p, q, r, n, told ∙ ap add (commands4 ∙ ap three early.no_commands));
        parts = parts;
        calls =
            ap (λ (cs : List Call). start_scheduler ∷ set_priority_grouping 0 ∷ cs)
              (host.calls_kept ∙ called);
      }

  after_fs-Ends :
      (f3 : Firmware) (e : Started) (ended : Ended)
      → Same f2 f3
      → f3.calls ≡ first_calls
      → HasChosen m.board (chip m.board []) e
      → after_fs fuel m e f3 ≡ ok ended
      → Ends m ended
  unfolding after_fs
  after_fs-Ends f3 resets ended a called chosen h =
      let (p, q, r, tested) = hw.commands in
      let same : reset_after f3 ≡ ended = cc h in
      subst (Ends m) same record {
        chosen = chosen;
        untouched = a.same_system ∙ hw.system_kept ∙ early.untouched;
        scheduled = subst AreScheduled (sym a.same_lights) scheduled_early;
        calls = called;
        commands = (
          p,
          q,
          r,
          a.same_commands
              ∙ tested
              ∙ ap
                  (λ (cs : List TimerCommand).
                    indicator_period r ∷ indicator_period q ∷ indicator_period p ∷ cs)
                  early.no_commands,
        );
      }
  after_fs-Ends f3 mounted ended a called chosen h =
      let (g, run, rest) =
        bind-ok (start_parts fuel m f3) (λ (g : Firmware). ok (running (schedule_tasks g))) ended
          h in
      let same : running (schedule_tasks g) ≡ ended = cc rest in
      let (f4, b, host, radio, parts) = start_parts-HostDone fuel m f3 g (omega arith) run in
      subst (Ends m) same (
        host-Booted f3 f4 g a b host (radio ∙ ap (radio_calls (m.syscall_priority + 1)) called)
          parts chosen)

  sw_init-Ends : (ended : Ended) → sw_init fuel m f2 ≡ ok ended → Ends m ended
  unfolding sw_init
  sw_init-Ends ended h =
      let f = note_call (clock_enable semailbox) f2 in
      let next = (λ (r : Started × FsState). after_fs fuel m r.0 (record f { fs = r.1 })) in
      let (u, engine, rest) =
        bind-ok (Context.init m.engine) (λ (u : Unit {0}). Setup.init fuel m.board f.fs >>= next)
          ended h in
      let (r, run, rest1) = bind-ok (Setup.init fuel m.board f.fs) next ended rest in
      let no_flash : f.fs ≡ ([], []) = unfold note_call in (hw.fs_kept ∙ early.no_flash) in
      let fresh : Setup.init fuel m.board ([], []) ≡ ok r =
        ap (Setup.init fuel m.board) (sym no_flash) ∙ run in
      let chosen = (init-HasChosen fuel m.board [] [] r.0 r.1 fresh).0 in
      let a = note_call-Same (clock_enable semailbox) f2 in
      let b : Same f (record f { fs = r.1 }) = record {
        same_log = refl;
        same_identity = refl;
        same_lights = refl;
        same_system = refl;
        same_commands = refl;
      } in
      let called : f.calls ≡ first_calls =
        unfold note_call in
        (ap (λ (cs : List Call). clock_enable semailbox ∷ cs)
          (hw.drivers
            ∙ ap (λ (cs : List Call). uartdrv_init ∷ spidrv_init ∷ gpioint_init ∷ cs)
                early.clocks_only)) in
      after_fs-Ends (record f { fs = r.1 }) r.0 ended (Same-trans a b) called chosen rest1

-- With fuel for 16 rounds of a script, main ends in one of two ways, if it does not panic. It has
-- started the scheduler as its last call only if the chip is known, its superblock is valid and
-- its file system was mounted, there was memory for the five packet queues, the beacon has its
-- timer, and the calls of the drivers and of the radio were made in the order of Main.cpp. Then the logger is free to send, the identity is that of the chip's
-- registers, the packet handler, the radio task and the interrupts are as at power-on, the host
-- counts as lost, every light is idle or waits for its timer, and the RTOS was given six timer
-- commands, the last of which stops the beacon timer. It resets only if the flash was blank. Then the calls made are
-- the clocks' and the drivers', the timer commands those of the lights, and the parts behind the
-- radio are as at power-on.
pub main-Ends :
    (fuel : ℕ) (m : Machine) (ended : Ended) → 15 < fuel → main fuel m ≡ ok ended → Ends m ended
unfolding main
main-Ends fuel m ended enough h =
    let (f1, run1, rest1) =
      bind-ok (early_init m power_on) (λ (f1 : Firmware). hw_init fuel m f1 >>= sw_init fuel m)
        ended h in
    let (f2, run2, rest2) = bind-ok (hw_init fuel m f1) (sw_init fuel m) ended rest1 in
    let early = early_init-EarlyDone m f1 run1 in
    let hw = hw_init-HwDone fuel m f1 f2 (omega arith) early.lights_dark run2 in
    sw_init-Ends fuel m f1 f2 enough early hw ended rest2
