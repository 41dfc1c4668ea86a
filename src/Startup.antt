-- ===== src/Startup.antt =====
-- The start of the firmware: Sources/Main.cpp, HostIf/Init.cpp, Radio/Init.cpp, BlazeNet/Init.h,
-- Rtos/Start.cpp and Init/CppHeap.cpp, and the initialisers of the parts that have no model of their
-- own. Log messages are left out, as in those parts.
--
-- `Machine` holds what the hardware and the libraries answer. The drivers' and the RTOS's set-up
-- calls are entries of `calls`, and the commands for the RTOS's timers entries of `timer_commands`,
-- both newest first: the timer task runs only under the scheduler, so the commands queue up.
pub mod Lamps
pub mod Steps
pub mod Host
pub mod Boots
pub mod Returns
pub mod Works
pub mod FirstRun
use blazenet_device_fw.Prelude.{
  ℕ, zero, suc, ◌+◌, ◌-◌, Bool, true, false, List, [], ◌∷◌, ◌++◌, length, take, if◌then◌else◌,
  Outcome, ok, ◌>>=◌, ◌>>◌, require, none,
}
use blazenet_device_fw.Crypto.Context.{Engine}
use blazenet_device_fw.Crypto.Context
use blazenet_device_fw.Fs.Setup.{Board, FsState, Started, mounted, resets}
use blazenet_device_fw.Fs.Setup
use blazenet_device_fw.HostIf.Watchdog.{handle_comms_lost}
use blazenet_device_fw.Hw.Identity.{Encoders, Identity}
use blazenet_device_fw.Hw.Identity
use blazenet_device_fw.Hw.Indicators.{Lights, dark, blink_attention_fast}
use blazenet_device_fw.Hw.Indicators
use blazenet_device_fw.Log.Logger.{LogState, trace}
use blazenet_device_fw.Log.Logger.Panic
use blazenet_device_fw.Radio.Setup.{Rail, init_task}
use blazenet_device_fw.System.{System, boot}

-- The peripherals whose clocks are enabled
pub data Clock : Type 0 where
  ldma ldma_xbar gpio eusart0 eusart1 eusart2 semailbox : Clock

-- kRadioIrqs
pub data RadioIrq : Type 0 where
  frc_pri frc modem rac_seq rac_rsm bufc agc protimer synth rfeca0 rfeca1 : RadioIrq

pub data Call : Type 0 where
  clock_enable : Clock → Call
  gpioint_init spidrv_init uartdrv_init : Call
  set_priority : RadioIrq → ℕ → Call
  dma_init pa_init rf_path_init rssi_init rail_init : Call
  set_priority_grouping : ℕ → Call
  start_scheduler : Call

pub data TimerCommand : Type 0 where
  indicator_period : ℕ → TimerCommand
  watchdog_start beacon_stop : TimerCommand

-- configTIMER_QUEUE_LENGTH
abbrev pub timer_queue_length : ℕ
timer_queue_length = 5

pub record Machine : Type 0 where
  -- the static objects of the RTOS that can be had
  pub log_semaphore : Bool
  pub indicator_timer : Bool
  pub indicator_lock : Bool
  pub beacon_timer : Bool
  pub beacon_lock : Bool
  pub host_task : Bool
  -- the EUI-64 registers of DEVINFO
  pub eui64_high : ℕ
  pub eui64_low : ℕ
  pub encoders : Encoders
  -- the n-th reading of the tick count
  pub ticks : ℕ → ℕ
  pub engine : Engine
  pub board : Board
  -- whether malloc has memory for the n-th queue
  pub queue_memory : ℕ → Bool
  pub rail : Rail
  -- whether RAIL reports that it is ready from within its initialisation
  pub rf_ready : Bool
  -- configLIBRARY_MAX_SYSCALL_INTERRUPT_PRIORITY
  pub syscall_priority : ℕ

pub record Firmware : Type 0 where
  pub log : LogState
  pub identity : Identity
  pub lights : Lights
  pub fs : FsState
  pub system : System
  pub calls : List Call
  pub timer_commands : List TimerCommand

-- The static initialisers
abbrev pub power_on : Firmware
power_on = record {
  log = record {
    level = trace;
    log_buffer_assigned = false;
    log_buffer = λ task. none;
    uart_completion = false;
    callback_due = false;
    sent = [];
  };
  identity = record { eui64 = []; serial = [] };
  lights = dark;
  fs = ([], []);
  system = boot;
  calls = [];
  timer_commands = [];
}

-- How the start ends: with the scheduler running, or with a reset after the flash is formatted.
pub data Ended : Type 0 where
  running reset_after : Firmware → Ended

unfoldable pub note_call : Call → Firmware → Firmware
note_call c f = record f { calls = c ∷ f.calls }

unfoldable pub enable_clocks : List Clock → Firmware → Firmware
enable_clocks [] f = f
enable_clocks (c ∷ cs) f = enable_clocks cs (note_call (clock_enable c) f)

-- Hw::Clocks::Init
abbrev pub startup_clocks : List Clock
startup_clocks = ldma ∷ ldma_xbar ∷ gpio ∷ eusart0 ∷ eusart1 ∷ eusart2 ∷ []

unfoldable pub early_init : Machine → Firmware → Outcome Firmware
early_init m f =
    let f1 = enable_clocks startup_clocks f in
    do
      log ← Panic.init m.log_semaphore f1.log
      let identity = Identity.init m.encoders m.eui64_high m.eui64_low
      ok (record f1 { log = log; identity = identity })

unfoldable pub period_commands : List ℕ → List TimerCommand
period_commands [] = []
period_commands (p ∷ ps) = indicator_period p ∷ period_commands ps

-- The lights after a call of the indicators, and the commands that the call has given to their timer.
unfoldable pub relight : Lights → Firmware → Firmware
relight l f =
    let fresh = take (length l.periods - length f.lights.periods) l.periods in
    record f { lights = l; timer_commands = period_commands fresh ++ f.timer_commands }

unfoldable pub hw_init : ℕ → Machine → Firmware → Outcome Firmware
hw_init fuel m f = do
  require m.indicator_timer
  require m.indicator_lock
  l ← Indicators.init fuel m.ticks
  ok (note_call uartdrv_init (note_call spidrv_init (note_call gpioint_init (relight l f))))

-- operator new hands on the null pointer of malloc, on which the queue is then constructed.
unfoldable pub new_queue : Bool → Outcome (Unit {0})
new_queue true = ok tt
new_queue false = Outcome.fault

-- Packet::Handler::Init from the n-th queue on, with so many to go.
unfoldable pub new_queues : (ℕ → Bool) → ℕ → ℕ → Outcome (Unit {0})
new_queues memory n zero = ok tt
new_queues memory n (suc more) = new_queue (memory n) >> new_queues memory (n + 1) more

-- The receive queue and the four transmit queues
abbrev pub num_queues : ℕ
num_queues = 5

abbrev pub radio_irqs : List RadioIrq
radio_irqs =
    frc_pri ∷ frc ∷ modem ∷ rac_seq ∷ rac_rsm ∷ bufc ∷ agc ∷ protimer ∷ synth ∷ rfeca0 ∷ rfeca1 ∷ []

unfoldable pub set_priorities : ℕ → List RadioIrq → Firmware → Firmware
set_priorities priority [] f = f
set_priorities priority (i ∷ is) f =
    set_priorities priority is (note_call (set_priority i priority) f)

-- sl_rail_util_on_rf_ready
unfoldable pub on_rf_ready : Rail → Firmware → Outcome Firmware
on_rf_ready rail f = do s ← init_task rail f.system; ok (record f { system = s })

unfoldable pub radio_init : Machine → Firmware → Outcome Firmware
radio_init m f =
    let f1 = set_priorities (m.syscall_priority + 1) radio_irqs f in
    let f2 =
      note_call rssi_init (note_call rf_path_init (note_call pa_init (note_call dma_init f1))) in
    let f3 = note_call rail_init f2 in if m.rf_ready then on_rf_ready m.rail f3 else ok f3

unfoldable pub beacon_init : Machine → Outcome (Unit {0})
beacon_init m = require m.beacon_timer >> require m.beacon_lock

unfoldable pub give_command : TimerCommand → Firmware → Firmware
give_command c f = record f { timer_commands = c ∷ f.timer_commands }

-- Watchdog::Init, where HandleCommsLost asks for the fast blink and stops the beacon timer.
unfoldable pub watchdog_init : ℕ → Machine → Firmware → Outcome Firmware
watchdog_init fuel m f = do
  l ← blink_attention_fast fuel (m.ticks 6) (m.ticks 7) f.lights
  let f1 = relight l (give_command watchdog_start f)
  ok (give_command beacon_stop (record f1 { system = handle_comms_lost f1.system }))

-- HostIf::Init; the interrupt line is high already in `boot`.
unfoldable pub host_if_init : ℕ → Machine → Firmware → Outcome Firmware
host_if_init fuel m f = require m.host_task >> watchdog_init fuel m f

-- SwInit after the file system is mounted
unfoldable pub start_parts : ℕ → Machine → Firmware → Outcome Firmware
start_parts fuel m f = do
  new_queues m.queue_memory 0 num_queues
  f1 ← radio_init m f
  beacon_init m
  host_if_init fuel m f1

-- StartScheduler
unfoldable pub schedule_tasks : Firmware → Firmware
schedule_tasks f = note_call start_scheduler (note_call (set_priority_grouping 0) f)

-- SwInit after Fs::Init, and the rest of main
unfoldable pub after_fs : ℕ → Machine → Started → Firmware → Outcome Ended
after_fs fuel m resets f = ok (reset_after f)
after_fs fuel m mounted f = do f1 ← start_parts fuel m f; ok (running (schedule_tasks f1))

unfoldable pub sw_init : ℕ → Machine → Firmware → Outcome Ended
sw_init fuel m f =
    let f1 = note_call (clock_enable semailbox) f in
    do
      Context.init m.engine
      (e, fs) ← Setup.init fuel m.board f1.fs
      after_fs fuel m e (record f1 { fs = fs })

unfoldable pub main : ℕ → Machine → Outcome Ended
main fuel m = do f1 ← early_init m power_on; f2 ← hw_init fuel m f1; sw_init fuel m f2
