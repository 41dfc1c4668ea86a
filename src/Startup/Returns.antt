-- ===== src/Startup/Returns.antt =====
-- The steps of main of Sources/Main.cpp return where the RTOS has its static objects.
use blazenet_device_fw.Prelude.{
  ℕ, zero, suc, ◌+◌, ◌<◌, ◌≡◌, refl, ap, ◌∙◌, Bool, true, false, Outcome, ok, ◌>>=◌, ◌>>◌, require,
  if◌then◌else◌,
}
use blazenet_device_fw.Crypto.Context.{status_ok}
use blazenet_device_fw.Hw.Identity
use blazenet_device_fw.Hw.Indicators.{Lights, blink_attention_fast}
use blazenet_device_fw.Hw.Indicators
use blazenet_device_fw.Log.Logger.{LogState}
use blazenet_device_fw.Log.Logger.Panic
use blazenet_device_fw.Radio.Setup.{Rail, init_task}
use blazenet_device_fw.Startup.Host.{lost}
use blazenet_device_fw.Startup.Lamps.{init-commands, blink_attention_fast-Commands}
use blazenet_device_fw.Startup.{
  Machine, Firmware, gpioint_init, spidrv_init, uartdrv_init, dma_init, pa_init, rf_path_init,
  rssi_init, rail_init, note_call, enable_clocks, startup_clocks, early_init, relight, hw_init,
  new_queue, new_queues, num_queues, radio_irqs, set_priorities, on_rf_ready, radio_init,
  beacon_init, watchdog_init, host_if_init, start_parts,
}
use blazenet_device_fw.System.{System}

-- The static objects of the RTOS can be had, and the security engine starts.
pub record IsEquipped (m : Machine) : Type 0 where
  pub semaphore : m.log_semaphore ≡ true
  pub lights_timer : m.indicator_timer ≡ true
  pub lights_lock : m.indicator_lock ≡ true
  pub beacons_timer : m.beacon_timer ≡ true
  pub beacons_lock : m.beacon_lock ≡ true
  pub host : m.host_task ≡ true
  pub radio : m.rail.task_created ≡ true
  pub crypto : m.engine.init ≡ status_ok

abbrev pub Returns {ℓ} : {A : Type ℓ} → Outcome A → Type ℓ
Returns {A} r = (a : A) × (r ≡ ok a)

bind-Returns {ℓ κ} :
    {A : Type ℓ} {B : Type κ} (r : Outcome A) (f : A → Outcome B) (a : A)
    → r ≡ ok a
    → Returns (f a)
    → Returns (r >>= f)
bind-Returns r f a run (b, rest) = (b, ap (λ x. x >>= f) run ∙ rest)

require-Returns {ℓ} :
    {B : Type ℓ} (c : Bool) (k : Outcome B) → c ≡ true → Returns k → Returns (require c >> k)
require-Returns c k holds (b, rest) = (b, ap (λ x. require x >> k) holds ∙ rest)

pub early_init-Returns : (m : Machine) (f : Firmware) → IsEquipped m → Returns (early_init m f)
unfolding early_init Panic.init
early_init-Returns m f w =
    let f1 = enable_clocks startup_clocks f in
    let d = Identity.init m.encoders m.eui64_high m.eui64_low in
    let l : LogState = record (f1.log) { uart_completion = true } in
    bind-Returns (require m.log_semaphore >> ok l)
      (λ (l : LogState). ok (record f1 { log = l; identity = d })) l
      (ap (λ b. require b >> ok l) w.semaphore) (record f1 { log = l; identity = d }, refl)

pub hw_init-Returns :
    (fuel : ℕ) (m : Machine) (f : Firmware) → 1 < fuel → IsEquipped m → Returns (hw_init fuel m f)
unfolding hw_init
hw_init-Returns fuel m f enough w =
    let done = (λ (l : Lights).
      note_call uartdrv_init (note_call spidrv_init (note_call gpioint_init (relight l f)))) in
    let start : Outcome Firmware = Indicators.init fuel m.ticks >>= λ (l : Lights). ok (done l) in
    let (l, p, q, r, run, periods) = init-commands fuel m.ticks enough in
    require-Returns m.indicator_timer (require m.indicator_lock >> start) w.lights_timer (
      require-Returns m.indicator_lock start w.lights_lock (
        bind-Returns (Indicators.init fuel m.ticks) (λ (l : Lights). ok (done l)) l run
          (done l, refl)))

new_queues-made :
    (memory : ℕ → Bool) (n more : ℕ)
    → ((k : ℕ) → memory k ≡ true)
    → new_queues memory n more ≡ ok tt
unfolding new_queues new_queue
new_queues-made memory n zero all = refl
new_queues-made memory n (suc more) all =
    ap (λ b. new_queue b >> new_queues memory (n + 1) more) (all n)
    ∙ new_queues-made memory (n + 1) more all

ready-Returns :
    (ready : Bool) (rail : Rail) (f : Firmware)
    → rail.task_created ≡ true
    → Returns (if ready then on_rf_ready rail f else ok f)
unfolding on_rf_ready init_task
ready-Returns false rail f created = (f, refl)
ready-Returns true rail f created =
    bind-Returns (require rail.task_created >> ok f.system)
      (λ (s : System). ok (record f { system = s })) f.system
      (ap (λ b. require b >> ok f.system) created) (record f { system = f.system }, refl)

radio_init-Returns : (m : Machine) (f : Firmware) → IsEquipped m → Returns (radio_init m f)
unfolding radio_init
radio_init-Returns m f w =
    let f1 = set_priorities (m.syscall_priority + 1) radio_irqs f in
    let f2 =
      note_call rssi_init (note_call rf_path_init (note_call pa_init (note_call dma_init f1))) in
    ready-Returns m.rf_ready m.rail (note_call rail_init f2) w.radio

host_if_init-Returns :
    (fuel : ℕ) (m : Machine) (f : Firmware)
    → 1 < fuel
    → IsEquipped m
    → Returns (host_if_init fuel m f)
unfolding host_if_init watchdog_init
host_if_init-Returns fuel m f enough w =
    let (l, n, run, periods) =
      blink_attention_fast-Commands fuel (m.ticks 6) (m.ticks 7) f.lights enough in
    let start : Outcome Firmware =
      blink_attention_fast fuel (m.ticks 6) (m.ticks 7) f.lights >>= λ (l : Lights).
      ok (lost l f) in
    require-Returns m.host_task start w.host (
      bind-Returns (blink_attention_fast fuel (m.ticks 6) (m.ticks 7) f.lights)
        (λ (l : Lights). ok (lost l f)) l run (lost l f, refl))

pub start_parts-Returns :
    (fuel : ℕ) (m : Machine) (f : Firmware)
    → 1 < fuel
    → IsEquipped m
    → ((n : ℕ) → m.queue_memory n ≡ true)
    → Returns (start_parts fuel m f)
unfolding start_parts beacon_init
start_parts-Returns fuel m f enough w memory =
    let last : Firmware → Outcome Firmware = λ f1. beacon_init m >> host_if_init fuel m f1 in
    let (f1, radio) = radio_init-Returns m f w in
    bind-Returns (new_queues m.queue_memory 0 num_queues)
      (λ (u : Unit {0}). radio_init m f >>= last) tt
      (new_queues-made m.queue_memory 0 num_queues memory)
      (bind-Returns (radio_init m f) last f1 radio (
        bind-Returns (beacon_init m) (λ (u : Unit {0}). host_if_init fuel m f1) tt
          (ap (λ b. require b >> require m.beacon_lock) w.beacons_timer ∙ ap require w.beacons_lock)
          (host_if_init-Returns fuel m f1 enough w)))
