-- ===== src/Startup/Works.antt =====
-- On a board whose parts all work and whose flash is formatted, main of Sources/Main.cpp starts the
-- scheduler.
use blazenet_device_fw.Prelude.{
  ℕ, ◌<◌, ◌≡◌, sym, ap, subst, ◌∙◌, true, [], Outcome, ok, ◌>>=◌, ◌>>◌, require, arith,
}
use blazenet_device_fw.Crypto.Context.{status_ok}
use blazenet_device_fw.Crypto.Context
use blazenet_device_fw.Fs.Setup.{FsState, Started, mounted}
use blazenet_device_fw.Fs.Setup
use blazenet_device_fw.Fs.Setup.SecondBoot.{Serves, IsFormatted, init-mounted}
use blazenet_device_fw.HostIf.Irq.Line.{IsConsistent, init-IsConsistent}
use blazenet_device_fw.HostIf.Watchdog.Comms.{IsWatched}
use blazenet_device_fw.Startup.Boots.{Booted, main-Ends}
use blazenet_device_fw.Startup.{
  Machine, Firmware, Ended, running, clock_enable, power_on, note_call, hw_init, schedule_tasks,
  after_fs, sw_init, main, semailbox,
}
use blazenet_device_fw.BlazeNet.Beacon.{comms_lost}
use blazenet_device_fw.HostIf.Watchdog.{started, handle_comms_lost}
use blazenet_device_fw.Packet.Invariant.{TxInv, SameTx-TxInv, boot-TxInv}
use blazenet_device_fw.Packet.Rx.Ledger.{RxAccounted, rx_bytes}
use blazenet_device_fw.System.{System, emit}
use blazenet_device_fw.Startup.Returns.{
  IsEquipped, early_init-Returns, hw_init-Returns, start_parts-Returns,
}

pub record IsWorking (m : Machine) : Type 0 where
  pub equipped : IsEquipped m
  pub memory : (n : ℕ) → m.queue_memory n ≡ true
  pub serves : Serves m.board.services
  pub formatted : IsFormatted m.board

abbrev Starts : Outcome Ended → Type 0
Starts r = (f : Firmware) × (r ≡ ok (running f))

sw_init-Starts :
    (fuel : ℕ) (m : Machine) (f : Firmware) → 1 < fuel → IsWorking m → Starts (sw_init fuel m f)
unfolding sw_init after_fs Context.init Context.succeeded
sw_init-Starts fuel m f enough w =
    let f1 = note_call (clock_enable semailbox) f in
    let next = (λ (r : Started × FsState). after_fs fuel m r.0 (record f1 { fs = r.1 })) in
    let (fs, run) = init-mounted m.board w.serves w.formatted fuel f1.fs.0 f1.fs.1 in
    let (g, parts) =
      start_parts-Returns fuel m (record f1 { fs = fs }) enough w.equipped w.memory in
    let engine : Context.init m.engine ≡ ok tt =
      ap (λ err. require (Context.succeeded err)) w.equipped.crypto in
    (
      schedule_tasks g,
      ap (λ r. r >> (Setup.init fuel m.board f1.fs >>= next)) engine
          ∙ ap (λ r. r >>= next) run
          ∙ ap (λ r. r >>= λ (g : Firmware). ok (running (schedule_tasks g))) parts,
    )

-- The invariants of the parts that the tasks then run on.
pub record IsSound (s : System) : Type 0 where
  pub books : TxInv s
  pub accounted : RxAccounted s.rx []
  pub consistent : IsConsistent s.irq
  pub watched : IsWatched s

started-IsSound : IsSound started
unfolding started handle_comms_lost comms_lost emit rx_bytes
started-IsSound = record {
  books = SameTx-TxInv (ground arith) boot-TxInv;
  accounted = ground arith;
  consistent = init-IsConsistent;
  watched = ground arith;
}

-- On a board where every part of the RTOS and of the libraries can be had, memory suffices and
-- the flash is formatted, main starts the scheduler, with fuel for 16 rounds of a script. The
-- state is that of `Booted`, and the invariants hold of it on which the theorems about the transmit
-- path, the receive queue, the interrupts and the watchdog build.
pub main-Booted :
    (fuel : ℕ) (m : Machine)
    → 15 < fuel
    → IsWorking m
    → (f : Firmware) × (main fuel m ≡ ok (running f)) × Booted m f × IsSound f.system
unfolding main
main-Booted fuel m enough w =
    let (f1, run1) = early_init-Returns m power_on w.equipped in
    let (f2, run2) = hw_init-Returns fuel m f1 (omega arith) w.equipped in
    let (f, run3) = sw_init-Starts fuel m f2 (omega arith) w in
    let run : main fuel m ≡ ok (running f) =
      ap (λ r. r >>= λ (f1 : Firmware). hw_init fuel m f1 >>= sw_init fuel m) run1
      ∙ ap (λ r. r >>= sw_init fuel m) run2
      ∙ run3 in
    let booted = main-Ends fuel m (running f) enough run in
    (f, run, booted, subst IsSound (sym booted.ready) started-IsSound)
