-- ===== src/Tests/Host.antt =====
-- The theorems on the host interface, applied to single exchanges after start-up.
use blazenet_device_fw.Prelude.{ℕ, ◌≡◌, refl, true, false, none, some, List, [], ◌∷◌, negsuc, ok}
use blazenet_device_fw.HostIf.Handlers.{copy_to, irq_byte, irq_config_write, get_counters_read}
use blazenet_device_fw.HostIf.Interrupt.{
  command_error_irq, packet_received_irq, inter, union, test_flags,
}
use blazenet_device_fw.HostIf.Irq.{
  IrqManager, init, acknowledge, set_mask, assert, tick_callback, update, set_irq_status,
}
use blazenet_device_fw.HostIf.Irq
use blazenet_device_fw.HostIf.Irq.Line.{
  masks, asserts, ticks, run, step, IsConsistent, run-IsConsistent,
}
use blazenet_device_fw.HostIf.Irq.Recovery.{recovery_never_ends}
use blazenet_device_fw.HostIf.Task.{
  irq_config, get_counters, flags, read_of, write_of, idle, header, HostTask, header_done,
}
use blazenet_device_fw.HostIf.Task.Rounds.{
  Notes, write_exchange, write_exchange-runs, header_done-failed,
}
use blazenet_device_fw.HostIf.Watchdog.{kick}
use blazenet_device_fw.HostIf.Watchdog.Comms.{
  kicks, expires, enables, intervals, after, IsWatched, after-IsWatched,
}
use blazenet_device_fw.System.{System, boot, on_irq}
use blazenet_device_fw.Tests.{env}

abbrev pub waiting : HostTask
waiting = record {
  sys = boot;
  armed = header;
  command_valid = false;
  command = 0;
  payload_length = 0;
  handler = none;
  payload_received = 0;
  buffer = 0 ∷ 0 ∷ [];
}

-- The host enables all interrupts.
enable_all :
    write_of env irq_config (15 ∷ []) (kick boot) ≡ ok (irq_config_write (15 ∷ []) (kick boot))
unfolding write_of
enable_all = refl

irq_config_writes : (flags irq_config).supports_write ≡ true
unfolding flags
irq_config_writes = refl

write_exchange-runs_example :
    (u : HostTask) × (write_exchange env 4 1 (15 ∷ []) waiting ≡ ok (some u))
    × (u.armed ≡ header)
    × Notes (irq_config_write (15 ∷ []) (kick boot)) u.sys
write_exchange-runs_example =
    write_exchange-runs env irq_config 4 1 waiting (15 ∷ [])
      (irq_config_write (15 ∷ []) (kick boot)) refl refl refl refl irq_config_writes enable_all

abbrev mask_reply : List ℕ
mask_reply = copy_to (irq_byte boot.irq.mask ∷ []) (0 ∷ 0 ∷ [])

-- The counters do not fit the four bytes that the host asks for.
read_fails : read_of env get_counters 4 (0 ∷ 0 ∷ []) boot ≡ ok (negsuc 0, 0 ∷ 0 ∷ [], boot)
unfolding read_of get_counters_read
read_fails = refl

get_counters_reads : (flags get_counters).supports_read ≡ true
unfolding flags
get_counters_reads = refl

header_done-failed_example :
    (u : HostTask) × (header_done env true 137 4 waiting ≡ ok u)
    × (u.armed ≡ idle)
    × (u.sys ≡ kick (on_irq (Irq.assert command_error_irq) (record boot { error_flag = true })))
header_done-failed_example =
    header_done-failed env get_counters 137 4 waiting 0 (0 ∷ 0 ∷ []) boot refl refl refl
      get_counters_reads read_fails

run-IsConsistent_example :
    IsConsistent (run (masks packet_received_irq ∷ asserts packet_received_irq ∷ ticks 1 ∷ []) init)
run-IsConsistent_example =
    run-IsConsistent (masks packet_received_irq ∷ asserts packet_received_irq ∷ ticks 1 ∷ [])

-- A packet is received, and the host has enabled its interrupt.
abbrev raised : IrqManager
raised = run (masks packet_received_irq ∷ asserts packet_received_irq ∷ []) init

-- The host has not reacted to the interrupt for more than one tick.
abbrev lost : IrqManager
lost = run (masks packet_received_irq ∷ asserts packet_received_irq ∷ ticks 1 ∷ ticks 1 ∷ []) init

lost_recovery : lost.lost_irq_recovery ≡ true
unfolding run step set_mask assert tick_callback update set_irq_status init inter union test_flags
    Irq.recover
lost_recovery = refl

recovery_never_ends_example :
    (run (ticks 1 ∷ ticks 1 ∷ ticks 1 ∷ ticks 1 ∷ []) lost).lost_irq_recovery ≡ true
recovery_never_ends_example =
    recovery_never_ends (ticks 1 ∷ ticks 1 ∷ ticks 1 ∷ ticks 1 ∷ []) lost tt
      (run-IsConsistent
        (masks packet_received_irq ∷ asserts packet_received_irq ∷ ticks 1 ∷ ticks 1 ∷ []))
      lost_recovery

after-IsWatched_example :
    IsWatched (after env (expires ∷ kicks ∷ intervals 100 ∷ enables true ∷ []))
after-IsWatched_example = after-IsWatched env (expires ∷ kicks ∷ intervals 100 ∷ enables true ∷ [])

abbrev interrupted : System
interrupted = record boot { irq = raised }
