-- ===== src/Tests/Startup.antt =====
-- The theorems on the start of the firmware, its identity and its panic, applied to a board.
use blazenet_device_fw.Prelude.{
  ℕ, ◌+◌, ◌*◌, ◌≡◌, refl, true, some, List, [], ◌∷◌, length, take, drop, pos, ok, arith,
}
use blazenet_device_fw.HostIf.Handlers.{get_info_read}
use blazenet_device_fw.HostIf.Handlers.Info.{of_big_endian, with_identity, get_info_read-init}
use blazenet_device_fw.Hw.Identity.{Encoders}
use blazenet_device_fw.Hw.Identity
use blazenet_device_fw.Log.Logger.{LogState, done}
use blazenet_device_fw.Log.Logger.Panic.{TaskStatus, running, blocked, Kernel, log_panic}
use blazenet_device_fw.Log.Logger.Panic.PrintOut.{PrintsOut, log_panic-PrintsOut}
use blazenet_device_fw.Radio.Setup.{Rail}
use blazenet_device_fw.Startup.{Machine, Firmware, Ended}
use blazenet_device_fw.Startup
use blazenet_device_fw.Startup.Boots.{Ends, main-Ends}
use blazenet_device_fw.Startup.Returns.{IsEquipped}
use blazenet_device_fw.Startup.Works.{IsWorking, main-Booted}
use blazenet_device_fw.System.{boot}
use blazenet_device_fw.Tests.FileSystem.{
  empty_board, formatted_board, formatted_board-Serves, formatted_board-IsFormatted,
}
use blazenet_device_fw.Tests.Messages.{engine, caller, refused_state}
use blazenet_device_fw.Tests.{env}

abbrev encoders : Encoders
encoders = record {
  murmur_hash3 = λ bytes seed. length bytes + seed;
  base32_encode = λ bytes. bytes;
}

abbrev rail : Rail
rail = record {
  task_created = true;
  calibrates_ir = true;
  calibration_ir = 0;
  auto_ack_configured = true;
  channel = some 11;
  tx_power_level = 0;
  raw_to_dbm = λ raw. pos raw;
}

-- The second start of the board, and the first, with a blank flash.
abbrev second_start : Machine
second_start = record {
  log_semaphore = true;
  indicator_timer = true;
  indicator_lock = true;
  beacon_timer = true;
  beacon_lock = true;
  host_task = true;
  eui64_high = 0x588e81ff;
  eui64_low = 0xfe123456;
  encoders = encoders;
  ticks = λ n. 0;
  engine = engine;
  board = formatted_board;
  queue_memory = λ n. true;
  rail = rail;
  rf_ready = true;
  syscall_priority = 3;
}

abbrev first_start : Machine
first_start = record second_start { board = empty_board }

second_start-IsEquipped : IsEquipped second_start
second_start-IsEquipped = record {
  semaphore = refl;
  lights_timer = refl;
  lights_lock = refl;
  beacons_timer = refl;
  beacons_lock = refl;
  host = refl;
  radio = refl;
  crypto = refl;
}

second_start-IsWorking : IsWorking second_start
second_start-IsWorking = record {
  equipped = second_start-IsEquipped;
  memory = λ n. refl;
  serves = formatted_board-Serves;
  formatted = formatted_board-IsFormatted;
}

abbrev booted : Firmware
booted = (main-Booted 16 second_start (omega arith) second_start-IsWorking).0

main-Ends_example : Ends second_start (Startup.running booted)
main-Ends_example =
    main-Ends 16 second_start (Startup.running booted) (omega arith)
      (main-Booted 16 second_start (omega arith) second_start-IsWorking).1

-- Two tasks, one of which runs.
abbrev tasks : List TaskStatus
tasks =
    record {
      handle = 1;
      name = 0;
      current_state = running;
      run_time_counter = 10;
      current_priority = 2;
      stack_high_water_mark = 64;
    }
    ∷ record {
      handle = 2;
      name = 1;
      current_state = blocked;
      run_time_counter = 5;
      current_priority = 3;
      stack_high_water_mark = 32;
    }
    ∷ []

abbrev kernel : Kernel
kernel = record { system_state = λ n. tasks; message = λ line. 9 }

log_panic-PrintsOut_example :
    (t : LogState) × (log_panic caller kernel 1 refused_state ≡ ok (done t))
    × PrintsOut caller kernel 1 refused_state t
log_panic-PrintsOut_example = log_panic-PrintsOut caller kernel 1 refused_state refl (omega arith)

get_info_read-init_example :
    (reply : List ℕ) × (get_info_read
        (with_identity (Identity.init encoders 0x588e81ff 0xfe123456) env)
        64
        []
        boot
      ≡ ok (pos 39, reply, boot))
    × (of_big_endian 0 (take 8 (drop 30 reply)) ≡ 0x588e81ff * 4294967296 + 0xfe123456)
get_info_read-init_example =
    get_info_read-init encoders env 0x588e81ff 0xfe123456 64 [] boot (omega arith) (omega arith)
      (omega arith)
