-- ===== src/HostIf/Watchdog.antt =====
-- Sources/HostIf/Watchdog.h and Watchdog.cpp: the software watchdog on the host's commands.
pub mod Comms
use blazenet_device_fw.Prelude.{ℕ, ◌+◌, ◌%◌, Bool, true, false, not, ◌&&◌, ltb, if◌then◌else◌, u32}
use blazenet_device_fw.BlazeNet.Beacon.{comms_lost, comms_regained}
use blazenet_device_fw.System.{
  System, blink_attention_fast, turn_off_attention, WatchdogState, boot, emit,
}

-- kWdogThreshold
abbrev pub wdog_threshold : ℕ
wdog_threshold = 6

abbrev set_watchdog : System → WatchdogState → System
set_watchdog s w = record s { watchdog = w }

unfoldable pub handle_comms_lost : System → System
unfolding comms_lost emit
handle_comms_lost s =
    comms_lost
      (emit blink_attention_fast (set_watchdog s (record (s.watchdog) { comms_lost_flag = true })))

unfoldable pub handle_comms_regained : System → System
unfolding comms_regained emit
handle_comms_regained s =
    comms_regained
      (emit turn_off_attention (set_watchdog s (record (s.watchdog) { comms_lost_flag = false })))

-- The timer's callback.
unfoldable pub wdog_expired : System → System
unfolding handle_comms_lost
wdog_expired s =
    let missed = u32 (s.watchdog.checkins_missed + 1) in
    let s1 = set_watchdog s (record (s.watchdog) { checkins_missed = missed }) in
    if ltb wdog_threshold missed && not s.watchdog.comms_lost_flag then handle_comms_lost s1 else s1

unfoldable pub kick : System → System
unfolding handle_comms_regained
kick s =
    let s1 = if s.watchdog.comms_lost_flag then handle_comms_regained s else s in
    set_watchdog s1 (record (s1.watchdog) { checkins_missed = 0 })

-- The state after the firmware's start: Init reports the host as lost.
unfoldable pub started : System
unfolding handle_comms_lost
started = handle_comms_lost boot
