-- ===== src/Radio/Setup.antt =====
-- The set-up of the radio task, and its getters, of Sources/Radio/Task.cpp. RAIL and FreeRTOS answer
-- by the fields of `Rail`.
use blazenet_device_fw.Prelude.{
  ℕ, Bool, true, Option, none, some, ℤ, negsuc, Outcome, ok, ◌>>◌, require,
}
use blazenet_device_fw.System.{
  System, emit, reset_fifo, enable_pa_cal, calibrate_ir, config_auto_ack,
}

pub record Rail : Type 0 where
  -- xTaskCreateStatic
  pub task_created : Bool
  -- RAIL_CalibrateIr: whether it succeeds, and the calibration value
  pub calibrates_ir : Bool
  pub calibration_ir : ℕ
  -- RAIL_ConfigAutoAck
  pub auto_ack_configured : Bool
  -- RAIL_GetChannel, RAIL_GetTxPower and RAIL_ConvertRawToDbm
  pub channel : Option ℕ
  pub tx_power_level : ℕ
  pub raw_to_dbm : ℕ → ℤ

-- gCsmaConfig
pub record CsmaConfig : Type 0 where
  pub csma_min_bo_exp : ℕ
  pub csma_max_bo_exp : ℕ
  pub csma_tries : ℕ
  pub cca_threshold : ℤ
  pub cca_backoff : ℕ
  pub cca_duration : ℕ
  pub csma_timeout : ℕ

abbrev pub csma_config : CsmaConfig
csma_config = record {
  csma_min_bo_exp = 3;
  csma_max_bo_exp = 5;
  csma_tries = 6;
  cca_threshold = negsuc 74;
  cca_backoff = 200;
  cca_duration = 40;
  csma_timeout = 10000;
}

unfoldable pub init_task : Rail → System → Outcome System
init_task rail s = require rail.task_created >> ok s

-- InitAutoAck, which nothing calls; 1000 is the timeout of the acknowledgement in microseconds.
unfoldable pub init_auto_ack : Rail → System → Outcome System
init_auto_ack rail s =
    let s1 = emit (config_auto_ack 1000) s in require rail.auto_ack_configured >> ok s1

-- InitCalibration, with gCalibrationIr in the result.
unfoldable pub init_calibration : Rail → System → Outcome (ℕ × System)
init_calibration rail s =
    let s1 = emit calibrate_ir (emit enable_pa_cal s) in
    require rail.calibrates_ir >> ok (rail.calibration_ir, s1)

-- Main before its loop.
unfoldable pub set_up : Rail → System → Outcome (ℕ × System)
set_up rail s = init_calibration rail (emit (reset_fifo true true) s)

unfoldable pub channel_or_none : Option ℕ → ℕ
channel_or_none none = 65535
channel_or_none (some n) = n

unfoldable pub get_channel : Rail → ℕ
get_channel rail = channel_or_none rail.channel

unfoldable pub get_tx_power : Rail → ℤ
get_tx_power rail = rail.raw_to_dbm rail.tx_power_level

unfoldable pub get_address : System → ℕ
get_address s = s.radio.address
