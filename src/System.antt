-- ===== src/System.antt =====
-- The state of the running firmware, and what it asks of the hardware and the RTOS.
--
-- Every component keeps its state in static members, so the state is one record with a part for
-- each component. A call out of the repository (RAIL, FreeRTOS timers, the LEDs' GPIOs) is an
-- entry of `trace`, newest first. What comes back from such a call is a field of `Env`: a
-- function of the calls made so far, so that every behaviour of the hardware is some `Env`.
use blazenet_device_fw.Prelude.{ℕ, Bool, true, false, Option, none, List, [], ◌∷◌}
use blazenet_device_fw.HostIf.Irq.{IrqManager}
use blazenet_device_fw.HostIf.Irq
use blazenet_device_fw.Packet.Buffers.{
  TxPacketPriority, background, normal, real_time, network_control, RxPacketBuffer, Store,
}

pub data Effect : Type 0 where
  write_tx_fifo : List ℕ → Effect
  start_cca_csma_tx : ℕ → Effect
  reset_fifo : Bool → Bool → Effect
  start_rx : ℕ → Effect
  apply_tx_power : ℕ → Effect
  hold_rx_packet release_rx_packet calibrate enable_pa_cal calibrate_ir : Effect
  config_auto_ack : ℕ → Effect
  beacon_timer_reset beacon_timer_stop : Effect
  beacon_timer_change_period : ℕ → Effect
  pulse_rx pulse_tx blink_attention_fast turn_off_attention : Effect

pub record Env : Type 0 where
  -- malloc: the address of a new block of so many bytes, if there is one
  pub malloc : Store → ℕ → Option ℕ
  pub rx_malloc : List Effect → ℕ → Bool
  -- RAIL_WriteTxFifo: how many bytes it took
  pub fifo_written : List Effect → List ℕ → ℕ
  -- whether RAIL_StartCcaCsmaTx, RAIL_StartRx, RAIL_IsValidChannel, RAIL_SetTxPower succeed
  pub tx_starts : List Effect → ℕ → Bool
  pub rx_starts : List Effect → ℕ → Bool
  pub valid_channel : ℕ → Bool
  pub power_set : List Effect → ℕ → Bool
  -- RAIL_ConvertDbmToRaw
  pub dbm_to_raw : ℕ → ℕ
  -- RAIL_GetRadioState: whether the receive and transmit bits are set
  pub radio_receiving : List Effect → Bool
  pub radio_transmitting : List Effect → Bool
  -- pdMS_TO_TICKS
  pub ms_to_ticks : ℕ → ℕ
  -- xTaskGetTickCount
  pub tick_count : List Effect → ℕ
  -- the build's git hash, and the serial number and EUI-64 of Hw::Identity
  pub git_hash : List ℕ
  pub serial : List ℕ
  pub eui64 : List ℕ

-- gTxQueues, in ascending order of priority: each a list of pointers, oldest first.
pub record TxQueues : Type 0 where
  pub background_queue : List ℕ
  pub normal_queue : List ℕ
  pub real_time_queue : List ℕ
  pub network_control_queue : List ℕ

unfoldable pub queue_of : TxPacketPriority → TxQueues → List ℕ
queue_of background qs = qs.background_queue
queue_of normal qs = qs.normal_queue
queue_of real_time qs = qs.real_time_queue
queue_of network_control qs = qs.network_control_queue

unfoldable pub set_queue : TxPacketPriority → List ℕ → TxQueues → TxQueues
set_queue background l qs = record qs { background_queue = l }
set_queue normal l qs = record qs { normal_queue = l }
set_queue real_time l qs = record qs { real_time_queue = l }
set_queue network_control l qs = record qs { network_control_queue = l }

-- The transmit half of Packet::Handler.
pub record TxState : Type 0 where
  pub overflow_flag : Bool
  pub alloc_bytes : ℕ
  pub buffer_discarded : ℕ
  pub buffer_alloc_failed : ℕ
  pub queue_discarded : ℕ
  pub packets_pending : ℕ
  pub queues : TxQueues

-- The receive half.
pub record RxState : Type 0 where
  pub overflow_flag : Bool
  pub alloc_bytes : ℕ
  pub buffer_discarded : ℕ
  pub buffer_alloc_failed : ℕ
  pub queue_discarded : ℕ
  pub queue : List RxPacketBuffer

-- Radio::Task.
pub record RadioState : Type 0 where
  pub rx_fifo_overflows : ℕ
  pub rx_frame_errors : ℕ
  pub rx_frames : ℕ
  pub tx_fifo_drops : ℕ
  pub tx_cca_fails : ℕ
  pub tx_frames : ℕ
  pub address : ℕ
  pub tx_channel : ℕ
  pub last_tx : Option ℕ

-- BlazeNet::Beacon.
pub record BeaconState : Type 0 where
  pub enabled : Bool
  pub packet : Option ℕ

-- HostIf::Watchdog.
pub record WatchdogState : Type 0 where
  pub comms_lost_flag : Bool
  pub checkins_missed : ℕ

-- `critical` is the nesting depth of taskENTER_CRITICAL; `read_pbuf` is ReadPacket::gPbuf and
-- `error_flag` is HostIf::Task::gErrorFlag.
pub record System : Type 0 where
  pub irq : IrqManager
  pub store : Store
  pub tx : TxState
  pub rx : RxState
  pub radio : RadioState
  pub beacon : BeaconState
  pub watchdog : WatchdogState
  pub read_pbuf : Option RxPacketBuffer
  pub error_flag : Bool
  pub critical : ℕ
  pub trace : List Effect

abbrev pub no_queues : TxQueues
no_queues = record {
  background_queue = [];
  normal_queue = [];
  real_time_queue = [];
  network_control_queue = [];
}

-- The static initialisers, with the queues that Handler::Init allocates.
abbrev pub boot : System
boot = record {
  irq = Irq.init;
  store = [];
  tx = record {
    overflow_flag = false;
    alloc_bytes = 0;
    buffer_discarded = 0;
    buffer_alloc_failed = 0;
    queue_discarded = 0;
    packets_pending = 0;
    queues = no_queues;
  };
  rx = record {
    overflow_flag = false;
    alloc_bytes = 0;
    buffer_discarded = 0;
    buffer_alloc_failed = 0;
    queue_discarded = 0;
    queue = [];
  };
  radio = record {
    rx_fifo_overflows = 0;
    rx_frame_errors = 0;
    rx_frames = 0;
    tx_fifo_drops = 0;
    tx_cca_fails = 0;
    tx_frames = 0;
    address = 0;
    tx_channel = 65535;
    last_tx = none;
  };
  beacon = record { enabled = false; packet = none };
  watchdog = record { comms_lost_flag = true; checkins_missed = 0 };
  read_pbuf = none;
  error_flag = false;
  critical = 0;
  trace = [];
}

-- `IrqManager::Assert` and the other calls of the interrupt manager, on the whole state.
unfoldable pub on_irq : (IrqManager → IrqManager) → System → System
on_irq f s = record s { irq = f s.irq }

unfoldable pub emit : Effect → System → System
emit e s = record s { trace = e ∷ s.trace }
