-- ===== src/HostIf/Handlers.antt =====
-- Sources/HostIf/Handlers: the routines behind the host's commands, and the counters that
-- Packet::Handler and Radio::Task report. A read routine writes to the front of the payload buffer
-- and returns the number of bytes of the reply or a negative error. Bit fields start at the lowest
-- bit, and numbers of several bytes at the lowest byte.
pub mod Bits
pub mod Counters
pub mod Info
pub mod Radio
pub mod Irqs
pub mod Packets
use blazenet_device_fw.Prelude.{
  ℕ, zero, suc, ◌+◌, ◌-◌, ◌*◌, ◌/◌, ◌%◌, min, Bool, true, false, not, ◌&&◌, Option, none, some,
  List, [], ◌∷◌, ◌++◌, length, take, drop, get_or, ltb, ◌==◌, if◌then◌else◌, ℤ, pos, negsuc, is_err,
  Outcome, ok, ◌>>=◌, deref,
}
use blazenet_device_fw.BlazeNet.Beacon.{set_enabled, set_interval, set_payload}
use blazenet_device_fw.HostIf.Interrupt.{Interrupt}
use blazenet_device_fw.HostIf.Irq.{IrqManager}
use blazenet_device_fw.HostIf.Irq
use blazenet_device_fw.Packet.Buffers.{
  TxPacketPriority, background, normal, real_time, network_control, RxPacketBuffer,
  max_rx_queue_size,
}
use blazenet_device_fw.Packet.Rx.{pop_rx_queue, discard_rx_packet}
use blazenet_device_fw.Packet.Tx.{queue_tx_packet}
use blazenet_device_fw.Radio.Task.{set_channel, set_tx_power, set_address, is_active}
use blazenet_device_fw.System.{System, Env, on_irq}

abbrev pub ReadResult : Type 0
ReadResult = Outcome (ℤ × List ℕ × System)

abbrev pub byte : List ℕ → ℕ → ℕ
byte xs i = get_or xs i 0

abbrev pub word : List ℕ → ℕ → ℕ
word xs i = byte xs i + 256 * byte xs (i + 1)

abbrev pub bit : Bool → ℕ
bit true = 1
bit false = 0

-- Four bytes of a 32-bit number.
unfoldable pub bytes32 : ℕ → List ℕ
bytes32 n = n % 256 ∷ n / 256 % 256 ∷ n / 65536 % 256 ∷ n / 16777216 % 256 ∷ []

-- memcpy to the front of a buffer
unfoldable pub copy_to : List ℕ → List ℕ → List ℕ
copy_to xs buffer = xs ++ drop (length xs) buffer

-- Response::IrqConfig and Response::IrqStatus, and the requests of the same layout.
unfoldable pub irq_byte : Interrupt → ℕ
irq_byte i =
    bit i.command_error
    + 2 * bit i.packet_received
    + 4 * bit i.packet_transmitted
    + 8 * bit i.tx_queue_empty

unfoldable pub irq_of_byte : ℕ → Interrupt
irq_of_byte b = record {
  command_error = b % 2 == 1;
  packet_received = b / 2 % 2 == 1;
  packet_transmitted = b / 4 % 2 == 1;
  tx_queue_empty = b / 8 % 2 == 1;
}

-- IrqConfig
unfoldable pub irq_config_read : ℕ → List ℕ → System → ReadResult
irq_config_read requested buffer s =
    if ltb requested 1
    then ok (negsuc 0, buffer, s)
    else ok (pos 1, copy_to (irq_byte s.irq.mask ∷ []) buffer, s)

unfoldable pub irq_config_write : List ℕ → System → ℤ × System
irq_config_write payload s =
    if ltb (length payload) 1
    then (negsuc 0, s)
    else (pos 0, on_irq (Irq.set_mask (irq_of_byte (byte payload 0))) s)

-- IrqStatus
unfoldable pub irq_status_read : ℕ → List ℕ → System → ReadResult
irq_status_read requested buffer s =
    let pending = s.irq.masked_active in
    let actual = min requested 1 in
    ok (
      pos actual,
      copy_to (take actual (irq_byte pending ∷ [])) buffer,
      on_irq (Irq.acknowledge pending) s,
    )

unfoldable pub irq_status_write : List ℕ → System → ℤ × System
irq_status_write payload s =
    if ltb (length payload) 1
    then (negsuc 0, s)
    else (pos 0, on_irq (Irq.acknowledge (irq_of_byte (byte payload 0))) s)

-- GetStatus; the transmit queue's full flag stays 0.
unfoldable pub status_byte : Env → System → ℕ
status_byte env s =
    bit (not s.error_flag)
    + 2 * bit (is_active env s)
    + 4 * bit (not (length s.rx.queue == 0))
    + 8 * bit (length s.rx.queue == max_rx_queue_size)
    + 16 * bit s.rx.overflow_flag
    + 32 * bit (s.tx.packets_pending == 0)
    + 128 * bit s.tx.overflow_flag

unfoldable pub get_status_read : Env → ℕ → List ℕ → System → ReadResult
get_status_read env requested buffer s =
    let actual = min requested 1 in
    ok (
      pos actual,
      copy_to (take actual (status_byte env s ∷ [])) buffer,
      record s { error_flag = false },
    )

-- GetPacketQueueStatus; `front` of an empty queue is undefined.
unfoldable pub queue_status_read : ℕ → List ℕ → System → ReadResult
queue_status_read requested buffer s = elim s.rx.queue [
  | [] ↦ Outcome.fault
  | b ∷ bs ↦
      let flags_byte = 1 + 2 * bit (not (s.tx.packets_pending == 0)) in
      let temp = flags_byte ∷ b.packet_size % 256 ∷ [] in
      let actual = min requested 2 in ok (pos actual, copy_to (take actual temp) buffer, s)
]

-- ReadPacket, on the packet that PopRxQueue returned.
unfoldable pub read_popped : ℕ → List ℕ → RxPacketBuffer × System → ReadResult
read_popped requested buffer (b, s) =
    let actual = min requested (2 + b.packet_size) in
    ok (
      pos actual,
      copy_to (take actual (b.rssi ∷ b.lqi ∷ b.payload)) buffer,
      record s { read_pbuf = some b },
    )

unfoldable pub read_packet_read : ℕ → List ℕ → System → ReadResult
read_packet_read requested buffer s = do r ← pop_rx_queue s; read_popped requested buffer r

unfoldable pub read_packet_post : Env → Bool → System → Outcome System
read_packet_post env success s = do b ← deref s.read_pbuf; discard_rx_packet env b success s

-- TransmitPacket
unfoldable pub priority_of : ℕ → TxPacketPriority
priority_of n =
    if n % 4 == 0
    then background
    else if n % 4 == 1
    then normal
    else if n % 4 == 2
    then real_time
    else network_control

unfoldable pub transmit_result : Option ℕ × System → ℤ × System
transmit_result (none, s) = (negsuc 1, s)
transmit_result (some p, s) = (pos 0, s)

unfoldable pub transmit_packet_write : Env → List ℕ → System → Outcome (ℤ × System)
transmit_packet_write env payload s = if ltb (length payload) 1 then ok (negsuc 0, s) else do
  r ← queue_tx_packet env (priority_of (byte payload 0)) (drop 1 payload) false s
  ok (transmit_result r)

-- BeaconConfig
unfoldable pub configure_beacon : Env → List ℕ → System → System
configure_beacon env payload s =
    if byte payload 0 % 2 == 1
    then set_interval env (word payload 1) (set_enabled (byte payload 0 / 2 % 2 == 1) s)
    else s

unfoldable pub beacon_config_write : Env → List ℕ → System → Outcome (ℤ × System)
beacon_config_write env payload s =
    if ltb (length payload) 3
    then ok (negsuc 0, s)
    else if length payload == 3
    then ok (pos 0, configure_beacon env payload s)
    else set_payload env (drop 3 payload) (configure_beacon env payload s)

-- RadioConfig: the next step, unless the last one has failed.
unfoldable pub unless_error : ℤ × System → (System → ℤ × System) → ℤ × System
unless_error (err, s) next = if is_err err then (err, s) else next s

unfoldable pub radio_config_write : Env → List ℕ → System → ℤ × System
radio_config_write env payload s =
    if ltb (length payload) 6
    then (negsuc 0, s)
    else unless_error (set_channel env (word payload 0) s) λ s1.
      unless_error (set_tx_power env (word payload 2) s1) λ s2. set_address (word payload 4) s2

-- strncpy to a field of `n` bytes
unfoldable pub padded : ℕ → List ℕ → List ℕ
padded zero xs = []
padded (suc n) [] = 0 ∷ padded n []
padded (suc n) (x ∷ xs) = x ∷ padded n xs

-- GetInfo
unfoldable pub info_bytes : Env → List ℕ
info_bytes env =
    (1 ∷ 1 ∷ 0 ∷ 1 ∷ [])
    ++ padded 8 env.git_hash
    ++ (1 ∷ 1 ∷ [])
    ++ padded 16 env.serial
    ++ padded 8 env.eui64
    ++ 140 ∷ []

unfoldable pub get_info_read : Env → ℕ → List ℕ → System → ReadResult
get_info_read env requested buffer s =
    ok (pos (min requested 39), copy_to (info_bytes env) buffer, s)

-- Packet::Handler::ReadCounters and Radio::Task::ReadCounters clear what they report.
unfoldable pub clear_packet_counters : System → System
clear_packet_counters s = record s {
  rx = record (s.rx) { buffer_discarded = 0; buffer_alloc_failed = 0; queue_discarded = 0 };
  tx = record (s.tx) { buffer_discarded = 0; buffer_alloc_failed = 0; queue_discarded = 0 };
}

unfoldable pub clear_radio_counters : System → System
clear_radio_counters s = record s {
  radio = record (s.radio) {
    rx_fifo_overflows = 0;
    rx_frame_errors = 0;
    rx_frames = 0;
    tx_fifo_drops = 0;
    tx_cca_fails = 0;
    tx_frames = 0;
  };
}

unfoldable pub counters : Env → System → List ℕ
counters env s =
    env.tick_count s.trace
    ∷ s.tx.packets_pending
    ∷ s.tx.alloc_bytes
    ∷ s.tx.buffer_discarded
    ∷ s.tx.buffer_alloc_failed
    ∷ s.tx.queue_discarded
    ∷ s.radio.tx_fifo_drops
    ∷ s.radio.tx_cca_fails
    ∷ s.radio.tx_frames
    ∷ length s.rx.queue
    ∷ s.rx.alloc_bytes
    ∷ s.rx.buffer_discarded
    ∷ s.rx.buffer_alloc_failed
    ∷ s.rx.queue_discarded
    ∷ s.radio.rx_fifo_overflows
    ∷ s.radio.rx_frame_errors
    ∷ s.radio.rx_frames
    ∷ []

unfoldable pub all_bytes32 : List ℕ → List ℕ
all_bytes32 [] = []
all_bytes32 (n ∷ ns) = bytes32 n ++ all_bytes32 ns

unfoldable pub get_counters_read : Env → ℕ → List ℕ → System → ReadResult
get_counters_read env requested buffer s =
    if ltb requested 68
    then ok (negsuc 0, buffer, s)
    else ok (
      pos requested,
      copy_to (all_bytes32 (counters env s)) buffer,
      clear_radio_counters (clear_packet_counters s),
    )
