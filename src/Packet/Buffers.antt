-- ===== src/Packet/Buffers.antt =====
-- The packet buffers of Sources/Packet/Handler.h, and the heap that holds transmit buffers.
--
-- A transmit buffer is shared: the queues, the packet in flight and the beacon hold pointers to
-- it, and it is written through them. So these buffers live in a store, and a pointer is a key of
-- it. A receive buffer has one owner at a time and is never written once it is queued, so it is
-- passed as a value.
use blazenet_device_fw.Prelude.{ℕ, Bool, Option, none, some, List, [], ◌∷◌, ◌==◌, if◌then◌else◌}

pub data TxPacketPriority : Type 0 where
  background normal real_time network_control : TxPacketPriority

-- `payload` is the trailing array `data`.
pub record TxPacketBuffer : Type 0 where
  pub packet_size : ℕ
  pub is_sticky : Bool
  pub csma_fail_count : ℕ
  pub payload : List ℕ

-- `rssi` is the byte of the signed value; `payload` is the trailing array `data`.
pub record RxPacketBuffer : Type 0 where
  pub packet_size : ℕ
  pub rssi : ℕ
  pub lqi : ℕ
  pub auto_ack : Bool
  pub payload : List ℕ

-- sizeof(TxPacketBuffer) and sizeof(RxPacketBuffer) on the target: the 16-bit size aligns them.
abbrev pub tx_header_size : ℕ
tx_header_size = 4

abbrev pub rx_header_size : ℕ
rx_header_size = 6

abbrev pub max_rx_buffer_size : ℕ
max_rx_buffer_size = 8192

abbrev pub max_rx_queue_size : ℕ
max_rx_queue_size = 255

abbrev pub max_tx_buffer_size : ℕ
max_tx_buffer_size = 4096

abbrev pub max_tx_queue_size : ℕ
max_tx_queue_size = 16

-- The live transmit buffers by address.
abbrev pub Store : Type 0
Store = List (ℕ × TxPacketBuffer)

unfoldable pub find : ℕ → Store → Option TxPacketBuffer
find p [] = none
find p ((q, b) ∷ st) = if q == p then some b else find p st

-- A write through a pointer.
unfoldable pub modify : ℕ → TxPacketBuffer → Store → Store
modify p v [] = []
modify p v ((q, b) ∷ st) = if q == p then (q, v) ∷ st else (q, b) ∷ modify p v st

-- `free`
unfoldable pub release : ℕ → Store → Store
release p [] = []
release p ((q, b) ∷ st) = if q == p then st else (q, b) ∷ release p st
