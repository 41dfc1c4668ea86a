-- ===== src/Packet/Rx.antt =====
-- The receive half of Sources/Packet/Handler.cpp, and Task::QueueAck of Sources/Radio/Task.cpp,
-- which it calls to acknowledge a packet.
pub mod Ledger
pub mod Order
pub mod Ack
use blazenet_device_fw.Prelude.{
  ℕ, ◌+◌, ◌-◌, ◌*◌, ◌/◌, ◌%◌, Bool, true, false, not, ◌&&◌, Option, none, some, List, [], ◌∷◌, ◌++◌,
  length, get_or, ltb, leb, ◌==◌, if◌then◌else◌, u16, u32, sub32, Outcome, ok, panic, ◌>>=◌, ◌>>◌,
  require,
}
use blazenet_device_fw.HostIf.Interrupt.{packet_received_irq}
use blazenet_device_fw.HostIf.Irq
use blazenet_device_fw.Packet.Buffers.{
  network_control, RxPacketBuffer, rx_header_size, max_rx_buffer_size, max_rx_queue_size,
}
use blazenet_device_fw.Packet.Tx.{queue_tx_packet}
use blazenet_device_fw.System.{System, Env, RxState, on_irq}

-- What RAIL reports of a packet: its size and details, and the bytes that RAIL_CopyRxPacket copies.
pub record RxPacketInfo : Type 0 where
  pub packet_bytes : ℕ
  pub rssi : ℕ
  pub lqi : ℕ
  pub content : List ℕ

-- The MAC header: flags, sequence, source and destination (16 bits each, low byte first).
abbrev pub mac_header_size : ℕ
mac_header_size = 6

abbrev pub byte : List ℕ → ℕ → ℕ
byte xs i = get_or xs i 0

abbrev pub mac_flags : List ℕ → ℕ
mac_flags xs = byte xs 0

abbrev pub mac_sequence : List ℕ → ℕ
mac_sequence xs = byte xs 1

abbrev pub mac_source : List ℕ → ℕ
mac_source xs = byte xs 2 + 256 * byte xs 3

abbrev pub mac_destination : List ℕ → ℕ
mac_destination xs = byte xs 4 + 256 * byte xs 5

-- `flags & HeaderFlags::AckRequest`, bit 2
abbrev pub requests_ack : List ℕ → Bool
requests_ack xs = mac_flags xs / 4 % 2 == 1

-- HeaderFlags::EndpointAckResponse
abbrev pub endpoint_ack_response : ℕ
endpoint_ack_response = 8

unfoldable pub update_rx_queue_state : System → System
unfolding on_irq
update_rx_queue_state s = elim s.rx.queue [
  | [] ↦ s
  | b ∷ bs ↦ on_irq (Irq.assert packet_received_irq) s
]

abbrev pub set_rx : System → RxState → System
set_rx s r = record s { rx = r }

unfoldable pub new_rx_buffer : ℕ → RxPacketInfo → RxPacketBuffer
new_rx_buffer our_address info =
    let size = u16 info.packet_bytes in
    record {
      packet_size = size;
      rssi = info.rssi;
      lqi = info.lqi;
      auto_ack =
          leb mac_header_size size
          && requests_ack info.content
          && mac_destination info.content == our_address;
      payload = info.content;
    }

-- HandleRxPacket; `none` is the null pointer.
unfoldable pub handle_rx_packet : Env → RxPacketInfo → System → Option RxPacketBuffer × System
handle_rx_packet env info s =
    let r = s.rx in
    let required_bytes = rx_header_size + info.packet_bytes in
    let buffer = new_rx_buffer s.radio.address info in
    if length r.queue == max_rx_queue_size
    then (
      none,
      update_rx_queue_state (
          set_rx s
            (record r { overflow_flag = true; queue_discarded = u32 (r.queue_discarded + 1) })),
    )
    else if ltb max_rx_buffer_size (u32 (r.alloc_bytes + required_bytes))
    then (
      none,
      update_rx_queue_state (
          set_rx s
            (record r { overflow_flag = true; buffer_discarded = u32 (r.buffer_discarded + 1) })),
    )
    else if env.rx_malloc s.trace required_bytes
    then (
      some buffer,
      update_rx_queue_state (
          set_rx s (record r {
            alloc_bytes = u32 (r.alloc_bytes + required_bytes);
            queue = r.queue ++ buffer ∷ [];
          })),
    )
    else (
      none,
      update_rx_queue_state (
          set_rx s (record r {
            overflow_flag = true;
            buffer_alloc_failed = u32 (r.buffer_alloc_failed + 1);
          })),
    )

-- PopRxQueue on the queue's content; `front` of an empty queue is undefined.
unfoldable pub pop_rx_from : List RxPacketBuffer → System → Outcome (RxPacketBuffer × System)
pop_rx_from [] s = Outcome.fault
pop_rx_from (b ∷ bs) s = ok (b, update_rx_queue_state (set_rx s (record (s.rx) { queue = bs })))

unfoldable pub pop_rx_queue : System → Outcome (RxPacketBuffer × System)
pop_rx_queue s = pop_rx_from s.rx.queue s

-- The acknowledgement of a packet: its header with the addresses exchanged.
unfoldable pub ack_packet : List ℕ → List ℕ
ack_packet packet =
    endpoint_ack_response
    ∷ mac_sequence packet
    ∷ byte packet 4
    ∷ byte packet 5
    ∷ byte packet 2
    ∷ byte packet 3
    ∷ []

-- `REQUIRE(!tx, ...)`
unfoldable pub require_none : Option ℕ → Outcome (Unit {0})
require_none none = ok tt
require_none (some p) = panic

unfoldable pub queue_ack : Env → List ℕ → System → Outcome System
queue_ack env packet s = do
  require (leb mac_header_size (length packet))
  (tx, s1) ← queue_tx_packet env network_control (ack_packet packet) false s
  require_none tx
  ok s1

-- DiscardRxPacket
unfoldable pub discard_rx_packet : Env → RxPacketBuffer → Bool → System → Outcome System
discard_rx_packet env b ack s = do
  s1 ← if b.auto_ack && ack then queue_ack env b.payload s else ok s
  ok (
      set_rx s1
        (record (s1.rx) { alloc_bytes = sub32 s1.rx.alloc_bytes (rx_header_size + b.packet_size) }))
