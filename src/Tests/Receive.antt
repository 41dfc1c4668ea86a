-- ===== src/Tests/Receive.antt =====
-- The theorems on the receive path, applied to single packets.
use blazenet_device_fw.Prelude.{
  refl, ℕ, ◌≡◌, ◌⊎◌, true, false, some, List, [], ◌∷◌, ok, panic, arith,
}
use blazenet_device_fw.Packet.Buffers.{RxPacketBuffer, network_control}
use blazenet_device_fw.Packet.Invariant.{SameTx}
use blazenet_device_fw.Packet.Rx.{
  RxPacketInfo, handle_rx_packet, update_rx_queue_state, pop_rx_queue, pop_rx_from,
  discard_rx_packet, set_rx, new_rx_buffer, ack_packet, queue_ack,
}
use blazenet_device_fw.HostIf.Handlers.{read_packet_read, read_packet_post}
use blazenet_device_fw.HostIf.Handlers.Packets.{Delivers, read_packet-Delivers}
use blazenet_device_fw.Packet.Rx.Ack.{queue_ack-cases}
use blazenet_device_fw.Packet.Rx.Ledger.{rx_bytes, RxAccounted}
use blazenet_device_fw.Packet.Rx.Order.{
  Event, receive, take, give_back, happen, happen_all, AreFitting, session_start, Orders,
  receive-IsOrdered,
}
use blazenet_device_fw.Packet.Tx.{queue_tx_packet}
use blazenet_device_fw.Packet.Tx.Final.{Waits, Flies}
use blazenet_device_fw.System.{System, boot, on_irq}
use blazenet_device_fw.Tests.{env, env-IsFresh}
use blazenet_device_fw.Packet.Invariant.{boot-TxInv}

abbrev content : List ℕ
content = 4 ∷ 9 ∷ 1 ∷ 0 ∷ 2 ∷ 0 ∷ []

abbrev info : RxPacketInfo
info = record { packet_bytes = 6; rssi = 200; lqi = 80; content = content }

boot-RxAccounted : RxAccounted boot.rx []
unfolding rx_bytes
boot-RxAccounted = ground arith

abbrev received : List Event
received = receive info ∷ receive info ∷ take ∷ give_back true ∷ take ∷ take ∷ receive info ∷ []

received-AreFitting : AreFitting env received session_start
unfolding happen handle_rx_packet update_rx_queue_state pop_rx_queue pop_rx_from discard_rx_packet
    new_rx_buffer set_rx on_irq
received-AreFitting = (omega arith, (omega arith, (tt, (refl, (tt, (tt, (omega arith, tt)))))))

receive-IsOrdered_example : Orders (happen_all env received session_start)
receive-IsOrdered_example = receive-IsOrdered env received received-AreFitting

queue_ack-cases_example :
    ((t : System) × (queue_ack env content boot ≡ ok t) × SameTx boot t)
    ⊎ ((p : ℕ) × (t : System) × (queue_ack env content boot ≡ panic)
        × (queue_tx_packet env network_control (ack_packet content) false boot ≡ ok (some p, t))
        × (Flies p (ack_packet content) boot t ⊎ Waits network_control p boot t))
queue_ack-cases_example = queue_ack-cases env content boot env-IsFresh (omega arith) boot-TxInv

-- A packet that asks for no acknowledgement waits in the queue.
abbrev waiting_packet : RxPacketBuffer
waiting_packet = record {
  packet_size = 6;
  rssi = 200;
  lqi = 80;
  auto_ack = false;
  payload = content;
}

abbrev one_received : System
one_received = record boot {
  rx = record (boot.rx) { alloc_bytes = 12; queue = waiting_packet ∷ [] };
}

one_received-RxAccounted : RxAccounted one_received.rx []
unfolding rx_bytes
one_received-RxAccounted = ground arith

read_packet-Delivers_example :
    Delivers 5 [] waiting_packet [] [] (read_packet_read 5 [] one_received) (read_packet_post env)
read_packet-Delivers_example =
    read_packet-Delivers env 5 [] one_received waiting_packet [] [] refl refl
      one_received-RxAccounted
