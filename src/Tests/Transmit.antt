-- ===== src/Tests/Transmit.antt =====
-- The theorems on the transmit path, applied to a radio with two packets pending and at start-up.
use blazenet_device_fw.Packet.Tx.{
  alloc_tx_packet, submit_allocated, submit_tx_packet, queue_tx_packet_final, tx_full,
  init_tx_buffer, new_tx_buffer, count_pending, clear_sticky, emplace, update_tx_queue_state,
  discard_tx_packet, free_tx_buffer, uncount_pending, pop_tx_from,
}
use blazenet_device_fw.Radio.Transmit.{
  attempt_transmit, start_transmit, enter_critical, exit_critical,
}
use blazenet_device_fw.Radio.Task.{
  handle_notification, retry_tx, transmit_popped, read_packet, complete_tx, continue_transmit,
  transmit_next,
}
use blazenet_device_fw.Packet.Buffers.{modify, release}
use blazenet_device_fw.System.{emit, queue_of, set_queue, on_irq}
use blazenet_device_fw.Prelude.{
  ℕ, ◌≡◌, refl, ◌⊎◌, false, Option, none, some, [], ◌∷◌, ok, panic, ℤ, arith,
}
use blazenet_device_fw.BlazeNet.Beacon.{set_payload}
use blazenet_device_fw.BlazeNet.Beacon.Payload.{Configures, set_payload-Configures}
use blazenet_device_fw.Packet.Buffers.{normal, find}
use blazenet_device_fw.Packet.Invariant.{TxInv}
use blazenet_device_fw.Packet.Tx.Sticky.{Submits, queue_sticky_packet-Submits}
use blazenet_device_fw.Packet.Tx.{queue_sticky_packet, queue_tx_packet, pop_tx_queue}
use blazenet_device_fw.Packet.Tx.Pop.{Pops, pop_tx_queue-Pops}
use blazenet_device_fw.Packet.Tx.Queue.{Queues, queue_tx_packet-Queues}
use blazenet_device_fw.Radio.Transmit.{tx_packet_immediate}
use blazenet_device_fw.Radio.Transmit.Attempt.{Accepts, Attempt, tx_packet_immediate-Attempt}
use blazenet_device_fw.Radio.Task.{failed_once, handle_tx_complete, handle_channel_busy}
use blazenet_device_fw.Radio.Task.Complete.{Completes, handle_tx_complete-Completes}
use blazenet_device_fw.Radio.Task.Traffic.{
  Event, host_transmit, received, sent, channel_busy, happen, happen_all, AreFitting,
  traffic-Drained,
}
use blazenet_device_fw.Packet.Buffers.{background, real_time}
use blazenet_device_fw.Prelude.{List, none}
use blazenet_device_fw.Radio.Task.Drain.{completions, Drained}
use blazenet_device_fw.System.{System, boot}
use blazenet_device_fw.Tests.{
  env, env-IsFresh, env-Accepts, first_buffer, second_buffer, two_pending, two_pending-TxInv,
}
use blazenet_device_fw.Packet.Invariant.{boot-TxInv}

abbrev traffic : List Event
traffic =
    host_transmit normal (1 ∷ 2 ∷ [])
    ∷ host_transmit real_time (3 ∷ [])
    ∷ channel_busy
    ∷ received none
    ∷ sent
    ∷ host_transmit background (4 ∷ [])
    ∷ []

traffic-AreFitting : AreFitting env traffic boot
unfolding happen queue_tx_packet alloc_tx_packet submit_allocated submit_tx_packet
    queue_tx_packet_final find tx_full init_tx_buffer new_tx_buffer count_pending clear_sticky
    emplace update_tx_queue_state tx_packet_immediate attempt_transmit start_transmit enter_critical
    exit_critical handle_notification emit handle_channel_busy retry_tx failed_once modify
    transmit_popped read_packet handle_tx_complete complete_tx discard_tx_packet free_tx_buffer
    uncount_pending release continue_transmit transmit_next pop_tx_queue pop_tx_from queue_of
    set_queue on_irq
traffic-AreFitting = (omega arith, (omega arith, ((1, refl), (tt, ((1, refl), (omega arith, tt))))))

traffic-Drained_example :
    (s : System) × (happen_all env traffic boot ≡ ok s)
    × TxInv s
    × ((t : System) × (completions s.tx.packets_pending env s ≡ ok t) × Drained s t)
traffic-Drained_example = traffic-Drained env traffic env-IsFresh env-Accepts traffic-AreFitting

queue_tx_packet-Queues_example :
    (r : Option ℕ × System) × (queue_tx_packet env normal (3 ∷ 4 ∷ []) false two_pending ≡ ok r)
    × Queues normal (3 ∷ 4 ∷ []) two_pending r
queue_tx_packet-Queues_example =
    queue_tx_packet-Queues env normal (3 ∷ 4 ∷ []) false two_pending env-IsFresh (omega arith)
      two_pending-TxInv

handle_tx_complete-Completes_example :
    ((t : System) × (handle_tx_complete env two_pending ≡ ok t) × Completes two_pending t)
    ⊎ ((handle_tx_complete env two_pending ≡ panic) × ¬ Accepts env)
handle_tx_complete-Completes_example =
    handle_tx_complete-Completes env 1 two_pending two_pending-TxInv refl

first_found : find 1 two_pending.store ≡ some first_buffer
unfolding find
first_found = refl

pop_tx_queue-Pops_example : Pops two_pending (pop_tx_queue two_pending)
pop_tx_queue-Pops_example = pop_tx_queue-Pops two_pending

tx_packet_immediate-Attempt_example :
    Attempt env 1 first_buffer two_pending (tx_packet_immediate env 1 two_pending)
tx_packet_immediate-Attempt_example =
    tx_packet_immediate-Attempt env 1 first_buffer two_pending first_found

no_beacon : boot.beacon.packet ≡ none
no_beacon = refl

set_payload-Configures_example :
    (r : ℤ × System) × (set_payload env (1 ∷ 2 ∷ []) boot ≡ ok r)
    × TxInv r.1
    × Configures (1 ∷ 2 ∷ []) boot r
set_payload-Configures_example =
    set_payload-Configures env (1 ∷ 2 ∷ []) boot env-IsFresh (omega arith) boot-TxInv no_beacon

second_found : find 2 two_pending.store ≡ some second_buffer
unfolding find
second_found = refl

queue_sticky_packet-Submits_example :
    (r : ℤ × System) × (queue_sticky_packet env normal 2 two_pending ≡ ok r)
    × Submits normal 2 second_buffer two_pending r
queue_sticky_packet-Submits_example =
    queue_sticky_packet-Submits env normal 2 second_buffer two_pending two_pending-TxInv
      second_found refl
