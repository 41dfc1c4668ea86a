-- ===== src/Packet/Tx.antt =====
-- The transmit half of Sources/Packet/Handler.cpp.
pub mod Pop
pub mod Discard
pub mod Final
pub mod Queue
pub mod Sticky
use blazenet_device_fw.Prelude.{
  ℕ, ◌+◌, ◌-◌, ◌%◌, Bool, true, false, not, ◌||◌, Option, none, some, List, [], ◌∷◌, ◌++◌, length,
  ltb, leb, ◌==◌, if◌then◌else◌, u16, u32, sub32, ℤ, pos, negsuc, is_err, Outcome, ok, panic, ◌>>=◌,
  deref,
}
use blazenet_device_fw.HostIf.Interrupt.{tx_queue_empty_irq}
use blazenet_device_fw.HostIf.Irq
use blazenet_device_fw.Packet.Buffers.{
  TxPacketPriority, background, normal, real_time, network_control, TxPacketBuffer, find, modify,
  release, tx_header_size, max_tx_buffer_size, max_tx_queue_size,
}
use blazenet_device_fw.System.{System, Env, TxState, TxQueues, queue_of, set_queue, on_irq}
use blazenet_device_fw.Radio.Transmit.{tx_packet_immediate}

unfoldable pub update_tx_queue_state : System → System
unfolding on_irq
update_tx_queue_state s =
    if s.tx.packets_pending == 0 then on_irq (Irq.assert tx_queue_empty_irq) s else s

abbrev set_tx : System → TxState → System
set_tx s t = record s { tx = t }

unfoldable pub tx_full : TxPacketPriority → System → Bool
tx_full priority s = length (queue_of priority s.tx.queues) == max_tx_queue_size

-- The queue is full: set the flag, count, and report.
unfoldable pub reject_tx : System → System
reject_tx s = update_tx_queue_state (
    set_tx s
      (record (s.tx) { overflow_flag = true; queue_discarded = u32 (s.tx.queue_discarded + 1) }))

unfoldable pub new_tx_buffer : List ℕ → Bool → TxPacketBuffer
new_tx_buffer payload sticky = record {
  packet_size = u16 (length payload);
  is_sticky = sticky;
  csma_fail_count = 0;
  payload = payload;
}

-- The buffer limit is reached: set the flag, count, and report.
unfoldable pub reject_alloc : System → System
reject_alloc s = update_tx_queue_state (
    set_tx s
      (record (s.tx) { overflow_flag = true; buffer_discarded = u32 (s.tx.buffer_discarded + 1) }))

-- malloc has failed.
unfoldable pub fail_alloc : System → System
fail_alloc s = update_tx_queue_state (
    set_tx s (record (s.tx) {
      overflow_flag = true;
      buffer_alloc_failed = u32 (s.tx.buffer_alloc_failed + 1);
    }))

-- malloc has returned `p`: count the bytes and initialise the buffer.
unfoldable pub init_tx_buffer : ℕ → List ℕ → Bool → System → System
init_tx_buffer p payload sticky s = record s {
  store = (p, new_tx_buffer payload sticky) ∷ s.store;
  tx = record (s.tx) { alloc_bytes = u32 (s.tx.alloc_bytes + (tx_header_size + length payload)) };
}

unfoldable pub alloc_tx_packet : Env → List ℕ → Bool → System → Option ℕ × System
alloc_tx_packet env payload sticky s =
    let required_bytes = tx_header_size + length payload in
    if ltb max_tx_buffer_size (u32 (s.tx.alloc_bytes + required_bytes))
    then (none, reject_alloc s)
    else elim (env.malloc s.store required_bytes) [
      | none ↦ (none, fail_alloc s)
      | some p ↦ (some p, init_tx_buffer p payload sticky s)
    ]

-- `queue->emplace(buffer)`; the callers have checked that the queue is not full.
unfoldable pub emplace : TxPacketPriority → ℕ → System → System
emplace priority p s =
    let qs = s.tx.queues in
    set_tx s (record (s.tx) { queues = set_queue priority (queue_of priority qs ++ p ∷ []) qs })

-- `++gTxPacketsPending`
unfoldable pub count_pending : System → System
count_pending s = set_tx s (record (s.tx) { packets_pending = u32 (s.tx.packets_pending + 1) })

-- Clear the retry count of a sticky packet.
unfoldable pub clear_sticky : ℕ → TxPacketBuffer → System → System
clear_sticky p b s = record s {
  store = if b.is_sticky then modify p (record b { csma_fail_count = 0 }) s.store else s.store;
}

unfoldable pub queue_tx_packet_final : Env → TxPacketPriority → ℕ → System → Outcome (ℤ × System)
queue_tx_packet_final env priority p s = do
  b ← deref (find p s.store)
  let s1 = count_pending (clear_sticky p b s)
  (err, s2) ←
      if s.tx.packets_pending == 0
      then tx_packet_immediate env p s1
      else ok (pos 0, emplace priority p s1)
  ok (err, update_tx_queue_state s2)

-- QueueTxPacket of a packet that is already allocated.
unfoldable pub queue_sticky_packet : Env → TxPacketPriority → ℕ → System → Outcome (ℤ × System)
queue_sticky_packet env priority p s =
    if tx_full priority s
    then ok (negsuc 0, reject_tx s)
    else queue_tx_packet_final env priority p s

-- The buffer is released if it is not sticky, or by force.
unfoldable pub free_tx_buffer : ℕ → TxPacketBuffer → Bool → System → System
free_tx_buffer p b force s =
    if not b.is_sticky || force
    then record s {
      store = release p s.store;
      tx = record (s.tx) { alloc_bytes = sub32 s.tx.alloc_bytes (tx_header_size + b.packet_size) };
    }
    else s

-- `--gTxPacketsPending`
unfoldable pub uncount_pending : System → System
uncount_pending s = set_tx s (record (s.tx) { packets_pending = sub32 s.tx.packets_pending 1 })

unfoldable pub discard_tx_packet : ℕ → Bool → System → Outcome System
discard_tx_packet p force s = do
  b ← deref (find p s.store)
  ok (update_tx_queue_state (uncount_pending (free_tx_buffer p b force s)))

-- Enqueue a new packet or transmit it; clean up if that fails.
unfoldable pub submit_tx_packet : Env → TxPacketPriority → ℕ → System → Outcome (Option ℕ × System)
submit_tx_packet env priority p s = do
  (err, s1) ← queue_tx_packet_final env priority p s
  if is_err err then (do s2 ← discard_tx_packet p true s1; ok (none, s2)) else ok (some p, s1)

-- Go on with what AllocTxPacket returned.
unfoldable pub submit_allocated :
    Env → TxPacketPriority → Option ℕ × System → Outcome (Option ℕ × System)
submit_allocated env priority (none, s) = ok (none, s)
submit_allocated env priority (some p, s) = submit_tx_packet env priority p s

-- QueueTxPacket of a payload: `none` is the null pointer.
unfoldable pub queue_tx_packet :
    Env → TxPacketPriority → List ℕ → Bool → System → Outcome (Option ℕ × System)
queue_tx_packet env priority payload sticky s =
    if tx_full priority s
    then ok (none, reject_tx s)
    else submit_allocated env priority (alloc_tx_packet env payload sticky s)

-- The loop of PopTxQueue over the queues, from the highest priority down.
unfoldable pub pop_tx_from : List TxPacketPriority → System → Option ℕ × System
unfolding queue_of set_queue
pop_tx_from [] s = (none, s)
pop_tx_from (priority ∷ rest) s =
    let later = pop_tx_from rest s in
    elim (queue_of priority s.tx.queues) [
      | [] ↦ later
      | p ∷ ps ↦ (some p, set_tx s (record (s.tx) { queues = set_queue priority ps s.tx.queues }))
    ]

abbrev pub descending : List TxPacketPriority
descending = network_control ∷ real_time ∷ normal ∷ background ∷ []

unfoldable pub pop_tx_queue : System → Option ℕ × System
unfolding pop_tx_from
pop_tx_queue s = pop_tx_from descending s
