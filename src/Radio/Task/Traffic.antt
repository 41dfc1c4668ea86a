-- ===== src/Radio/Task/Traffic.antt =====
-- Any traffic from start-up: packets from the host, and the rounds of the main loop of
-- Sources/Radio/Task.cpp that the radio's events wake.
use blazenet_device_fw.Prelude.{
  ℕ, ◌+◌, ◌≤◌, ◌≡◌, refl, inl, inr, true, false, Bool-cases, Option, none, some, List, [], ◌∷◌,
  length, ltb, ◌==◌, u32, subst, Outcome, ok, panic, fault, ◌>>=◌, arith,
}
use blazenet_device_fw.Packet.Buffers.{
  TxPacketPriority, TxPacketBuffer, find, max_rx_queue_size, max_rx_buffer_size, rx_header_size,
}
use blazenet_device_fw.Packet.Invariant.{TxInv, SameTx, SameTx-TxInv, boot-TxInv}
use blazenet_device_fw.Packet.Rx.{RxPacketInfo, set_rx, update_rx_queue_state, handle_rx_packet}
use blazenet_device_fw.Packet.Tx.{queue_tx_packet}
use blazenet_device_fw.Packet.Tx.Queue.{IsFresh, Queues, queue_tx_packet-Queues}
use blazenet_device_fw.Radio.Transmit.Attempt.{Accepts}
use blazenet_device_fw.Radio.Task.{Notification, read_packet, handle_notification}
use blazenet_device_fw.Radio.Task.Busy.{handle_channel_busy-cases}
use blazenet_device_fw.Radio.Task.Complete.{handle_tx_complete-Completes}
use blazenet_device_fw.Radio.Task.Drain.{completions, Drained, completions-Drained}
use blazenet_device_fw.System.{System, RxState, Env, Effect, pulse_rx, pulse_tx, emit, boot}

-- A packet from the host, and the radio's three reports.
pub data Event : Type 0 where
  host_transmit : TxPacketPriority → List ℕ → Event
  received : Option RxPacketInfo → Event
  sent channel_busy : Event

abbrev quiet : Notification
quiet = record {
  packet_received = false;
  packet_transmitted = false;
  tx_channel_busy = false;
  calibration_required = false;
}

unfoldable pub happen : Env → Event → System → Outcome System
happen env (host_transmit priority payload) s =
    queue_tx_packet env priority payload false s >>= λ r. ok r.1
happen env (received info) s =
    handle_notification env info (record quiet { packet_received = true }) s
happen env sent s = handle_notification env none (record quiet { packet_transmitted = true }) s
happen env channel_busy s = handle_notification env none (record quiet { tx_channel_busy = true }) s

unfoldable pub happen_all : Env → List Event → System → Outcome System
happen_all env [] s = ok s
happen_all env (e ∷ es) s = happen env e s >>= happen_all env es

-- The payloads that the host sends fit the length field of a buffer, and the radio reports on a
-- transmission only while a packet is in flight.
abbrev pub Fits : Event → System → Type 0
Fits (host_transmit priority payload) s = length payload ≤ 65535
Fits (received info) s = Unit {0}
Fits sent s = (p : ℕ) × (s.radio.last_tx ≡ some p)
Fits channel_busy s = (p : ℕ) × (s.radio.last_tx ≡ some p)

abbrev pub After : (System → Type 0) → Outcome System → Type 0
After P (ok s) = P s
After P panic = Unit {0}
After P fault = Unit {0}

-- Each event fits the state that the events before it have led to.
abbrev pub AreFitting : Env → List Event → System → Type 0
AreFitting env [] s = Unit {0}
AreFitting env (e ∷ es) s = Fits e s × After (AreFitting env es) (happen env e s)

SameTx-refl : (s : System) → SameTx s s
SameTx-refl s = record {
  same_store = refl;
  same_bytes = refl;
  same_pending = refl;
  same_queues = refl;
  same_flight = refl;
}

emit-SameTx : (e : Effect) (s : System) → SameTx s (emit e s)
unfolding emit
emit-SameTx e s = record {
  same_store = refl;
  same_bytes = refl;
  same_pending = refl;
  same_queues = refl;
  same_flight = refl;
}

update_rx_queue_state-SameTx :
    (s : System) (r : RxState) → SameTx s (update_rx_queue_state (set_rx s r))
unfolding update_rx_queue_state
update_rx_queue_state-SameTx s r = ground arith

handle_rx_packet-SameTx :
    (env : Env) (info : RxPacketInfo) (s : System) → SameTx s ((handle_rx_packet env info s).1)
unfolding handle_rx_packet
handle_rx_packet-SameTx env info s = elim (Bool-cases (length s.rx.queue == max_rx_queue_size)) [
  | inl full ↦ rw full (update_rx_queue_state-SameTx s _)
  | inr room ↦
      elim (Bool-cases
        (ltb max_rx_buffer_size (u32 (s.rx.alloc_bytes + (rx_header_size + info.packet_bytes))))) [
          | inl over ↦ rw (room, over) (update_rx_queue_state-SameTx s _)
          | inr fits ↦
              elim (Bool-cases (env.rx_malloc s.trace (rx_header_size + info.packet_bytes))) [
                | inr oom ↦ rw (room, fits, oom) (update_rx_queue_state-SameTx s _)
                | inl got ↦ rw (room, fits, got) (update_rx_queue_state-SameTx s _)
              ]
        ]
]

read_packet-SameTx :
    (env : Env) (info : Option RxPacketInfo) (s : System) → SameTx s (read_packet env info s)
unfolding read_packet emit
read_packet-SameTx env none s = SameTx-refl s
read_packet-SameTx env (some info) s =
    let h = handle_rx_packet-SameTx env info s in
    record {
      same_store = h.same_store;
      same_bytes = h.same_bytes;
      same_pending = h.same_pending;
      same_queues = h.same_queues;
      same_flight = h.same_flight;
    }

-- A round of the main loop returns, with right books.
abbrev Returns : Outcome System → Type 0
Returns m = (t : System) × (m ≡ ok t) × TxInv t

received-Returns :
    (env : Env) (info : Option RxPacketInfo) (s : System)
    → TxInv s
    → Returns (happen env (received info) s)
unfolding happen handle_notification
received-Returns env info s v =
    let s1 = emit pulse_rx s in
    let v1 = SameTx-TxInv (emit-SameTx pulse_rx s) v in
    (read_packet env info s1, refl, SameTx-TxInv (read_packet-SameTx env info s1) v1)

Queues-TxInv :
    (priority : TxPacketPriority) (payload : List ℕ) (s : System) (r : Option ℕ × System)
    → Queues priority payload s r
    → TxInv r.1
Queues-TxInv priority payload s (none, t) q = q.0
Queues-TxInv priority payload s (some p, t) q = q.0

host-Returns :
    (env : Env) (priority : TxPacketPriority) (payload : List ℕ) (s : System)
    → IsFresh env
    → length payload ≤ 65535
    → TxInv s
    → Returns (happen env (host_transmit priority payload) s)
unfolding happen
host-Returns env priority payload s fresh small v =
    let (r, run, q) = queue_tx_packet-Queues env priority payload false s fresh small v in
    (r.1, rw run, Queues-TxInv priority payload s r q)

sent-Returns :
    (env : Env) (p : ℕ) (s : System)
    → Accepts env
    → TxInv s
    → s.radio.last_tx ≡ some p
    → Returns (handle_notification env none (record quiet { packet_transmitted = true }) s)
unfolding handle_notification emit
sent-Returns env p s acc v e =
    let s1 = emit pulse_tx s in
    let v1 = SameTx-TxInv (emit-SameTx pulse_tx s) v in
    elim (handle_tx_complete-Completes env p s1 v1 e) [
      | inl (t, run, c) ↦ (t, rw run, c.inv)
      | inr (run, refuses) ↦ absurd (refuses acc)
    ]

in_flight :
    (p : ℕ) (s : System)
    → TxInv s
    → s.radio.last_tx ≡ some p
    → (b : TxPacketBuffer) × (find p s.store ≡ some b)
in_flight p s v e = v.books.live p (rw e (ground arith))

busy-Returns :
    (env : Env) (p : ℕ) (s : System)
    → Accepts env
    → TxInv s
    → s.radio.last_tx ≡ some p
    → Returns (handle_notification env none (record quiet { tx_channel_busy = true }) s)
unfolding handle_notification
busy-Returns env p s acc v e =
    let (b, found) = in_flight p s v e in
    elim (handle_channel_busy-cases env p b s v e found) [
      | inl (t, run, inl again) ↦ (t, rw run, again.inv)
      | inl (t, run, inr (many, c)) ↦ (t, rw run, c.inv)
      | inr (run, refuses) ↦ absurd (refuses acc)
    ]

happen-Returns :
    (env : Env) (e : Event) (s : System)
    → IsFresh env
    → Accepts env
    → Fits e s
    → TxInv s
    → Returns (happen env e s)
unfolding happen
happen-Returns env (host_transmit priority payload) s fresh acc small v =
    host-Returns env priority payload s fresh small v
happen-Returns env (received info) s fresh acc fits v = received-Returns env info s v
happen-Returns env sent s fresh acc (p, e) v = sent-Returns env p s acc v e
happen-Returns env channel_busy s fresh acc (p, e) v = busy-Returns env p s acc v e

happen_all-Returns :
    (env : Env) (es : List Event) (s : System)
    → IsFresh env
    → Accepts env
    → AreFitting env es s
    → TxInv s
    → Returns (happen_all env es s)
unfolding happen_all
happen_all-Returns env [] s fresh acc fits v = (s, refl, v)
happen_all-Returns env (e ∷ es) s fresh acc (now, later) v =
    let (t, run, w) = happen-Returns env e s fresh acc now v in
    rw run (happen_all-Returns env es t fresh acc (subst (After (AreFitting env es)) run later) w)

-- From start-up, one after the other: any packets from the host of at most 65535 bytes, any
-- reports on received packets, and any reports that a transmission is over or found the channel
-- busy, each while a packet is in flight. They are handled without a panic, given a malloc that
-- returns fresh addresses and a radio that accepts every packet. The books are right afterwards,
-- and as many completions as packets are pending then all return and leave no packet pending,
-- queued or in flight, with every packet that waited handed to the radio.
pub traffic-Drained :
    (env : Env) (es : List Event)
    → IsFresh env
    → Accepts env
    → AreFitting env es boot
    → (s : System) × (happen_all env es boot ≡ ok s)
      × TxInv s
      × ((t : System) × (completions s.tx.packets_pending env s ≡ ok t) × Drained s t)
traffic-Drained env es fresh acc fits =
    let (s, run, v) = happen_all-Returns env es boot fresh acc fits boot-TxInv in
    (s, run, v, completions-Drained env s acc v)
