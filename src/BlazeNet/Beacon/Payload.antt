-- ===== src/BlazeNet/Beacon/Payload.antt =====
-- Beacon::SetPayload of Sources/BlazeNet/Beacon.cpp and what it does to the transmit path.
use blazenet_device_fw.Prelude.{
  ℕ, ◌+◌, ◌≤◌, ◌≡◌, refl, ap, ◌∙◌, ◌⊎◌, inl, inr, true, Option, none, some, List, length, sub32, ℤ,
  pos, negsuc, ok, arith,
}
use blazenet_device_fw.BlazeNet.Beacon.{set_payload, release_beacon, keep_beacon, set_beacon}
use blazenet_device_fw.Packet.Buffers.{TxPacketBuffer, find, tx_header_size}
use blazenet_device_fw.Packet.Invariant.{TxInv, SameTx, SameTx-TxInv}
use blazenet_device_fw.Packet.Tx.{new_tx_buffer, init_tx_buffer, alloc_tx_packet}
use blazenet_device_fw.Packet.Tx.Discard.{discard_released}
use blazenet_device_fw.Packet.Tx.Queue.{IsFresh, alloc_cases, init_tx_buffer-TxInv, find_first}
use blazenet_device_fw.System.{System, Env}

-- At the pointer is a sticky buffer with exactly the payload, and no failed attempts.
abbrev pub Keeps : ℕ → List ℕ → System → Type 0
Keeps p payload t =
    (b : TxPacketBuffer) × (find p t.store ≡ some b)
    × (b.is_sticky ≡ true)
    × (b.payload ≡ payload)
    × (b.packet_size ≡ length payload)
    × (b.csma_fail_count ≡ 0)

-- What SetPayload reports and leaves: no beacon packet and unchanged books, or a new sticky buffer
-- with exactly the payload.
abbrev pub Configures : List ℕ → System → ℤ × System → Type 0
Configures payload s (err, t) =
    ((err ≡ negsuc 0) × (t.beacon.packet ≡ none) × SameTx s t)
    ⊎ ((p : ℕ) × (err ≡ pos 0)
        × (t.beacon.packet ≡ some p)
        × Keeps p payload t
        × (t.tx.packets_pending ≡ s.tx.packets_pending))

first_Keeps :
    (p : ℕ) (payload : List ℕ) (s : System)
    → length payload ≤ 65535
    → Keeps p payload (init_tx_buffer p payload true s)
unfolding init_tx_buffer new_tx_buffer
first_Keeps p payload s small = (
  new_tx_buffer payload true,
  find_first p (new_tx_buffer payload true) s.store,
  refl,
  refl,
  omega (arith, small),
  refl,
)

set_payload_run :
    (env : Env) (payload : List ℕ) (s u : System) (l : Option ℕ) (r : Option ℕ × System)
    → s.beacon.packet ≡ l
    → release_beacon l s ≡ ok u
    → alloc_tx_packet env payload true u ≡ r
    → set_payload env payload s ≡ ok (keep_beacon r)
unfolding set_payload
set_payload_run env payload s u l r e gone run = rw (ap (λ k. release_beacon k s) e ∙ gone, run)

-- The first payload: with right books and a malloc that returns fresh addresses SetPayload returns
-- and the books are right afterwards. Either it reports an error and nothing is allocated, or the
-- beacon has a sticky buffer with exactly the payload, and no more packets are pending than before.
pub set_payload-Configures :
    (env : Env) (payload : List ℕ) (s : System)
    → IsFresh env
    → length payload ≤ 65535
    → TxInv s
    → s.beacon.packet ≡ none
    → (r : ℤ × System) × (set_payload env payload s ≡ ok r) × TxInv r.1 × Configures payload s r
unfolding release_beacon keep_beacon init_tx_buffer
set_payload-Configures env payload s fresh small v e = elim (alloc_cases env payload true s) [
  | inl (t, run, same) ↦ (
    keep_beacon (none, t),
    set_payload_run env payload s s none _ e refl run,
    ground (arith, SameTx-TxInv same v),
    inl (refl, refl, ground (arith, same)),
  )
  | inr (p, run, got, fits) ↦
      (let free = fresh s.store (tx_header_size + length payload) p got in
        (
          keep_beacon (some p, init_tx_buffer p payload true s),
          set_payload_run env payload s s none _ e refl run,
          ground (arith, init_tx_buffer-TxInv p payload true s free small fits v),
          inr (p, refl, refl, first_Keeps p payload s small, refl),
        ))
]

-- A later payload: SetPayload takes one packet off the pending count, whether or not the old beacon
-- packet was pending, and leaves the queues and the packet in flight as they were. So if no packet
-- is pending, the count becomes 4294967295.
pub set_payload-uncounts :
    (env : Env) (payload : List ℕ) (p : ℕ) (b : TxPacketBuffer) (s : System)
    → s.beacon.packet ≡ some p
    → find p s.store ≡ some b
    → (r : ℤ × System) × (set_payload env payload s ≡ ok r)
      × (r.1.tx.packets_pending ≡ sub32 s.tx.packets_pending 1)
      × (r.1.tx.queues ≡ s.tx.queues)
      × (r.1.radio.last_tx ≡ s.radio.last_tx)
unfolding release_beacon keep_beacon init_tx_buffer
set_payload-uncounts env payload p b s e found =
    let (u, gone, d) = discard_released p b true s found (ground arith) in
    let v = set_beacon u (record (u.beacon) { packet = none }) in
    elim (alloc_cases env payload true v) [
      | inl (t, run, same) ↦ (
        keep_beacon (none, t),
        set_payload_run env payload s v (some p) _ e (rw gone) run,
        same.same_pending ∙ d.pending_after,
        same.same_queues ∙ d.queues_after,
        same.same_flight ∙ ap (λ r. r.last_tx) d.radio_after,
      )
      | inr (q, run, got, fits) ↦ (
        keep_beacon (some q, init_tx_buffer q payload true v),
        set_payload_run env payload s v (some p) _ e (rw gone) run,
        d.pending_after,
        d.queues_after,
        ap (λ r. r.last_tx) d.radio_after,
      )
    ]
