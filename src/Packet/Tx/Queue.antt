-- ===== src/Packet/Tx/Queue.antt =====
-- QueueTxPacket of Sources/Packet/Handler.cpp keeps the books, on every branch.
use blazenet_device_fw.Prelude.{
  ℕ, ◌+◌, ◌≤◌, ◌≡◌, ◌∙◌, ◌⊎◌, inl, inr, Bool, true, false, Option, none, some, List, ◌∷◌, length,
  Bool-cases, Option-cases, ltb, ltb→le, ◌==◌, ==_iff, u16, u32, ok, arith,
}
use blazenet_device_fw.Packet.Buffers.{
  TxPacketPriority, TxPacketBuffer, Store, find, release, modify, tx_header_size,
  max_tx_buffer_size, max_tx_queue_size,
}
use blazenet_device_fw.Packet.Invariant.{
  TxInv, SameTx, SameTx-TxInv, reject_tx-SameTx, reject_alloc-SameTx, fail_alloc-SameTx, cleared,
}
use blazenet_device_fw.Packet.Ledger.{IsAccounted-cons, held_fresh}
use blazenet_device_fw.Packet.Tx.{
  submit_allocated, tx_full, reject_tx, reject_alloc, fail_alloc, new_tx_buffer, init_tx_buffer,
  alloc_tx_packet, clear_sticky, discard_tx_packet, submit_tx_packet, queue_tx_packet,
}
use blazenet_device_fw.Packet.Tx.Discard.{discard_released}
use blazenet_device_fw.Packet.Tx.Final.{Waits, Flies, Fails, IsRoomy, final_busy, final_idle}
use blazenet_device_fw.System.{System, Env, queue_of}

-- What QueueTxPacket of a payload reports, and the state that it leaves: no packet and unchanged
-- books, or a new packet, in flight at once or at the end of its queue.
abbrev pub Queues : TxPacketPriority → List ℕ → System → Option ℕ × System → Type 0
Queues priority payload s (none, t) = TxInv t × SameTx s t
Queues priority payload s (some p, t) = TxInv t × (Flies p payload s t ⊎ Waits priority p s t)

-- malloc returns an address that no live block has.
abbrev pub IsFresh : Env → Type 0
IsFresh env = (st : Store) (n p : ℕ) → env.malloc st n ≡ some p → find p st ≡ none

-- The new buffer is in the books, and nobody holds it yet.
pub init_tx_buffer-TxInv :
    (p : ℕ) (payload : List ℕ) (sticky : Bool) (s : System)
    → find p s.store ≡ none
    → length payload ≤ 65535
    → ltb max_tx_buffer_size (u32 (s.tx.alloc_bytes + (tx_header_size + length payload))) ≡ false
    → TxInv s
    → TxInv (init_tx_buffer p payload sticky s)
unfolding init_tx_buffer new_tx_buffer
init_tx_buffer-TxInv p payload sticky s free small fits v =
    let bounded = v.books.bounded in
    let limit = ltb→le _ _ fits in
    let size : u16 (length payload) ≡ length payload = omega arith in
    let bytes : u32 (s.tx.alloc_bytes + (tx_header_size + length payload))
        ≡ s.tx.alloc_bytes + (tx_header_size + u16 (length payload)) =
      omega arith in
    record {
      books =
          rw bytes
            (IsAccounted-cons p (new_tx_buffer payload sticky) v.books free (omega arith) size);
      busy = v.busy;
    }

pub alloc_cases :
    (env : Env) (payload : List ℕ) (sticky : Bool) (s : System)
    → ((t : System) × (alloc_tx_packet env payload sticky s ≡ (none, t)) × SameTx s t)
      ⊎ ((p : ℕ) × (alloc_tx_packet env payload sticky s
            ≡ (some p, init_tx_buffer p payload sticky s))
          × (env.malloc s.store (tx_header_size + length payload) ≡ some p)
          × (ltb max_tx_buffer_size (u32 (s.tx.alloc_bytes + (tx_header_size + length payload)))
              ≡ false))
unfolding alloc_tx_packet
alloc_cases env payload sticky s =
    elim (Bool-cases
      (ltb max_tx_buffer_size (u32 (s.tx.alloc_bytes + (tx_header_size + length payload))))) [
        | inl over ↦ inl (reject_alloc s, rw over, reject_alloc-SameTx s)
        | inr fits ↦ elim (Option-cases (env.malloc s.store (tx_header_size + length payload))) [
          | inl oom ↦ inl (fail_alloc s, rw (fits, oom), fail_alloc-SameTx s)
          | inr (p, got) ↦ inr (p, rw (fits, got), got, fits)
        ]
      ]

pub find_first : (p : ℕ) (b : TxPacketBuffer) (st : Store) → find p ((p, b) ∷ st) ≡ some b
unfolding find
find_first p b st = ground arith

-- After a clearing of its retry count the new buffer is still the first, and goes by release.
clear_sticky_new :
    (p : ℕ) (payload : List ℕ) (sticky : Bool) (s : System)
    → let st =
        (clear_sticky p (new_tx_buffer payload sticky) (init_tx_buffer p payload sticky s)).store in
      (find p st ≡ some (cleared (new_tx_buffer payload sticky))) × (release p st ≡ s.store)
unfolding init_tx_buffer new_tx_buffer clear_sticky release find modify
clear_sticky_new p payload sticky s = ground arith

-- The buffer of a refused packet is released again, and nothing is left of it.
undo :
    (p : ℕ) (payload : List ℕ) (sticky : Bool) (s t : System)
    → length payload ≤ 65535
    → TxInv s
    → s.tx.packets_pending ≡ 0
    → Fails p (new_tx_buffer payload sticky) (init_tx_buffer p payload sticky s) t
    → (u : System) × (discard_tx_packet p true t ≡ ok u) × SameTx s u
unfolding init_tx_buffer new_tx_buffer
undo p payload sticky s t small v idle fails =
    let b = cleared (new_tx_buffer payload sticky) in
    let (found, released) = clear_sticky_new p payload sticky s in
    let here : find p t.store ≡ some b = ground (arith, fails.store_after, found) in
    let (u, run, done) = discard_released p b true t here (ground arith) in
    let size : b.packet_size ≡ u16 (length payload) = ground arith in
    let bounded = v.books.bounded in
    (
      u,
      run,
      record {
        same_store = done.store_after ∙ rw (fails.store_after) released;
        same_bytes = done.bytes_after ∙ rw (fails.bytes_after, size) (omega arith);
        same_pending = done.pending_after ∙ rw (fails.pending_after, idle);
        same_queues = done.queues_after ∙ fails.queues_after;
        same_flight = rw (done.radio_after) (fails.flight_after);
      },
    )

submit-Queues :
    (env : Env) (priority : TxPacketPriority) (p : ℕ) (payload : List ℕ) (sticky : Bool)
    (s : System)
    → length payload ≤ 65535
    → find p s.store ≡ none
    → IsRoomy priority s
    → TxInv s
    → TxInv (init_tx_buffer p payload sticky s)
    → (r : Option ℕ × System) × (submit_tx_packet env priority p (init_tx_buffer p payload sticky s)
        ≡ ok r)
      × Queues priority payload s r
unfolding submit_tx_packet init_tx_buffer new_tx_buffer
submit-Queues env priority p payload sticky s small free room v v1 =
    let b = new_tx_buffer payload sticky in
    let s1 = init_tx_buffer p payload sticky s in
    let found = find_first p b s.store in
    elim (Bool-cases (s.tx.packets_pending == 0)) [
      | inr busy ↦
          (let own = held_fresh p v.books free in
            let (t, run, inv, waits) =
              final_busy env priority p b s1 v1 found (inr own) room busy in
            (
              (some p, t),
              rw run,
              (
                inv,
                inr (record { joined = waits.joined; quiet = waits.quiet; behind = waits.behind }),
              ),
            ))
      | inl idle ↦
          (let alone = (==_iff s.tx.packets_pending 0).0 idle in
            elim (final_idle env priority p b s1 v1 found alone) [
              | inl (t, run, inv, flies) ↦ (
                (some p, t),
                rw run,
                (
                  inv,
                  inl (record { alone = flies.alone; flies = flies.flies; on_air = flies.on_air }),
                ),
              )
              | inr (n, t, run, fails) ↦
                  (let (u, again, same) = undo p payload sticky s t small v alone fails in
                    ((none, u), rw (run, again), (SameTx-TxInv same v, same)))
            ])
    ]

-- QueueTxPacket of a payload always returns, given a malloc that returns fresh addresses and a
-- state whose books are right. It either returns no packet and leaves the store, the bytes, the
-- pending count, the queues and the packet in flight as they were; or it returns a packet that is
-- in flight with exactly the payload on air if nothing was pending, and that is at the end of the
-- queue of its priority otherwise. The books are right afterwards in each case.
pub queue_tx_packet-Queues :
    (env : Env) (priority : TxPacketPriority) (payload : List ℕ) (sticky : Bool) (s : System)
    → IsFresh env
    → length payload ≤ 65535
    → TxInv s
    → (r : Option ℕ × System) × (queue_tx_packet env priority payload sticky s ≡ ok r)
      × Queues priority payload s r
unfolding queue_tx_packet tx_full submit_allocated
queue_tx_packet-Queues env priority payload sticky s fresh small v =
    elim (Bool-cases (length (queue_of priority s.tx.queues) == max_tx_queue_size)) [
      | inl full ↦
          (let same = reject_tx-SameTx s in
            ((none, reject_tx s), rw full, (SameTx-TxInv same v, same)))
      | inr room ↦ elim (alloc_cases env payload sticky s) [
        | inl (t, run, same) ↦ ((none, t), rw (room, run), (SameTx-TxInv same v, same))
        | inr (p, run, got, fits) ↦
            (let free = fresh s.store (tx_header_size + length payload) p got in
              let v1 = init_tx_buffer-TxInv p payload sticky s free small fits v in
              let (r, again, queues) =
                submit-Queues env priority p payload sticky s small free room v v1 in
              (r, rw (room, run, again), queues))
      ]
    ]
