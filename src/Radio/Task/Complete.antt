-- ===== src/Radio/Task/Complete.antt =====
-- HandleTxComplete of Sources/Radio/Task.cpp: the packet in flight is done, and the next one goes out.
use blazenet_device_fw.Prelude.{
  ℕ, ◌+◌, ◌≡◌, refl, ap, ◌∙◌, ◌⊎◌, inl, inr, false, none, some, List, ◌∷◌, Bool-cases, ◌==◌,
  Outcome, ok, panic, arith,
}
use blazenet_device_fw.Packet.Buffers.{TxPacketPriority, TxPacketBuffer, Store, find}
use blazenet_device_fw.Packet.Invariant.{Books, TxInv}
use blazenet_device_fw.Packet.Ledger.{
  IsAccounted, IsAccounted-finish, IsAccounted-release, pending_small,
}
use blazenet_device_fw.Packet.Store.{queued, find-IsSized}
use blazenet_device_fw.Packet.Tx.{discard_tx_packet, pop_tx_queue}
use blazenet_device_fw.Packet.Tx.Discard.{discard_released, discard_kept}
use blazenet_device_fw.Packet.Tx.Pop.{Front, with_queue, pop_tx_queue-Pops, IsAccounted-pop}
use blazenet_device_fw.Radio.Transmit.Attempt.{
  Accepts, tx_packet_immediate-Attempt, tx_packet_immediate-Accepts,
}
use blazenet_device_fw.Radio.Task.{
  transmit_next, transmit_popped, continue_transmit, complete_tx, handle_tx_complete,
}
use blazenet_device_fw.System.{System, Env, TxQueues, set_queue, write_tx_fifo, start_cca_csma_tx}

-- The oldest packet of the highest priority left its queue and is in flight.
pub record Advances (s t : System) : Type 0 where
  pub priority : TxPacketPriority
  pub packet : ℕ
  pub rest : List ℕ
  pub buffer : TxPacketBuffer
  pub live : find packet t.store ≡ some buffer
  pub front : Front s.tx.queues priority packet rest
  pub queues_after : t.tx.queues ≡ set_queue priority rest s.tx.queues
  pub flight_after : t.radio.last_tx ≡ some packet
  pub on_air :
      t.trace ≡ start_cca_csma_tx s.radio.tx_channel ∷ write_tx_fifo buffer.payload ∷ s.trace

find_live :
    (p : ℕ) (qs : TxQueues) (priority : TxPacketPriority) (ps : List ℕ) (st : Store) (a n : ℕ)
    → IsAccounted st a n (set_queue priority ps qs) (some p)
    → (b : TxPacketBuffer) × (find p st ≡ some b)
find_live p qs priority ps st a n v = v.live p (ground arith)

next_Sent :
    (env : Env) (s : System) (priority : TxPacketPriority) (p : ℕ) (ps : List ℕ)
    → Books s
    → s.radio.last_tx ≡ none
    → Front s.tx.queues priority p ps
    → pop_tx_queue s ≡ (some p, with_queue priority ps s)
    → ((t : System) × (transmit_next env s ≡ ok t)
        × TxInv t
        × Advances s t
        × (t.tx.packets_pending ≡ s.tx.packets_pending))
      ⊎ ((transmit_next env s ≡ panic) × ¬ Accepts env)
unfolding transmit_next transmit_popped
next_Sent env s priority p ps v landed f popped =
    let s1 = with_queue priority ps s in
    let v1 = IsAccounted-pop priority p ps (rw landed at v) f.front in
    let (b, found) = find_live p s.tx.queues priority ps s.store _ _ v1 in
    elim (tx_packet_immediate-Attempt env p b s1 found) [
      | inl (t, run, sent) ↦ inl (
        t,
        rw (popped, run),
        record {
          books = rw (sent.same.same_store, sent.same.same_tx, sent.in_flight) v1;
          busy = λ h. absurd (cc (h, sent.in_flight));
        },
        record {
          priority = priority;
          packet = p;
          rest = ps;
          buffer = b;
          live = rw (sent.same.same_store) found;
          front = f;
          queues_after = rw (sent.same.same_tx);
          flight_after = sent.in_flight;
          on_air = sent.on_air;
        },
        rw (sent.same.same_tx),
      )
      | inr (n, t, run, refused) ↦ inr (
        rw (popped, run),
        λ acc.
            (let (u, again, sent) =
                tx_packet_immediate-Accepts env p b s1 acc found
                  (find-IsSized p b s.store v.sized found) in
              absurd (cc (run, again))),
      )
    ]

-- The state once the packet in flight is discarded and gLastTx is cleared.
abbrev landed : System → System
landed s = record s { radio = record (s.radio) { last_tx = none } }

record Lands (s t : System) : Type 0 where
  books : Books (landed t)
  queues_kept : t.tx.queues ≡ s.tx.queues
  one_less : t.tx.packets_pending + 1 ≡ s.tx.packets_pending
  radio_kept : t.radio ≡ s.radio
  trace_kept : t.trace ≡ s.trace

discard_Lands :
    (p : ℕ) (s : System)
    → TxInv s
    → s.radio.last_tx ≡ some p
    → (t : System) × (discard_tx_packet p false s ≡ ok t) × Lands s t
discard_Lands p s v e =
    let books = rw e at v.books in
    let (b, found) = books.live p (ground arith) in
    let counted = books.counted in
    let small = pending_small books in
    elim (Bool-cases b.is_sticky) [
      | inl sticky ↦
          (let (t, run, d) = discard_kept p b false s found (ground arith) in
            (
              t,
              run,
              record {
                books =
                    rw (d.store_after, d.bytes_after, d.pending_after, d.queues_after)
                      (IsAccounted-finish p b books found sticky);
                queues_kept = d.queues_after;
                one_less = rw (d.pending_after) (omega arith);
                radio_kept = d.radio_after;
                trace_kept = d.trace_after;
              },
            ))
      | inr plain ↦
          (let (t, run, d) = discard_released p b false s found (ground arith) in
            (
              t,
              run,
              record {
                books =
                    rw (d.store_after, d.bytes_after, d.pending_after, d.queues_after)
                      (IsAccounted-release p b books found plain);
                queues_kept = d.queues_after;
                one_less = rw (d.pending_after) (omega arith);
                radio_kept = d.radio_after;
                trace_kept = d.trace_after;
              },
            ))
    ]

-- What HandleTxComplete leaves: one packet less is pending, and the next one, if there is one, is
-- in flight.
pub record Completes (s t : System) : Type 0 where
  pub inv : TxInv t
  pub one_less : t.tx.packets_pending + 1 ≡ s.tx.packets_pending
  pub next :
      (queued s.tx.queues ≡ 0) × (t.radio.last_tx ≡ none) × (t.trace ≡ s.trace) ⊎ Advances s t

complete_run :
    (env : Env) (p : ℕ) (s u : System) (r : Outcome System)
    → s.radio.last_tx ≡ some p
    → discard_tx_packet p false s ≡ ok u
    → continue_transmit env (landed u) ≡ r
    → handle_tx_complete env s ≡ r
unfolding handle_tx_complete complete_tx
complete_run env p s u r e run rest = ap (λ l. complete_tx env l s) e ∙ rw run rest

continue_Completes :
    (env : Env) (s u : System)
    → Lands s u
    → ((t : System) × (continue_transmit env (landed u) ≡ ok t) × Completes s t)
      ⊎ ((continue_transmit env (landed u) ≡ panic) × ¬ Accepts env)
unfolding continue_transmit
continue_Completes env s u l =
    let counted = l.books.counted in
    elim (Bool-cases (u.tx.packets_pending == 0)) [
      | inl empty ↦ inl (
        landed u,
        rw empty,
        record {
          inv = record { books = l.books; busy = λ h. ground (arith, empty) };
          one_less = l.one_less;
          next = inl (rw (← l.queues_kept) (ground arith), refl, l.trace_kept);
        },
      )
      | inr more ↦ elim (pop_tx_queue-Pops (landed u)) [
        | inl (none_left, popped) ↦ absurd (ground (arith, none_left))
        | inr (priority, q, ps, f, popped) ↦
            elim (next_Sent env (landed u) priority q ps l.books refl f popped) [
              | inl (t, again, inv, adv, pend) ↦ inl (
                t,
                rw (more, again),
                record {
                  inv = inv;
                  one_less = rw pend (l.one_less);
                  next = inr (record {
                    priority = adv.priority;
                    packet = adv.packet;
                    rest = adv.rest;
                    buffer = adv.buffer;
                    live = adv.live;
                    front = rw (← l.queues_kept) (adv.front);
                    queues_after =
                        adv.queues_after ∙ ap (set_queue adv.priority adv.rest) l.queues_kept;
                    flight_after = adv.flight_after;
                    on_air = adv.on_air ∙ rw (l.radio_kept, l.trace_kept);
                  });
                },
              )
              | inr (again, refuses) ↦ inr (rw (more, again), refuses)
            ]
      ]
    ]

-- With a packet in flight and right books, HandleTxComplete returns, unless it panics because the
-- radio refuses the next packet. If it returns, the books are right, exactly one packet less is
-- pending, and either all queues were empty and nothing is in flight, or the oldest packet of the
-- highest priority has left its queue and is in flight, with its bytes on air.
pub handle_tx_complete-Completes :
    (env : Env) (p : ℕ) (s : System)
    → TxInv s
    → s.radio.last_tx ≡ some p
    → ((t : System) × (handle_tx_complete env s ≡ ok t) × Completes s t)
      ⊎ ((handle_tx_complete env s ≡ panic) × ¬ Accepts env)
handle_tx_complete-Completes env p s v e =
    let (u, run, l) = discard_Lands p s v e in
    elim (continue_Completes env s u l) [
      | inl (t, rest, c) ↦ inl (t, complete_run env p s u (ok t) e run rest, c)
      | inr (rest, refuses) ↦ inr (complete_run env p s u panic e run rest, refuses)
    ]
