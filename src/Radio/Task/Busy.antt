-- ===== src/Radio/Task/Busy.antt =====
-- The main loop of Sources/Radio/Task.cpp on a packet that found the channel busy.
use blazenet_device_fw.Prelude.{
  ℕ, ◌≡◌, refl, ap, ◌∙◌, ◌⊎◌, inl, inr, true, false, some, ◌∷◌, Bool-cases, ltb, if◌then◌else◌,
  Outcome, ok, panic,
}
use blazenet_device_fw.Packet.Buffers.{TxPacketBuffer, find, modify}
use blazenet_device_fw.Packet.Invariant.{TxInv}
use blazenet_device_fw.Packet.Ledger.{IsAccounted-modify}
use blazenet_device_fw.Packet.Store.{find-IsSized, find-modify_self}
use blazenet_device_fw.Radio.Transmit.Attempt.{
  Accepts, tx_packet_immediate-Attempt, tx_packet_immediate-Accepts,
}
use blazenet_device_fw.Radio.Task.{
  max_csma_fails, failed_once, transmit_popped, retry_tx, handle_channel_busy, handle_tx_complete,
}
use blazenet_device_fw.Radio.Task.Complete.{Completes, handle_tx_complete-Completes}
use blazenet_device_fw.System.{System, Env, write_tx_fifo, start_cca_csma_tx}

-- The state with one more failed attempt counted in the buffer.
abbrev pub counted_fail : ℕ → TxPacketBuffer → System → System
counted_fail p b s = record s { store = modify p (failed_once b) s.store }

-- The same packet is on air again, one failure is on its count, and nothing else has moved.
pub record Retries (p : ℕ) (b : TxPacketBuffer) (s t : System) : Type 0 where
  pub inv : TxInv t
  pub few : ltb (failed_once b).csma_fail_count max_csma_fails ≡ true
  pub counted : find p t.store ≡ some (failed_once b)
  pub same_tx : t.tx ≡ s.tx
  pub in_flight : t.radio.last_tx ≡ some p
  pub on_air : t.trace ≡ start_cca_csma_tx s.radio.tx_channel ∷ write_tx_fifo b.payload ∷ s.trace

counted_fail-TxInv :
    (p : ℕ) (b : TxPacketBuffer) (s : System)
    → TxInv s
    → find p s.store ≡ some b
    → TxInv (counted_fail p b s)
unfolding failed_once
counted_fail-TxInv p b s v e = record {
  books = IsAccounted-modify p b (failed_once b) v.books e refl refl refl;
  busy = v.busy;
}

busy_run :
    (env : Env) (p : ℕ) (b : TxPacketBuffer) (s : System) (r : Outcome System)
    → s.radio.last_tx ≡ some p
    → find p s.store ≡ some b
    → (if ltb (failed_once b).csma_fail_count max_csma_fails
        then transmit_popped env (some p, counted_fail p b s)
        else handle_tx_complete env (counted_fail p b s))
      ≡ r
    → handle_channel_busy env s ≡ r
unfolding handle_channel_busy retry_tx
busy_run env p b s r e found rest = ap (λ l. retry_tx env l s) e ∙ rw found rest

retry_cases :
    (env : Env) (p : ℕ) (b : TxPacketBuffer) (s : System)
    → TxInv s
    → s.radio.last_tx ≡ some p
    → find p s.store ≡ some b
    → ltb (failed_once b).csma_fail_count max_csma_fails ≡ true
    → ((t : System) × (transmit_popped env (some p, counted_fail p b s) ≡ ok t) × Retries p b s t)
      ⊎ ((transmit_popped env (some p, counted_fail p b s) ≡ panic) × ¬ Accepts env)
unfolding transmit_popped failed_once
retry_cases env p b s v e found few =
    let s1 = counted_fail p b s in
    let found1 = find-modify_self p b (failed_once b) s.store found in
    let v1 = counted_fail-TxInv p b s v found in
    elim (tx_packet_immediate-Attempt env p (failed_once b) s1 found1) [
      | inl (t, run, sent) ↦ inl (
        t,
        rw run,
        record {
          inv = record {
            books = rw (sent.same.same_store, sent.same.same_tx, sent.in_flight, ← e) (v1.books);
            busy = λ h. absurd (cc (h, sent.in_flight));
          };
          few = few;
          counted = rw (sent.same.same_store) found1;
          same_tx = sent.same.same_tx;
          in_flight = sent.in_flight;
          on_air = sent.on_air;
        },
      )
      | inr (n, t, run, refused) ↦ inr (
        rw run,
        λ acc.
            (let (u, again, sent) =
                tx_packet_immediate-Accepts env p (failed_once b) s1 acc found1
                  (find-IsSized p (failed_once b) s1.store v1.books.sized found1) in
              absurd (cc (run, again))),
      )
    ]

pub handle_channel_busy-cases :
    (env : Env) (p : ℕ) (b : TxPacketBuffer) (s : System)
    → TxInv s
    → s.radio.last_tx ≡ some p
    → find p s.store ≡ some b
    → ((t : System) × (handle_channel_busy env s ≡ ok t)
        × (Retries p b s t
            ⊎ (ltb (failed_once b).csma_fail_count max_csma_fails ≡ false)
              × Completes (counted_fail p b s) t))
      ⊎ ((handle_channel_busy env s ≡ panic) × ¬ Accepts env)
handle_channel_busy-cases env p b s v e found =
    elim (Bool-cases (ltb (failed_once b).csma_fail_count max_csma_fails)) [
      | inl few ↦ elim (retry_cases env p b s v e found few) [
        | inl (t, run, r) ↦ inl (t, busy_run env p b s (ok t) e found (rw few run), inl r)
        | inr (run, refuses) ↦ inr (busy_run env p b s panic e found (rw few run), refuses)
      ]
      | inr many ↦
          elim (handle_tx_complete-Completes env p (counted_fail p b s)
            (counted_fail-TxInv p b s v found) e) [
              | inl (t, run, c) ↦
                  inl (t, busy_run env p b s (ok t) e found (rw many run), inr (many, c))
              | inr (run, refuses) ↦ inr (busy_run env p b s panic e found (rw many run), refuses)
            ]
    ]
