-- ===== src/Radio/Task/Drain.antt =====
-- A run of transmit completions (HandleTxComplete of Sources/Radio/Task.cpp) empties the queues.
use blazenet_device_fw.Prelude.{
  ℕ, zero, suc, ◌+◌, ◌*◌, ◌≡◌, refl, ◌∙◌, inl, inr, none, length, Option-cases, Outcome, ok, ◌>>=◌,
  arith,
}
use blazenet_device_fw.Packet.Invariant.{TxInv}
use blazenet_device_fw.Packet.Store.{queued}
use blazenet_device_fw.Packet.Tx.Pop.{queued-set_queue}
use blazenet_device_fw.Radio.Transmit.Attempt.{Accepts}
use blazenet_device_fw.Radio.Task.{handle_tx_complete}
use blazenet_device_fw.Radio.Task.Complete.{Completes, handle_tx_complete-Completes}
use blazenet_device_fw.System.{System, Env}

-- So many completions, one after the other.
unfoldable pub completions : ℕ → Env → System → Outcome System
completions zero env s = ok s
completions (suc n) env s = do t ← handle_tx_complete env s; completions n env t

-- Nothing is pending, and every packet that waited has been handed to the radio.
pub record Drained (s t : System) : Type 0 where
  pub inv : TxInv t
  pub none_pending : t.tx.packets_pending ≡ 0
  pub none_queued : queued t.tx.queues ≡ 0
  pub none_flying : t.radio.last_tx ≡ none
  pub all_sent : length t.trace ≡ length s.trace + 2 * queued s.tx.queues

sent_one :
    (s t : System)
    → Completes s t
    → length t.trace + 2 * queued t.tx.queues ≡ length s.trace + 2 * queued s.tx.queues
sent_one s t c = elim c.next [
  | inl (empty, idle, quiet) ↦ rw quiet (omega (arith, c.inv.busy idle, c.inv.books.counted, empty))
  | inr adv ↦
      rw (adv.on_air, adv.queues_after)
        (omega
          (arith, queued-set_queue adv.priority adv.packet adv.rest s.tx.queues adv.front.front))
]

empty_Drained : (s : System) → TxInv s → s.tx.packets_pending ≡ 0 → Drained s s
empty_Drained s v e = elim (Option-cases s.radio.last_tx) [
  | inl idle ↦ record {
    inv = v;
    none_pending = e;
    none_queued = omega (arith, v.books.counted);
    none_flying = idle;
    all_sent = omega (arith, v.books.counted);
  }
  | inr (p, busy) ↦ absurd (ground (arith, v.books.counted))
]

drain :
    (n : ℕ) (env : Env) (s : System)
    → Accepts env
    → TxInv s
    → s.tx.packets_pending ≡ n
    → (t : System) × (completions n env s ≡ ok t) × Drained s t
unfolding completions
drain zero env s acc v e = (s, refl, empty_Drained s v e)
drain (suc n) env s acc v e = elim (Option-cases s.radio.last_tx) [
  | inl idle ↦ absurd (omega (arith, v.busy idle))
  | inr (p, busy) ↦ elim (handle_tx_complete-Completes env p s v busy) [
    | inr (run, refuses) ↦ absurd (refuses acc)
    | inl (t, run, c) ↦
        (let (u, rest, d) = drain n env t acc c.inv (omega (arith, c.one_less)) in
          (
            u,
            rw run rest,
            record {
              inv = d.inv;
              none_pending = d.none_pending;
              none_queued = d.none_queued;
              none_flying = d.none_flying;
              all_sent = d.all_sent ∙ sent_one s t c;
            },
          ))
  ]
]

-- With a radio that accepts every packet and right books, as many completions as packets are
-- pending all return; after them no packet is pending, queued or in flight, and the radio was
-- handed every packet that waited, with two calls each.
pub completions-Drained :
    (env : Env) (s : System)
    → Accepts env
    → TxInv s
    → (t : System) × (completions s.tx.packets_pending env s ≡ ok t) × Drained s t
completions-Drained env s acc v = drain s.tx.packets_pending env s acc v refl
