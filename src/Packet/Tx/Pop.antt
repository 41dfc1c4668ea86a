-- ===== src/Packet/Tx/Pop.antt =====
-- PopTxQueue of Sources/Packet/Handler.h: which packet it takes.
use blazenet_device_fw.Prelude.{
  ℕ, ◌+◌, ◌<◌, ◌≡◌, refl, ap, ◌⊎◌, inl, inr, Option, none, some, List, [], ◌∷◌, length, count, ◌==◌,
  if◌then◌else◌, arith,
}
use blazenet_device_fw.Packet.Buffers.{
  TxPacketPriority, background, normal, real_time, network_control, Store,
}
use blazenet_device_fw.Packet.Store.{queued, waiting}
use blazenet_device_fw.Packet.Ledger.{IsShort, IsAccounted}
use blazenet_device_fw.Packet.Tx.{pop_tx_queue}
use blazenet_device_fw.System.{System, TxQueues, queue_of, set_queue}

-- The numbers of the priorities.
abbrev pub level : TxPacketPriority → ℕ
level background = 0
level normal = 1
level real_time = 2
level network_control = 3

-- `priority` has the packet `p` in front and `ps` behind it, and all higher queues are empty.
pub record Front (qs : TxQueues) (priority : TxPacketPriority) (p : ℕ) (ps : List ℕ) : Type 0 where
  pub front : queue_of priority qs ≡ p ∷ ps
  pub highest : (other : TxPacketPriority) → level priority < level other → queue_of other qs ≡ []

-- The state with the queue of `priority` replaced by `ps`.
abbrev pub with_queue : TxPacketPriority → List ℕ → System → System
with_queue priority ps s = record s {
  tx = record (s.tx) { queues = set_queue priority ps s.tx.queues };
}

abbrev pub Pops : System → Option ℕ × System → Type 0
Pops s r =
    ((queued s.tx.queues ≡ 0) × (r ≡ (none, s)))
    ⊎ ((priority : TxPacketPriority) × (p : ℕ) × (ps : List ℕ) × Front s.tx.queues priority p ps
        × (r ≡ (some p, with_queue priority ps s)))

emptied :
    (qs : TxQueues) (k : ℕ)
    → (k < 1 → qs.normal_queue ≡ [])
    → (k < 2 → qs.real_time_queue ≡ [])
    → (k < 3 → qs.network_control_queue ≡ [])
    → (other : TxPacketPriority) → k < level other
    → queue_of other qs ≡ []
unfolding queue_of
emptied qs k n r c background h = absurd (omega arith)
emptied qs k n r c normal h = n h
emptied qs k n r c real_time h = r h
emptied qs k n r c network_control h = c h

pop_cases :
    (s : System) (a b c d : List ℕ)
    → s.tx.queues.background_queue ≡ a
    → s.tx.queues.normal_queue ≡ b
    → s.tx.queues.real_time_queue ≡ c
    → s.tx.queues.network_control_queue ≡ d
    → Pops s (pop_tx_queue s)
unfolding pop_tx_queue queue_of queued
pop_cases s a b c (p ∷ ps) ea eb ec ed = inr (
  network_control,
  p,
  ps,
  record {
    front = ed;
    highest =
        emptied s.tx.queues 3 (λ h. absurd (omega arith)) (λ h. absurd (omega arith))
          (λ h. absurd (omega arith));
  },
  ground arith,
)
pop_cases s a b (p ∷ ps) [] ea eb ec ed = inr (
  real_time,
  p,
  ps,
  record {
    front = ec;
    highest =
        emptied s.tx.queues 2 (λ h. absurd (omega arith)) (λ h. absurd (omega arith)) (λ h. ed);
  },
  ground arith,
)
pop_cases s a (p ∷ ps) [] [] ea eb ec ed = inr (
  normal,
  p,
  ps,
  record {
    front = eb;
    highest = emptied s.tx.queues 1 (λ h. absurd (omega arith)) (λ h. ec) (λ h. ed);
  },
  ground arith,
)
pop_cases s (p ∷ ps) [] [] [] ea eb ec ed = inr (
  background,
  p,
  ps,
  record { front = ea; highest = emptied s.tx.queues 0 (λ h. eb) (λ h. ec) (λ h. ed) },
  ground arith,
)
pop_cases s [] [] [] [] ea eb ec ed = inl (ground arith, ground arith)

-- PopTxQueue returns no packet only if every queue is empty; otherwise it takes the oldest packet
-- of the highest priority that has one, and leaves all else as it was.
pub pop_tx_queue-Pops : (s : System) → Pops s (pop_tx_queue s)
pop_tx_queue-Pops s = pop_cases s _ _ _ _ refl refl refl refl

pub queued-set_queue :
    (priority : TxPacketPriority) (p : ℕ) (ps : List ℕ) (qs : TxQueues)
    → queue_of priority qs ≡ p ∷ ps
    → queued (set_queue priority ps qs) + 1 ≡ queued qs
unfolding queued queue_of set_queue
queued-set_queue background p ps qs e = omega (arith, ap length e)
queued-set_queue normal p ps qs e = omega (arith, ap length e)
queued-set_queue real_time p ps qs e = omega (arith, ap length e)
queued-set_queue network_control p ps qs e = omega (arith, ap length e)

pub waiting-set_queue :
    (q : ℕ) (priority : TxPacketPriority) (p : ℕ) (ps : List ℕ) (qs : TxQueues)
    → queue_of priority qs ≡ p ∷ ps
    → waiting q (set_queue priority ps qs) + (if p == q then 1 else 0) ≡ waiting q qs
unfolding waiting queue_of set_queue
waiting-set_queue q background p ps qs e = omega (arith, ap (count q) e)
waiting-set_queue q normal p ps qs e = omega (arith, ap (count q) e)
waiting-set_queue q real_time p ps qs e = omega (arith, ap (count q) e)
waiting-set_queue q network_control p ps qs e = omega (arith, ap (count q) e)

pub IsShort-set_queue :
    (priority : TxPacketPriority) (p : ℕ) (ps : List ℕ) (qs : TxQueues)
    → queue_of priority qs ≡ p ∷ ps
    → IsShort qs
    → IsShort (set_queue priority ps qs)
unfolding queue_of set_queue
IsShort-set_queue background p ps qs e v = ground (arith, ap length e)
IsShort-set_queue normal p ps qs e v = ground (arith, ap length e)
IsShort-set_queue real_time p ps qs e v = ground (arith, ap length e)
IsShort-set_queue network_control p ps qs e v = ground (arith, ap length e)

-- The books stay right when the popped packet goes into flight.
pub IsAccounted-pop :
    {st : Store} {a n : ℕ} {qs : TxQueues} (priority : TxPacketPriority) (p : ℕ) (ps : List ℕ)
    → IsAccounted st a n qs none
    → queue_of priority qs ≡ p ∷ ps
    → IsAccounted st a n (set_queue priority ps qs) (some p)
IsAccounted-pop {qs = qs} priority p ps v e = record {
  exact = v.exact;
  bounded = v.bounded;
  counted = omega (arith, v.counted, queued-set_queue priority p ps qs e);
  short = IsShort-set_queue priority p ps qs e v.short;
  live = λ q h. v.live q (omega (arith, waiting-set_queue q priority p ps qs e));
  unique =
      λ q c f h. let u = v.unique q c f h in omega (arith, waiting-set_queue q priority p ps qs e);
  sized = v.sized;
}
