-- ===== src/Packet/Ledger.antt =====
-- What the transmit state of Packet::Handler keeps account of: the bytes of the live buffers, the
-- packets pending, and who holds a pointer to which buffer.
use blazenet_device_fw.Prelude.{
  ℕ, ◌+◌, ◌≤◌, ◌<◌, ◌≡◌, ◌⊎◌, inl, inr, true, false, Option, none, some, [], ◌∷◌, length,
  length-append, ◌==◌, ==_iff, Bool-cases, if◌then◌else◌, sub32, arith,
}
use blazenet_device_fw.Packet.Buffers.{
  TxPacketPriority, background, normal, real_time, network_control, TxPacketBuffer, Store, find,
  modify, release, tx_header_size, max_tx_buffer_size, max_tx_queue_size,
}
use blazenet_device_fw.Packet.Store.{
  IsSized, release-IsSized, modify-IsSized, find-IsSized, total, find-release_ne, total-release,
  find-modify_self, find-modify_ne, total-modify, queued, waiting, waiting-le-queued, appended,
  queued-appended, waiting-appended,
}
use blazenet_device_fw.System.{TxQueues, queue_of, set_queue}

-- The packet in flight, gLastTx.
abbrev pub flying : Option ℕ → ℕ
flying none = 0
flying (some p) = 1

abbrev pub flying_as : ℕ → Option ℕ → ℕ
flying_as q none = 0
flying_as q (some p) = if p == q then 1 else 0

-- How many pointers to `q` the queues and gLastTx hold.
abbrev pub held : ℕ → TxQueues → Option ℕ → ℕ
held q qs l = flying_as q l + waiting q qs

pub record IsShort (qs : TxQueues) : Type 0 where
  pub background_short : length qs.background_queue ≤ max_tx_queue_size
  pub normal_short : length qs.normal_queue ≤ max_tx_queue_size
  pub real_time_short : length qs.real_time_queue ≤ max_tx_queue_size
  pub network_control_short : length qs.network_control_queue ≤ max_tx_queue_size

pub record IsAccounted (st : Store) (bytes pending : ℕ) (qs : TxQueues) (l : Option ℕ)
    : Type 0 where
  pub exact : bytes ≡ total st
  pub bounded : bytes ≤ max_tx_buffer_size
  pub counted : pending ≡ flying l + queued qs
  pub short : IsShort qs
  pub live : (q : ℕ) → 0 < held q qs l → (b : TxPacketBuffer) × (find q st ≡ some b)
  pub unique :
      (q : ℕ) (b : TxPacketBuffer) → find q st ≡ some b → b.is_sticky ≡ false → held q qs l ≤ 1
  pub sized : IsSized st

IsShort-queued : (qs : TxQueues) → IsShort qs → queued qs ≤ 64
unfolding queued
IsShort-queued qs v = omega arith

pub pending_small :
    {st : Store} {a n : ℕ} {qs : TxQueues} {l : Option ℕ} → IsAccounted st a n qs l → n ≤ 65
pending_small {qs = qs} {l = none} v = omega (arith, IsShort-queued qs v.short)
pending_small {qs = qs} {l = some p} v = omega (arith, IsShort-queued qs v.short)

IsShort-appended :
    (priority : TxPacketPriority) (p : ℕ) (qs : TxQueues)
    → IsShort qs
    → (length (queue_of priority qs) == max_tx_queue_size) ≡ false
    → IsShort (appended priority p qs)
unfolding queue_of set_queue
IsShort-appended background p qs v h = ground (arith, length-append qs.background_queue (p ∷ []))
IsShort-appended normal p qs v h = ground (arith, length-append qs.normal_queue (p ∷ []))
IsShort-appended real_time p qs v h = ground (arith, length-append qs.real_time_queue (p ∷ []))
IsShort-appended network_control p qs v h =
    ground (arith, length-append qs.network_control_queue (p ∷ []))

module _ {st : Store} {a n : ℕ} {qs : TxQueues} where
  -- A buffer that is not in the store is held by nobody.
  pub held_fresh :
      {l : Option ℕ} (p : ℕ) → IsAccounted st a n qs l → find p st ≡ none → held p qs l ≡ 0
  held_fresh {l} p v e = elim (Bool-cases (held p qs l == 0)) [
    | inl h ↦ (==_iff _ _).0 h
    | inr h ↦ (let (b, f) = v.live p (ground arith) in absurd (cc f))
  ]

  -- malloc of a new buffer.
  pub IsAccounted-cons :
      {l : Option ℕ} (p : ℕ) (b : TxPacketBuffer)
      → IsAccounted st a n qs l
      → find p st ≡ none
      → a + (tx_header_size + b.packet_size) ≤ max_tx_buffer_size
      → b.packet_size ≡ length b.payload
      → IsAccounted ((p, b) ∷ st) (a + (tx_header_size + b.packet_size)) n qs l
  unfolding find total
  IsAccounted-cons {l} p b v e h size = record {
    exact = omega (arith, v.exact);
    bounded = h;
    counted = v.counted;
    short = v.short;
    live = λ q k. elim (Bool-cases (p == q)) [
      | inl same ↦ (b, rw same)
      | inr other ↦ rw other (v.live q k)
    ];
    unique = λ q c f k. elim (Bool-cases (p == q)) [
      | inl same ↦ rw (← (==_iff p q).0 same) (omega (arith, held_fresh {l = l} p v e))
      | inr other ↦ v.unique q c (rw other at f) k
    ];
    sized = (size, v.sized);
  }

  -- A write that keeps the size and the stickiness of a buffer.
  pub IsAccounted-modify :
      {l : Option ℕ} (p : ℕ) (b c : TxPacketBuffer)
      → IsAccounted st a n qs l
      → find p st ≡ some b
      → c.packet_size ≡ b.packet_size
      → c.is_sticky ≡ b.is_sticky
      → c.payload ≡ b.payload
      → IsAccounted (modify p c st) a n qs l
  IsAccounted-modify {l} p b c v e size sticky same_payload = record {
    exact = rw (total-modify p b c st e size) (v.exact);
    bounded = v.bounded;
    counted = v.counted;
    short = v.short;
    live = λ q k. elim (Bool-cases (p == q)) [
      | inl same ↦ (c, rw (← (==_iff p q).0 same) (find-modify_self p b c st e))
      | inr other ↦ rw (find-modify_ne p q c st (ground arith)) (v.live q k)
    ];
    unique = λ q d f k. elim (Bool-cases (p == q)) [
      | inl same ↦
          v.unique q b (rw (← (==_iff p q).0 same) e) (ground (arith, find-modify_self p b c st e))
      | inr other ↦ v.unique q d (ground (arith, find-modify_ne p q c st)) k
    ];
    sized = modify-IsSized p c st (ground (arith, find-IsSized p b st v.sized e)) v.sized;
  }

  -- A packet is appended to a queue that is not full.
  pub IsAccounted-append :
      {l : Option ℕ} (priority : TxPacketPriority) (p : ℕ) (b : TxPacketBuffer)
      → IsAccounted st a n qs l
      → find p st ≡ some b
      → (b.is_sticky ≡ true) ⊎ (held p qs l ≡ 0)
      → (length (queue_of priority qs) == max_tx_queue_size) ≡ false
      → IsAccounted st a (n + 1) (appended priority p qs) l
  IsAccounted-append {l} priority p b v e own room = record {
    exact = v.exact;
    bounded = v.bounded;
    counted = omega (arith, v.counted, queued-appended priority p qs);
    short = IsShort-appended priority p qs v.short room;
    live = λ q k. elim (Bool-cases (p == q)) [
      | inl same ↦ (b, rw (← (==_iff p q).0 same) e)
      | inr other ↦ v.live q (ground (arith, waiting-appended q priority p qs))
    ];
    unique = λ q c f k. elim (Bool-cases (p == q)) [
      | inl same ↦ ground (arith, waiting-appended q priority p qs, v.unique q c f k)
      | inr other ↦ ground (arith, waiting-appended q priority p qs, v.unique q c f k)
    ];
    sized = v.sized;
  }

-- Nothing was pending, and a packet goes into flight.
pub IsAccounted-start :
    {st : Store} {a : ℕ} {qs : TxQueues} {l : Option ℕ} (p : ℕ) (b : TxPacketBuffer)
    → IsAccounted st a 0 qs l
    → find p st ≡ some b
    → IsAccounted st a 1 qs (some p)
IsAccounted-start {qs = qs} {l = some r} p b v e = absurd (omega (arith, v.counted))
IsAccounted-start {qs = qs} {l = none} p b v e = record {
  exact = v.exact;
  bounded = v.bounded;
  counted = omega (arith, v.counted);
  short = v.short;
  live = λ q k. elim (Bool-cases (p == q)) [
    | inl same ↦ (b, rw (← (==_iff p q).0 same) e)
    | inr other ↦ absurd (ground (arith, v.counted, waiting-le-queued q qs))
  ];
  unique = λ q c f k. ground (arith, v.counted, waiting-le-queued q qs);
  sized = v.sized;
}

-- The packet in flight is done, and its buffer is released unless it is sticky.
pub IsAccounted-finish :
    {st : Store} {a n : ℕ} {qs : TxQueues} (p : ℕ) (b : TxPacketBuffer)
    → IsAccounted st a n qs (some p)
    → find p st ≡ some b
    → b.is_sticky ≡ true
    → IsAccounted st a (sub32 n 1) qs none
IsAccounted-finish {qs = qs} p b v e k = record {
  exact = v.exact;
  bounded = v.bounded;
  counted = omega (arith, v.counted, pending_small v);
  short = v.short;
  live = λ q h. v.live q (omega arith);
  unique = λ q c f h. let u = v.unique q c f h in omega arith;
  sized = v.sized;
}

pub IsAccounted-release :
    {st : Store} {a n : ℕ} {qs : TxQueues} (p : ℕ) (b : TxPacketBuffer)
    → IsAccounted st a n qs (some p)
    → find p st ≡ some b
    → b.is_sticky ≡ false
    → IsAccounted (release p st) (sub32 a (tx_header_size + b.packet_size)) (sub32 n 1) qs none
IsAccounted-release {st} {qs = qs} p b v e k = record {
  exact = omega (arith, v.exact, v.bounded, total-release p b st e);
  bounded = omega (arith, v.exact, v.bounded, total-release p b st e);
  counted = omega (arith, v.counted, pending_small v);
  short = v.short;
  live = λ q h. elim (Bool-cases (p == q)) [
    | inl same ↦ absurd (ground (arith, v.unique p b e k))
    | inr other ↦ rw (find-release_ne p q st (ground arith)) (v.live q (omega arith))
  ];
  unique = λ q c f h. elim (Bool-cases (p == q)) [
    | inl same ↦ ground (arith, v.unique p b e k)
    | inr other ↦ ground (arith, v.unique q c, find-release_ne p q st)
  ];
  sized = release-IsSized p st v.sized;
}
