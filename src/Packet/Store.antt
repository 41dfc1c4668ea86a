-- ===== src/Packet/Store.antt =====
-- Laws of the store of transmit buffers (Packet.Buffers) and of the four transmit queues.
use blazenet_device_fw.Prelude.{
  ℕ, ◌+◌, ◌≤◌, ◌≡◌, ◌≢◌, refl, some, List, [], ◌∷◌, ◌++◌, length, length-append, count,
  count-append, ◌==◌, if◌then◌else◌, arith,
}
use blazenet_device_fw.Packet.Buffers.{
  TxPacketPriority, background, normal, real_time, network_control, TxPacketBuffer, Store, find,
  modify, release, tx_header_size,
}
use blazenet_device_fw.System.{TxQueues, queue_of, set_queue}

-- The bytes that the live buffers take.
unfoldable pub total : Store → ℕ
total [] = 0
total ((q, b) ∷ st) = tx_header_size + b.packet_size + total st

pub find-release_ne : (p q : ℕ) (st : Store) → p ≢ q → find q (release p st) ≡ find q st
unfolding find release
find-release_ne p q [] h = refl
find-release_ne p q ((r, b) ∷ st) h = ground (arith, find-release_ne p q st)

pub total-release :
    (p : ℕ) (b : TxPacketBuffer) (st : Store)
    → find p st ≡ some b
    → total (release p st) + (tx_header_size + b.packet_size) ≡ total st
unfolding find release total
total-release p b [] h = cc
total-release p b ((r, c) ∷ st) h = ground (arith, total-release p b st)

pub find-modify_self :
    (p : ℕ) (b v : TxPacketBuffer) (st : Store)
    → find p st ≡ some b
    → find p (modify p v st) ≡ some v
unfolding find modify
find-modify_self p b v [] h = cc
find-modify_self p b v ((r, c) ∷ st) h = ground (arith, find-modify_self p b v st)

pub find-modify_ne :
    (p q : ℕ) (v : TxPacketBuffer) (st : Store) → p ≢ q → find q (modify p v st) ≡ find q st
unfolding find modify
find-modify_ne p q v [] h = refl
find-modify_ne p q v ((r, c) ∷ st) h = ground (arith, find-modify_ne p q v st)

pub total-modify :
    (p : ℕ) (b v : TxPacketBuffer) (st : Store)
    → find p st ≡ some b
    → v.packet_size ≡ b.packet_size
    → total (modify p v st) ≡ total st
unfolding find modify total
total-modify p b v [] h e = cc
total-modify p b v ((r, c) ∷ st) h e = ground (arith, total-modify p b v st)

-- Every buffer's size field is the length of its payload.
abbrev pub IsSized : Store → Type 0
IsSized [] = Unit {0}
IsSized ((q, b) ∷ st) = (b.packet_size ≡ length b.payload) × IsSized st

pub release-IsSized : (p : ℕ) (st : Store) → IsSized st → IsSized (release p st)
unfolding release
release-IsSized p [] v = tt
release-IsSized p ((q, b) ∷ st) v = ground (arith, release-IsSized p st v.1)

pub modify-IsSized :
    (p : ℕ) (c : TxPacketBuffer) (st : Store)
    → c.packet_size ≡ length c.payload
    → IsSized st
    → IsSized (modify p c st)
unfolding modify
modify-IsSized p c [] h v = tt
modify-IsSized p c ((q, b) ∷ st) h v = ground (arith, modify-IsSized p c st h v.1)

pub find-IsSized :
    (p : ℕ) (b : TxPacketBuffer) (st : Store)
    → IsSized st
    → find p st ≡ some b
    → b.packet_size ≡ length b.payload
unfolding find
find-IsSized p b [] v e = cc
find-IsSized p b ((q, c) ∷ st) v e = ground (arith, find-IsSized p b st v.1)

-- How many packets wait, and how often one of them is the packet at `p`.
unfoldable pub queued : TxQueues → ℕ
queued qs =
    length qs.background_queue
    + length qs.normal_queue
    + length qs.real_time_queue
    + length qs.network_control_queue

unfoldable pub waiting : ℕ → TxQueues → ℕ
waiting p qs =
    count p qs.background_queue
    + count p qs.normal_queue
    + count p qs.real_time_queue
    + count p qs.network_control_queue

count-le-length : (p : ℕ) (xs : List ℕ) → count p xs ≤ length xs
count-le-length p [] = omega arith
count-le-length p (x ∷ xs) = ground (arith, count-le-length p xs)

pub waiting-le-queued : (p : ℕ) (qs : TxQueues) → waiting p qs ≤ queued qs
unfolding waiting queued
waiting-le-queued p qs = omega (
  arith,
  count-le-length p qs.background_queue,
  count-le-length p qs.normal_queue,
  count-le-length p qs.real_time_queue,
  count-le-length p qs.network_control_queue,
)

abbrev pub appended : TxPacketPriority → ℕ → TxQueues → TxQueues
appended priority p qs = set_queue priority (queue_of priority qs ++ p ∷ []) qs

pub queued-appended :
    (priority : TxPacketPriority) (p : ℕ) (qs : TxQueues)
    → queued (appended priority p qs) ≡ queued qs + 1
unfolding queued set_queue queue_of
queued-appended background p qs = omega (arith, length-append qs.background_queue (p ∷ []))
queued-appended normal p qs = omega (arith, length-append qs.normal_queue (p ∷ []))
queued-appended real_time p qs = omega (arith, length-append qs.real_time_queue (p ∷ []))
queued-appended network_control p qs =
    omega (arith, length-append qs.network_control_queue (p ∷ []))

pub waiting-appended :
    (q : ℕ) (priority : TxPacketPriority) (p : ℕ) (qs : TxQueues)
    → waiting q (appended priority p qs) ≡ waiting q qs + (if p == q then 1 else 0)
unfolding waiting set_queue queue_of
waiting-appended q background p qs = omega (arith, count-append q qs.background_queue (p ∷ []))
waiting-appended q normal p qs = omega (arith, count-append q qs.normal_queue (p ∷ []))
waiting-appended q real_time p qs = omega (arith, count-append q qs.real_time_queue (p ∷ []))
waiting-appended q network_control p qs =
    omega (arith, count-append q qs.network_control_queue (p ∷ []))
