-- ===== src/HostIf/Handlers/Counters.antt =====
-- What the host learns from GetCounters, Sources/HostIf/Handlers/GetCounters.h, and what stays.
use blazenet_device_fw.Prelude.{
  ℕ, ◌+◌, ◌*◌, ◌/◌, ◌%◌, ◌<◌, ◌≤◌, ◌≡◌, refl, ap, ◌∙◌, List, [], ◌∷◌, ◌++◌, length, take, drop,
  le→ltb, pos, ok, arith,
}
use blazenet_device_fw.HostIf.Handlers.{
  ReadResult, bytes32, all_bytes32, copy_to, counters, clear_packet_counters, clear_radio_counters,
  get_counters_read,
}
use blazenet_device_fw.Packet.Buffers.{RxPacketBuffer}
use blazenet_device_fw.Packet.Invariant.{SameTx-TxInv, TxInv}
use blazenet_device_fw.Packet.Rx.Ledger.{RxAccounted}
use blazenet_device_fw.System.{System, Env}

-- The numbers of 32 bits that bytes hold, lowest byte first.
abbrev pub words_of : List ℕ → List ℕ
words_of [] = []
words_of (a ∷ []) = []
words_of (a ∷ b ∷ []) = []
words_of (a ∷ b ∷ c ∷ []) = []
words_of (a ∷ b ∷ c ∷ d ∷ bytes) = (a + 256 * b + 65536 * c + 16777216 * d) ∷ words_of bytes

abbrev pub AreWords : List ℕ → Type 0
AreWords [] = Unit
AreWords (n ∷ ns) = (n < 4294967296) × AreWords ns

words_of-all_bytes32 : (ns : List ℕ) → AreWords ns → words_of (all_bytes32 ns) ≡ ns
unfolding all_bytes32 bytes32
words_of-all_bytes32 [] h = refl
words_of-all_bytes32 (n ∷ ns) (small, rest) =
    let word : n % 256
          + 256 * (n / 256 % 256)
          + 65536 * (n / 65536 % 256)
          + 16777216 * (n / 16777216 % 256)
        ≡ n =
      omega (arith, small) in
    ap (λ m. m ∷ words_of (all_bytes32 ns)) word ∙ ap (λ ms. n ∷ ms) (words_of-all_bytes32 ns rest)

first_words :
    (env : Env) (s : System) (rest : List ℕ)
    → take 68 (all_bytes32 (counters env s) ++ rest) ≡ all_bytes32 (counters env s)
unfolding all_bytes32 bytes32 counters
first_words env s rest = refl

-- The counters that a second read reports: the losses and the frames are counted anew.
abbrev pub counted_anew : Env → System → List ℕ
counted_anew env s =
    env.tick_count s.trace
    ∷ s.tx.packets_pending
    ∷ s.tx.alloc_bytes
    ∷ 0
    ∷ 0
    ∷ 0
    ∷ 0
    ∷ 0
    ∷ 0
    ∷ length s.rx.queue
    ∷ s.rx.alloc_bytes
    ∷ 0
    ∷ 0
    ∷ 0
    ∷ 0
    ∷ 0
    ∷ 0
    ∷ []

pub record Reports (env : Env) (s : System) (requested : ℕ) (r : ReadResult) : Type 0 where
  pub reply : List ℕ
  pub next : System
  pub returned : r ≡ ok (pos requested, reply, next)
  pub words :
      words_of (take 68 reply)
      ≡ env.tick_count s.trace
        ∷ s.tx.packets_pending
        ∷ s.tx.alloc_bytes
        ∷ s.tx.buffer_discarded
        ∷ s.tx.buffer_alloc_failed
        ∷ s.tx.queue_discarded
        ∷ s.radio.tx_fifo_drops
        ∷ s.radio.tx_cca_fails
        ∷ s.radio.tx_frames
        ∷ length s.rx.queue
        ∷ s.rx.alloc_bytes
        ∷ s.rx.buffer_discarded
        ∷ s.rx.buffer_alloc_failed
        ∷ s.rx.queue_discarded
        ∷ s.radio.rx_fifo_overflows
        ∷ s.radio.rx_frame_errors
        ∷ s.radio.rx_frames
        ∷ []
  pub cleared : counters env next ≡ counted_anew env s
  pub same_queue : next.rx.queue ≡ s.rx.queue
  pub same_irq : next.irq ≡ s.irq
  pub books : TxInv s → TxInv next
  pub accounted : (out : List RxPacketBuffer) → RxAccounted s.rx out → RxAccounted next.rx out

-- A read of 68 bytes or more by GetCounters returns the ticks, the pending packets, the bytes,
-- the losses of the transmit queue, the drops, the busy channels and the frames sent, the packets,
-- the bytes and the losses of the receive queue, and the overflows, the errors and the frames
-- received, as 32-bit words, lowest byte first. It sets the counters of losses and frames to
-- zero, so that no event is reported twice, and changes no queue, no interrupt and none of the
-- counts that the books of the transmit and the receive half rest on.
pub get_counters_read-Reports :
    (env : Env) (requested : ℕ) (buffer : List ℕ) (s : System)
    → 68 ≤ requested
    → AreWords (counters env s)
    → Reports env s requested (get_counters_read env requested buffer s)
unfolding get_counters_read copy_to clear_radio_counters clear_packet_counters counters
get_counters_read-Reports env requested buffer s enough small =
    let bytes = all_bytes32 (counters env s) in
    let reply = bytes ++ drop (length bytes) buffer in
    let next = clear_radio_counters (clear_packet_counters s) in
    record {
      reply = reply;
      next = next;
      returned = rw (le→ltb requested 68 enough);
      words =
          ap words_of (first_words env s (drop (length bytes) buffer))
          ∙ words_of-all_bytes32 (counters env s) small;
      cleared = refl;
      same_queue = refl;
      same_irq = refl;
      books = λ v. SameTx-TxInv (ground arith) v;
      accounted = λ out v. ground (arith, v);
    }
