-- ===== src/Tests.antt =====
-- Concrete states on which the theorems are applied.
pub mod Transmit
pub mod Receive
pub mod Host
pub mod Exchanges
pub mod Commands
pub mod Storage
pub mod FileSystem
pub mod Lights
pub mod Messages
pub mod Startup
use blazenet_device_fw.Prelude.{
  ℕ, suc, ◌+◌, ◌≤◌, ◌<◌, ◌≡◌, refl, Bool, true, false, Option, none, some, List, [], ◌∷◌, length,
  Bool-cases, ◌==◌, inl, inr, arith,
}
use blazenet_device_fw.Packet.Buffers.{TxPacketBuffer, Store, find}
use blazenet_device_fw.Packet.Invariant.{TxInv}
use blazenet_device_fw.Packet.Ledger.{held}
use blazenet_device_fw.Packet.Store.{queued, waiting, total}
use blazenet_device_fw.Packet.Tx.Queue.{IsFresh}
use blazenet_device_fw.Radio.Transmit.Attempt.{Accepts}
use blazenet_device_fw.System.{System, Env, Effect, TxQueues, boot, no_queues}

-- An address above all that are in use.
abbrev next_address : Store → ℕ
next_address [] = 1
next_address ((p, b) ∷ st) = p + next_address st + 1

-- A radio that takes every packet, and a heap that never runs out.
abbrev pub env : Env
env = record {
  malloc = λ st n. some (next_address st);
  rx_malloc = λ tr n. true;
  fifo_written = λ tr xs. length xs;
  tx_starts = λ tr channel. true;
  rx_starts = λ tr channel. true;
  valid_channel = λ channel. true;
  power_set = λ tr raw. true;
  dbm_to_raw = λ dbm. dbm;
  radio_receiving = λ tr. true;
  radio_transmitting = λ tr. false;
  ms_to_ticks = λ ms. ms;
  tick_count = λ tr. length tr;
  git_hash = [];
  serial = [];
  eui64 = [];
}

find_above : (st : Store) (k : ℕ) → next_address st ≤ k → find k st ≡ none
unfolding find
find_above [] k h = refl
find_above ((p, b) ∷ st) k h = ground (arith, find_above st k)

pub env-IsFresh : IsFresh env
env-IsFresh st n p e = find_above st p (ground (arith, e))

pub env-Accepts : Accepts env
env-Accepts = record { takes_all = λ tr xs. refl; starts = λ tr channel. refl }

-- One packet of two bytes in flight, a second one waiting behind it.
abbrev pub first_buffer : TxPacketBuffer
first_buffer = record {
  packet_size = 2;
  is_sticky = false;
  csma_fail_count = 0;
  payload = 7 ∷ 8 ∷ [];
}

abbrev pub second_buffer : TxPacketBuffer
second_buffer = record { packet_size = 1; is_sticky = true; csma_fail_count = 0; payload = 9 ∷ [] }

abbrev pub two_pending : System
two_pending = record boot {
  store = (2, second_buffer) ∷ (1, first_buffer) ∷ [];
  tx = record (boot.tx) {
    alloc_bytes = 11;
    packets_pending = 2;
    queues = record no_queues { normal_queue = 2 ∷ [] };
  };
  radio = record (boot.radio) { last_tx = some 1 };
}

two_live :
    (q : ℕ)
    → 0 < held q two_pending.tx.queues (some 1)
    → (b : TxPacketBuffer) × (find q two_pending.store ≡ some b)
unfolding find waiting
two_live q h = elim (Bool-cases (2 == q)) [
  | inl second ↦ (second_buffer, rw second)
  | inr other ↦ elim (Bool-cases (1 == q)) [
    | inl first ↦ (first_buffer, rw (other, first))
    | inr none_other ↦ absurd (ground (arith, none_other, other, h))
  ]
]

pub two_pending-TxInv : TxInv two_pending
unfolding queued waiting total find
two_pending-TxInv = record {
  books = record {
    exact = refl;
    bounded = omega arith;
    counted = refl;
    short = ground arith;
    live = two_live;
    unique = λ q b f k. ground arith;
    sized = ground arith;
  };
  busy = λ h. absurd (cc h);
}
