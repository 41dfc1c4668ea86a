-- ===== src/Fs/Flash/Prompt.antt =====
-- The driver of Sources/Fs/Flash.cpp on a bus that moves every byte.
use blazenet_device_fw.Prelude.{
  ℕ, suc, ◌+◌, ◌-◌, ◌%◌, ◌<◌, ◌≤◌, ◌≡◌, refl, ap, ◌∙◌, min, true, false, inl, inr, Bool-cases,
  bit_and, List, [], ◌∷◌, length, take, take_all, drop, ltb, le→ltb, if◌then◌else◌, ◌>>=◌, ◌==◌,
  ==_iff, u32, Outcome, ok, arith,
}
use blazenet_device_fw.Fs.FlashInfo.{w25q64jv, page_size_bytes}
use blazenet_device_fw.Fs.Flash.Polling.{polled, ChipFinishes}
use blazenet_device_fw.Fs.Flash.{
  Error, no_error, invalid_arguments, Trace, Bus, writes, reads, transfer_error, exec_cmd_read,
  exec_cmd_write, exec_cmd, addressed, write_enable, poll, poll_loop, wait_for_completion,
  write_page, write_loop, write, erase_chip, and_then,
}

pub record MovesAll (bus : Bus) : Type 0 where
  pub sent : (t : Trace) → bus.command_sent t ≡ true
  pub moved : (t : Trace) → bus.payload_moved t ≡ true

drop_all : (xs : List ℕ) → drop (length xs) xs ≡ []
drop_all [] = refl
drop_all (x ∷ xs) = drop_all xs

module _ (bus : Bus) (moves : MovesAll bus) where
  transfer-ok : (n : ℕ) (t : Trace) → transfer_error bus n t ≡ no_error
  unfolding transfer_error
  transfer-ok n t = elim (Bool-cases (n == 0)) [
    | inl empty ↦ rw (moves.sent t, empty)
    | inr some_bytes ↦ rw (moves.sent t, some_bytes, moves.moved t)
  ]

  pub read-ok :
      (cmd : List ℕ) (n : ℕ) (t : Trace) → exec_cmd_read bus cmd n t ≡ (no_error, reads cmd n ∷ t)
  unfolding exec_cmd_read
  read-ok cmd n t = ap (λ e. (e, reads cmd n ∷ t)) (transfer-ok n (reads cmd n ∷ t))

  write-ok :
      (cmd payload : List ℕ) (t : Trace)
      → exec_cmd_write bus cmd payload t ≡ (no_error, writes cmd payload ∷ t)
  unfolding exec_cmd_write
  write-ok cmd payload t =
      ap (λ e. (e, writes cmd payload ∷ t)) (transfer-ok (length payload) (writes cmd payload ∷ t))

-- A chip that is done with a command when its status is first read.
pub record IsPrompt (bus : Bus) : Type 0 where
  pub moves : MovesAll bus
  pub done : (t : Trace) → bit_and (bus.byte_read t) 1 ≡ 0

-- The status read after a command.
abbrev polled_once : Trace → Trace
polled_once t = reads (5 ∷ []) 1 ∷ t

module _ (fuel : ℕ) (bus : Bus) (prompt : IsPrompt bus) where
  wait-ok :
      (msec : ℕ) (t : Trace)
      → wait_for_completion (suc fuel) bus w25q64jv msec t ≡ ok (no_error, polled_once t)
  unfolding wait_for_completion poll_loop poll
  wait-ok msec t =
      let idle : (bit_and (bus.byte_read (polled_once t)) 1 == 0) ≡ true =
        (==_iff _ 0).1 (prompt.done (polled_once t)) in
      rw (read-ok bus prompt.moves (5 ∷ []) 1 t, idle)

  pub erase_chip-ok :
      (t : Trace)
      → erase_chip (suc fuel) bus w25q64jv t
        ≡ ok (no_error, polled_once (reads (199 ∷ []) 0 ∷ reads (6 ∷ []) 0 ∷ t))
  unfolding erase_chip write_enable exec_cmd
  erase_chip-ok t =
      let t1 = reads (6 ∷ []) 0 ∷ t in
      rw (read-ok bus prompt.moves (6 ∷ []) 0 t, read-ok bus prompt.moves (199 ∷ []) 0 t1)
        (wait-ok 100000 (reads (199 ∷ []) 0 ∷ t1))

  page-ok :
      (payload : List ℕ) (t : Trace)
      → (length payload == 0) ≡ false
      → ltb 256 (length payload + 0) ≡ false
      → write_page (suc fuel) bus w25q64jv 0 payload t
        ≡ ok (no_error, polled_once (writes (2 ∷ 0 ∷ 0 ∷ 0 ∷ []) payload ∷ reads (6 ∷ []) 0 ∷ t))
  unfolding write_page write_enable exec_cmd addressed page_size_bytes
  page-ok payload t nonempty fits =
      let t1 = reads (6 ∷ []) 0 ∷ t in
      rw
        (
          nonempty,
          fits,
          read-ok bus prompt.moves (6 ∷ []) 0 t,
          write-ok bus prompt.moves (2 ∷ 0 ∷ 0 ∷ 0 ∷ []) payload t1,
        )
        (wait-ok 3 (writes (2 ∷ 0 ∷ 0 ∷ 0 ∷ []) payload ∷ t1))

  loop_ends :
      (rounds start : ℕ) (rest : List ℕ) (t : Trace)
      → rest ≡ []
      → write_loop (suc rounds) (suc fuel) bus w25q64jv start rest t ≡ ok (no_error, t)
  unfolding write_loop
  loop_ends rounds start rest t e =
      ap (λ xs. write_loop (suc rounds) (suc fuel) bus w25q64jv start xs t) e

  -- Bytes that fit in the first page are written by one command.
  pub one_page-ok :
      (payload : List ℕ) (t : Trace)
      → 0 < length payload
      → length payload ≤ 256
      → write (suc fuel) bus w25q64jv 0 payload t
        ≡ ok (no_error, polled_once (writes (2 ∷ 0 ∷ 0 ∷ 0 ∷ []) payload ∷ reads (6 ∷ []) 0 ∷ t))
  unfolding write write_loop page_size_bytes
  one_page-ok payload t positive fits =
      let len = length payload in
      let nonempty : (len == 0) ≡ false = ground arith in
      let fits_page : ltb 256 (len + 0) ≡ false = le→ltb 256 (len + 0) (omega arith) in
      let after = polled_once (writes (2 ∷ 0 ∷ 0 ∷ 0 ∷ []) payload ∷ reads (6 ∷ []) 0 ∷ t) in
      let rounds = suc (len - 1) in
      let later : ℕ → Error × Trace → Outcome (Error × Trace) = λ n r.
        and_then r (write_loop rounds (suc fuel) bus w25q64jv (u32 (0 + n)) (drop n payload)) in
      let body : ℕ → Outcome (Error × Trace) =
        λ n. write_page (suc fuel) bus w25q64jv 0 (take n payload) t >>= later n in
      let empty : Outcome (Error × Trace) = ok (no_error, t) in
      let whole : min (256 - 0 % 256) len ≡ len = omega arith in
      let enough : len + 1 ≡ suc rounds = omega arith in
      ap
        (λ b.
          if b
          then ok (invalid_arguments, t)
          else write_loop (len + 1) (suc fuel) bus w25q64jv 0 payload t)
        nonempty
      ∙ ap (λ k. write_loop k (suc fuel) bus w25q64jv 0 payload t) enough
      ∙ ap (λ b. if b then empty else body (min (256 - 0 % 256) len)) nonempty
      ∙ ap body whole
      ∙ ap (λ xs. write_page (suc fuel) bus w25q64jv 0 xs t >>= later len)
          (take_all len payload (omega arith))
      ∙ ap (λ r. r >>= later len) (page-ok payload t nonempty fits_page)
      ∙ loop_ends (len - 1) (u32 (0 + len)) (drop len payload) after (drop_all payload)

-- Such a chip is done with every command by the first read of its status register.
pub prompt-ChipFinishes :
    (fuel : ℕ) (bus : Bus) → IsPrompt bus → ChipFinishes (suc fuel) bus w25q64jv
unfolding polled
prompt-ChipFinishes fuel bus prompt = record {
  finished = λ tr. (0, omega arith, prompt.done (polled_once tr));
}
