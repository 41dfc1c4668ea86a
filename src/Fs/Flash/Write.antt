-- ===== src/Fs/Flash/Write.antt =====
-- Flash::write of Sources/Fs/Flash.cpp on the W25Q64JV, the one chip that the firmware knows.
use blazenet_device_fw.Prelude.{
  true, ℕ, zero, suc, ◌+◌, ◌-◌, ◌%◌, ◌≤◌, ◌<◌, ◌≡◌, ◌≢◌, refl, sym, ap, ◌∙◌, inl, inr, false, List,
  [], ◌∷◌, ◌++◌, append_assoc, append-nil, length, length-take, length-drop, take, drop, min,
  Bool-cases, ltb, ◌==◌, u32, Outcome, ok, arith,
}
use blazenet_device_fw.Fs.FlashInfo.{page_size_bytes, w25q64jv}
use blazenet_device_fw.Fs.Flash.{
  Error, no_error, Trace, Bus, exec_cmd_write, and_then, addressed, write_page, write_loop, write,
}
use blazenet_device_fw.Fs.Flash.Polling.{
  Op, programs, erases, op_of, is_enabled, ops, Step, Error-cases, and_then_ok, ChipFinishes,
  command-Step, address_bytes,
}

take-drop {ℓ} : {A : Type ℓ} (n : ℕ) (xs : List A) → take n xs ++ drop n xs ≡ xs
take-drop zero xs = refl
take-drop (suc n) [] = refl
take-drop (suc n) (x ∷ xs) = ap (◌∷◌ x) (take-drop n xs)

length_zero {ℓ} : {A : Type ℓ} (xs : List A) → length xs ≡ 0 → xs ≡ []
length_zero [] h = refl
length_zero (x ∷ xs) h = absurd (omega (arith, h))

-- The programming commands write the front of `payload` from the address `a` on, with no gap and no
-- overlap, each within one page of 256 bytes, and leave `rest`.
abbrev pub Writes : ℕ → List ℕ → List Op → List ℕ → Type 0
Writes a payload [] rest = payload ≡ rest
Writes a payload (programs c b chunk ∷ os) rest =
    (c ≡ w25q64jv.cmd_program_page)
    × (b ≡ a % 16777216)
    × (0 < length chunk)
    × (a % 256 + length chunk ≤ 256)
    × ((more : List ℕ) × (payload ≡ chunk ++ more) × Writes (a + length chunk) more os rest)
Writes a payload (erases c b ∷ os) rest = ⊥

program_ops :
    (bus : Bus) (a : ℕ) (chunk : List ℕ) (u : Trace)
    → is_enabled u ≡ true
    → ops (exec_cmd_write bus (addressed 2 a) chunk u).1
      ≡ ops u ++ programs 2 (a % 16777216) chunk ∷ []
unfolding exec_cmd_write addressed ops op_of
program_ops bus a chunk u enabled =
    rw enabled (ap (λ b. ops u ++ programs 2 b chunk ∷ []) (address_bytes a))

write_page-Step :
    (fuel : ℕ) (bus : Bus) (a : ℕ) (chunk : List ℕ) (tr : Trace)
    → ChipFinishes fuel bus w25q64jv
    → 0 < length chunk
    → a % 256 + length chunk ≤ 256
    → (r : Error × Trace) × (write_page fuel bus w25q64jv a chunk tr ≡ ok r)
      × Step tr (programs w25q64jv.cmd_program_page (a % 16777216) chunk) r
unfolding write_page page_size_bytes
write_page-Step fuel bus a chunk tr v nonempty fits =
    let some_bytes : (length chunk == 0) ≡ false = ground arith in
    let in_page : ltb 256 (length chunk + a % 256) ≡ false = ground arith in
    let (r, run, step) =
      command-Step fuel bus 3 (programs 2 (a % 16777216) chunk)
        (exec_cmd_write bus (addressed 2 a) chunk) tr v
        (λ u enabled. program_ops bus a chunk u enabled) in
    (r, rw (some_bytes, in_page) run, step)

-- What `write` returns, and what it has told the chip to do.
pub record Programs (a : ℕ) (payload : List ℕ) (tr : Trace) (r : Error × Trace) : Type 0 where
  pub done : List Op
  pub rest : List ℕ
  pub logged : ops r.1 ≡ ops tr ++ done
  pub in_pages : Writes a payload done rest
  pub complete : r.0 ≡ no_error → rest ≡ []

-- Nothing more, one command, and one command before those of the following rounds.
stopped :
    (a : ℕ) (payload : List ℕ) (tr : Trace) (r : Error × Trace)
    → ops r.1 ≡ ops tr
    → (r.0 ≡ no_error → payload ≡ [])
    → Programs a payload tr r
stopped a payload tr r kept h = record {
  done = [];
  rest = payload;
  logged = kept ∙ sym (append-nil (ops tr));
  in_pages = refl;
  complete = h;
}

module _ (a : ℕ) (payload chunk more : List ℕ) where
  in_page :
      (os : List Op) (rest : List ℕ)
      → payload ≡ chunk ++ more
      → 0 < length chunk
      → a % 256 + length chunk ≤ 256
      → Writes (a + length chunk) more os rest
      → Writes a payload (programs w25q64jv.cmd_program_page (a % 16777216) chunk ∷ os) rest
  in_page os rest e pos fit w = (refl, refl, pos, fit, (more, e, w))

  one_page :
      (tr : Trace) (r : Error × Trace)
      → payload ≡ chunk ++ more
      → 0 < length chunk
      → a % 256 + length chunk ≤ 256
      → Step tr (programs w25q64jv.cmd_program_page (a % 16777216) chunk) r
      → r.0 ≢ no_error
      → Programs a payload tr r
  one_page tr r e pos fit (inr (failed, kept)) bad =
      stopped a payload tr r kept (λ h. absurd (bad h))
  one_page tr r e pos fit (inl logged) bad = record {
    done = programs w25q64jv.cmd_program_page (a % 16777216) chunk ∷ [];
    rest = more;
    logged = logged;
    in_pages = in_page [] more e pos fit refl;
    complete = λ h. absurd (bad h);
  }

  more_pages :
      (tr u : Trace) (t : Error × Trace)
      → payload ≡ chunk ++ more
      → 0 < length chunk
      → a % 256 + length chunk ≤ 256
      → ops u ≡ ops tr ++ programs w25q64jv.cmd_program_page (a % 16777216) chunk ∷ []
      → Programs (a + length chunk) more u t
      → Programs a payload tr t
  more_pages tr u t e pos fit logged p = record {
    done = programs w25q64jv.cmd_program_page (a % 16777216) chunk ∷ p.done;
    rest = p.rest;
    logged = p.logged ∙ (ap (λ l. l ++ p.done) logged ∙ append_assoc (ops tr) _ p.done);
    in_pages = in_page p.done p.rest e pos fit p.in_pages;
    complete = p.complete;
  }

  -- The command of a page and the rest of the loop, `again`.
  pages :
      (tr : Trace) (r : Error × Trace) (again : Trace → Outcome (Error × Trace))
      → payload ≡ chunk ++ more
      → 0 < length chunk
      → a % 256 + length chunk ≤ 256
      → Step tr (programs w25q64jv.cmd_program_page (a % 16777216) chunk) r
      → (r.0 ≡ no_error
          → (t : Error × Trace) × (again r.1 ≡ ok t) × Programs (a + length chunk) more r.1 t)
      → (t : Error × Trace) × (and_then r again ≡ ok t) × Programs a payload tr t
  pages tr r again e pos fit step next = elim (Error-cases r.0) [
    | inr (failed, out) ↦ (r, out r.1 again, one_page tr r e pos fit step failed)
    | inl fine ↦
        (let (t, run, p) = next fine in
          (
            t,
            and_then_ok r again fine ∙ run,
            elim step [
              | inl logged ↦ more_pages tr r.1 t e pos fit logged p
              | inr (failed, kept) ↦ absurd (failed fine)
            ],
          ))
  ]

-- How long the piece of a page is that a round writes.
piece_size :
    (a : ℕ) (payload : List ℕ)
    → (length payload == 0) ≡ false
    → let n = min (256 - a % 256) (length payload) in
      (length (take n payload) ≡ n)
      × (0 < length (take n payload))
      × (a % 256 + length (take n payload) ≤ 256)
      × (length (drop n payload) ≡ length payload - n)
piece_size a payload some_left =
    let n = min (256 - a % 256) (length payload) in
    let size : length (take n payload) ≡ n = length-take n payload ∙ omega arith in
    let pos : 0 < length payload = ground (arith, some_left) in
    (size, omega (arith, size), omega (arith, size), length-drop n payload)

write_loop-Programs :
    (rounds fuel : ℕ) (bus : Bus) (a : ℕ) (payload : List ℕ) (tr : Trace)
    → ChipFinishes fuel bus w25q64jv
    → length payload < rounds
    → a + length payload ≤ 4294967295
    → (r : Error × Trace) × (write_loop rounds fuel bus w25q64jv a payload tr ≡ ok r)
      × Programs a payload tr r
unfolding write_loop page_size_bytes
write_loop-Programs zero fuel bus a payload tr v enough fits = absurd (omega arith)
write_loop-Programs (suc rounds) fuel bus a payload tr v enough fits =
    elim (Bool-cases (length payload == 0)) [
      | inl none_left ↦ (
        (no_error, tr),
        rw none_left,
        stopped a payload tr (no_error, tr) refl
            λ h. length_zero payload (ground (arith, none_left)),
      )
      | inr some_left ↦
          (let n = min (256 - a % 256) (length payload) in
            let chunk = take n payload in
            let more = drop n payload in
            let (size, pos, fit, left) = piece_size a payload some_left in
            let (r, run, step) = write_page-Step fuel bus a chunk tr v pos fit in
            let again = λ (u : Trace). write_loop rounds fuel bus w25q64jv (u32 (a + n)) more u in
            let w : u32 (a + n) ≡ a + length chunk = omega (arith, size) in
            let (t, rest, p) =
              pages a payload chunk more tr r again (sym (take-drop n payload)) pos fit step λ fine.
                (let (t, ran, p) =
                    write_loop-Programs rounds fuel bus (a + length chunk) more r.1 v
                      (omega (arith, size, pos, left)) (omega (arith, size, left)) in
                  (t, ap (λ x. write_loop rounds fuel bus w25q64jv x more r.1) w ∙ ran, p)) in
            (t, rw (some_left, run) rest, p))
    ]

-- With a chip that finishes its commands, a write of at least one byte below the end of the address space
-- returns. What the chip has then been told to do, directly after a
-- write enable, is to program a front of the bytes from the
-- address on, in order, with no gap, and each command within one page; if it reports no error,
-- the front is all the bytes.
pub write-Programs :
    (fuel : ℕ) (bus : Bus) (a : ℕ) (payload : List ℕ) (tr : Trace)
    → ChipFinishes fuel bus w25q64jv
    → 0 < length payload
    → a + length payload ≤ 4294967295
    → (r : Error × Trace) × (write fuel bus w25q64jv a payload tr ≡ ok r) × Programs a payload tr r
unfolding write
write-Programs fuel bus a payload tr v nonempty fits =
    let some_bytes : (length payload == 0) ≡ false = ground arith in
    let (r, run, p) =
      write_loop-Programs (length payload + 1) fuel bus a payload tr v (omega arith) fits in
    (r, rw some_bytes run, p)
