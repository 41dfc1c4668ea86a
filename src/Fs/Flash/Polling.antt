-- ===== src/Fs/Flash/Polling.antt =====
-- What the commands of Sources/Fs/Flash.cpp put on the bus, and that its polling loop ends.
use blazenet_device_fw.Prelude.{
  ℕ, zero, suc, ◌+◌, ◌*◌, ◌/◌, ◌%◌, ◌<◌, ◌≡◌, ◌≢◌, refl, ap, ◌∙◌, ◌⊎◌, inl, inr, Bool, true, false,
  if◌then◌else◌, List, [], ◌∷◌, ◌++◌, append-nil, Bool-cases, bit_and, ltb, ◌==◌, u32, Outcome, ok,
  arith,
}
use blazenet_device_fw.Fs.FlashInfo.{FlashInfo, w25q64jv}
use blazenet_device_fw.Fs.Flash.{
  Error, no_error, unaligned_size, timeout, io_command, io_payload, unaligned_address,
  page_write_too_big, invalid_arguments, Transfer, writes, reads, Trace, Bus, exec_cmd_read,
  exec_cmd, and_then, write_enable, poll, poll_loop, wait_for_completion,
}

-- What the chip is told to do: bytes to program or an area to erase, with the command's byte.
pub data Op : Type 0 where
  programs : ℕ → ℕ → List ℕ → Op
  erases : ℕ → ℕ → Op

abbrev address_of : ℕ → ℕ → ℕ → ℕ
address_of x y z = x * 65536 + y * 256 + z

-- The chip carries a command out only directly after a write enable, command 06h.
unfoldable pub is_enabled : Trace → Bool
is_enabled (reads (c ∷ []) zero ∷ tr) = c == 6
is_enabled tr = false

-- A command with an address, and bytes written or no payload.
unfoldable pub op_of : Transfer → Bool → List Op
op_of (writes (c ∷ x ∷ y ∷ z ∷ []) payload) enabled =
    if enabled then programs c (address_of x y z) payload ∷ [] else []
op_of (reads (c ∷ x ∷ y ∷ z ∷ []) zero) enabled =
    if enabled then erases c (address_of x y z) ∷ [] else []
op_of t enabled = []

-- All of them, oldest first.
unfoldable pub ops : Trace → List Op
ops [] = []
ops (t ∷ tr) = ops tr ++ op_of t (is_enabled tr)

-- A command either took effect on the bus, or it failed before.
abbrev pub Step : Trace → Op → Error × Trace → Type 0
Step tr o (err, t) = (ops t ≡ ops tr ++ o ∷ []) ⊎ ((err ≢ no_error) × (ops t ≡ ops tr))

pub Error-cases :
    (e : Error)
    → (e ≡ no_error)
      ⊎ ((e ≢ no_error)
          × ((tr : Trace) (k : Trace → Outcome (Error × Trace)) → and_then (e, tr) k ≡ ok (e, tr)))
Error-cases no_error = inl refl
Error-cases unaligned_size = inr (λ h. ground (arith, h), λ tr k. refl)
Error-cases timeout = inr (λ h. ground (arith, h), λ tr k. refl)
Error-cases io_command = inr (λ h. ground (arith, h), λ tr k. refl)
Error-cases io_payload = inr (λ h. ground (arith, h), λ tr k. refl)
Error-cases unaligned_address = inr (λ h. ground (arith, h), λ tr k. refl)
Error-cases page_write_too_big = inr (λ h. ground (arith, h), λ tr k. refl)
Error-cases invalid_arguments = inr (λ h. ground (arith, h), λ tr k. refl)

pub and_then_ok :
    (r : Error × Trace) (k : Trace → Outcome (Error × Trace))
    → r.0 ≡ no_error
    → and_then r k ≡ k r.1
and_then_ok (err, tr) k h = ap (λ e. and_then (e, tr) k) h

-- The trace after so many more reads of the status register.
unfoldable pub polled : ℕ → FlashInfo → Trace → Trace
polled zero info tr = tr
polled (suc n) info tr = polled n info (reads (info.cmd_read_status ∷ []) 1 ∷ tr)

-- The chip is done with any command by one of the next `fuel` reads of its status register.
pub record ChipFinishes (fuel : ℕ) (bus : Bus) (info : FlashInfo) : Type 0 where
  pub finished :
      (tr : Trace)
      → (n : ℕ) × (n < fuel)
        × (bit_and (bus.byte_read (polled (suc n) info tr)) info.status_busy_bit ≡ 0)

-- The polling loop returns, and tells the chip nothing to do.
abbrev Ends : Trace → Outcome (Error × Trace) → Type 0
Ends tr m = (err : Error) × (t : Trace) × (m ≡ ok (err, t)) × (ops t ≡ ops tr)

poll_result :
    (bus : Bus) (info : FlashInfo) (expires : ℕ) (again : Outcome (Error × Trace)) (err : Error)
    (tr base : Trace)
    → ops tr ≡ ops base
    → ((bit_and (bus.byte_read tr) info.status_busy_bit == 0) ≡ false → Ends base again)
    → Ends base (poll bus info expires again (err, tr))
unfolding poll
poll_result bus info expires again no_error tr base same h =
    elim (Bool-cases (bit_and (bus.byte_read tr) info.status_busy_bit == 0)) [
      | inl done ↦ (no_error, tr, rw done, same)
      | inr busy ↦ elim (Bool-cases (ltb expires (u32 (bus.ticks tr)))) [
        | inl late ↦ (timeout, tr, rw (busy, late), same)
        | inr early ↦ (let (e, t, run, kept) = h busy in (e, t, rw (busy, early) run, kept))
      ]
    ]
poll_result bus info expires again unaligned_size tr base same h = (_, tr, refl, same)
poll_result bus info expires again timeout tr base same h = (_, tr, refl, same)
poll_result bus info expires again io_command tr base same h = (_, tr, refl, same)
poll_result bus info expires again io_payload tr base same h = (_, tr, refl, same)
poll_result bus info expires again unaligned_address tr base same h = (_, tr, refl, same)
poll_result bus info expires again page_write_too_big tr base same h = (_, tr, refl, same)
poll_result bus info expires again invalid_arguments tr base same h = (_, tr, refl, same)

poll_loop-Ends :
    (n fuel : ℕ) (bus : Bus) (info : FlashInfo) (expires : ℕ) (tr : Trace)
    → n < fuel
    → bit_and (bus.byte_read (polled (suc n) info tr)) info.status_busy_bit ≡ 0
    → Ends tr (poll_loop fuel bus info expires tr)
unfolding poll_loop polled exec_cmd_read ops op_of
poll_loop-Ends n zero bus info expires tr few done = absurd (omega (arith, few))
poll_loop-Ends zero (suc fuel) bus info expires tr few done =
    poll_result bus info expires _ _ _ tr (append-nil _) λ busy. absurd (ground (arith, busy, done))
poll_loop-Ends (suc n) (suc fuel) bus info expires tr few done =
    poll_result bus info expires _ _ _ tr (append-nil _) λ busy.
      (let (e, t, run, same) =
          poll_loop-Ends n fuel bus info expires (reads (info.cmd_read_status ∷ []) 1 ∷ tr)
            (omega (arith, few)) done in
        (e, t, run, same ∙ append-nil _))

wait_for_completion-Ends :
    (fuel : ℕ) (bus : Bus) (info : FlashInfo) (msec : ℕ) (tr : Trace)
    → ChipFinishes fuel bus info
    → Ends tr (wait_for_completion fuel bus info msec tr)
unfolding wait_for_completion
wait_for_completion-Ends fuel bus info msec tr v =
    let (n, few, done) = v.finished tr in poll_loop-Ends n fuel bus info _ tr few done

-- A write enable that succeeds leaves the chip enabled, and tells it nothing to do.
write_enable-ops :
    (bus : Bus) (tr : Trace)
    → (is_enabled (write_enable bus w25q64jv tr).1 ≡ true)
      × (ops (write_enable bus w25q64jv tr).1 ≡ ops tr)
unfolding write_enable exec_cmd exec_cmd_read ops op_of is_enabled
write_enable-ops bus tr = (refl, append-nil (ops tr))

-- A write enable, one transfer that tells the chip what to do, and the wait for its completion.
pub command-Step :
    (fuel : ℕ) (bus : Bus) (msec : ℕ) (o : Op) (act : Trace → Error × Trace) (tr : Trace)
    → ChipFinishes fuel bus w25q64jv
    → ((u : Trace) → is_enabled u ≡ true → ops (act u).1 ≡ ops u ++ o ∷ [])
    → (r : Error × Trace) × (and_then
          (write_enable bus w25q64jv tr)
          (λ tr1. and_then (act tr1) λ tr2. wait_for_completion fuel bus w25q64jv msec tr2)
        ≡ ok r)
      × Step tr o r
command-Step fuel bus msec o act tr v acts =
    let (e1, tr1) = write_enable bus w25q64jv tr in
    let (enabled, kept) = write_enable-ops bus tr in
    elim (Error-cases e1) [
      | inr (failed, out) ↦ ((e1, tr1), out tr1 _, inr (failed, kept))
      | inl fine ↦
          (let first = and_then_ok (write_enable bus w25q64jv tr) _ fine in
            let acted : ops (act tr1).1 ≡ ops tr ++ o ∷ [] =
              acts tr1 enabled ∙ ap (λ l. l ++ o ∷ []) kept in
            elim (Error-cases (act tr1).0) [
              | inr (failed, out) ↦ (act tr1, first ∙ out (act tr1).1 _, inl acted)
              | inl done ↦
                  (let (err, t, run, same) =
                      wait_for_completion-Ends fuel bus w25q64jv msec (act tr1).1 v in
                    ((err, t), first ∙ (and_then_ok (act tr1) _ done ∙ run), inl (same ∙ acted)))
            ])
    ]

pub address_bytes : (a : ℕ) → address_of (a / 65536 % 256) (a / 256 % 256) (a % 256) ≡ a % 16777216
address_bytes a = omega arith
