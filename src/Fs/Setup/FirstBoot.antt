-- ===== src/Fs/Setup/FirstBoot.antt =====
-- What FormatNor of Sources/Fs/Init.cpp has programmed when it returns.
use blazenet_device_fw.Prelude.{
  ℕ, ◌≡◌, refl, ◌∙◌, ap, sym, subst, not, true, is_err, ℤ, Outcome, ok, ◌>>=◌, ◌>>◌, require,
  bind-ok, require-ok, arith,
}
use blazenet_device_fw.Fs.FlashInfo.{w25q64jv}
use blazenet_device_fw.Fs.Flash.{Error, no_error, Trace, erase_chip, write}
use blazenet_device_fw.Fs.Flash.Polling.{ChipFinishes}
use blazenet_device_fw.Fs.Flash.Write.{Programs, write-Programs}
use blazenet_device_fw.Fs.Superblock.{to_bytes, init_superblock, word_bytes}
use blazenet_device_fw.Fs.NorFs.{Log, format}
use blazenet_device_fw.Fs.Setup.{Board, FsState, succeeded, format_nor}

success : (e : Error) → succeeded e ≡ true → e ≡ no_error
unfolding succeeded
success Error.no_error h = refl
success Error.unaligned_size h = absurd (cc h)
success Error.timeout h = absurd (cc h)
success Error.io_command h = absurd (cc h)
success Error.io_payload h = absurd (cc h)
success Error.unaligned_address h = absurd (cc h)
success Error.page_write_too_big h = absurd (cc h)
success Error.invalid_arguments h = absurd (cc h)

-- A step of the driver whose error the next line requires to be zero.
module _ (m : Outcome (Error × Trace)) (k : Trace → Outcome FsState) (s : FsState) where
  checked-ok :
      (m >>= λ (r : Error × Trace). require (succeeded r.0) >> k r.1) ≡ ok s
      → (u : Trace) × (m ≡ ok (no_error, u)) × (k u ≡ ok s)
  checked-ok h =
      let (r, run, rest) =
        bind-ok m (λ (r : Error × Trace). require (succeeded r.0) >> k r.1) s h in
      let (fine, rest) = require-ok (succeeded r.0) (k r.1) s rest in
      (r.1, run ∙ ap (λ e. ok (e, r.1)) (success r.0 fine), rest)

-- FormatNor after it has written the superblock.
abbrev format_last : Board → Log → Trace → Outcome FsState
format_last board l t =
    format board.services w25q64jv (init_superblock board.crc32 w25q64jv) l >>= λ (v : ℤ × Log).
    require (not (is_err v.0)) >> ok (t, v.1)

last-keeps :
    (board : Board) (l : Log) (t : Trace) (s : FsState) → format_last board l t ≡ ok s → s.0 ≡ t
last-keeps board l t s h =
    let (v, formatted, rest) =
      bind-ok (format board.services w25q64jv (init_superblock board.crc32 w25q64jv) l)
        (λ (v : ℤ × Log). require (not (is_err v.0)) >> ok (t, v.1)) s h in
    let (fine, rest) = require-ok (not (is_err v.0)) (ok (t, v.1)) s rest in
    let same : (t, v.1) ≡ s = cc rest in sym (ap (λ (u : FsState). u.0) same)

pub format_nor-Programs :
    (fuel : ℕ) (board : Board) (t : Trace) (l : Log) (s : FsState)
    → ChipFinishes fuel board.bus w25q64jv
    → format_nor fuel board w25q64jv (t, l) ≡ ok s
    → (u : Trace) × (erase_chip fuel board.bus w25q64jv t ≡ ok (no_error, u))
      × Programs 0 (to_bytes (init_superblock board.crc32 w25q64jv)) u (no_error, s.0)
unfolding format_nor to_bytes word_bytes
format_nor-Programs fuel board t l s timely h =
    let payload = to_bytes (init_superblock board.crc32 w25q64jv) in
    let (u, erased, rest) =
      checked-ok (erase_chip fuel board.bus w25q64jv t)
        (λ t1. write fuel board.bus w25q64jv 0 payload t1 >>= λ (r : Error × Trace).
          require (succeeded r.0) >> format_last board l r.1)
        s h in
    let (v, wrote, rest) =
      checked-ok (write fuel board.bus w25q64jv 0 payload u) (format_last board l) s rest in
    let (x, run, p) =
      write-Programs fuel board.bus 0 payload u timely (omega arith) (omega arith) in
    let same : x ≡ (no_error, v) = cc (run, wrote) in
    let kept : (no_error, v) ≡ (no_error, s.0) =
      ap (λ w. (no_error, w)) (sym (last-keeps board l v s rest)) in
    (u, erased, subst (Programs 0 payload u) (same ∙ kept) p)
