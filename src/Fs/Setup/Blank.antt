-- ===== src/Fs/Setup/Blank.antt =====
-- Init of Sources/Fs/Init.cpp on a blank flash.
use blazenet_device_fw.Prelude.{
  ℕ, suc, ◌+◌, ◌*◌, ◌≡◌, refl, ap, ◌∙◌, true, some, pos, is_err, List, [], ◌∷◌, length, u32, ok,
  arith,
}
use blazenet_device_fw.Fs.FlashInfo.{FlashInfo, w25q64jv, identify_flash}
use blazenet_device_fw.Fs.Flash.{
  no_error, Trace, writes, reads, exec_cmd_read, exec_cmd, addressed, read, reset, identify,
}
use blazenet_device_fw.Fs.Flash.Prompt.{
  prompt-ChipFinishes, IsPrompt, read-ok, erase_chip-ok, one_page-ok,
}
use blazenet_device_fw.Fs.Flash.Write.{Programs}
use blazenet_device_fw.Fs.Superblock.{Superblock, to_bytes, word_bytes, init_superblock}
use blazenet_device_fw.Fs.Superblock.Validation.{IsErased, is_empty-IsErased}
use blazenet_device_fw.Fs.NorFs.{
  Log, Services, record_allocated, live, mount, mount_with_work, mount_with_cache, init_fs_config,
  finish_mount, spiffs_mount, spiffs_format, cache_size_of, allocated, format,
}
use blazenet_device_fw.Fs.NorFs.Memory.{released, format-unbuffered}
use blazenet_device_fw.Fs.Setup.FirstBoot.{format_nor-Programs}
use blazenet_device_fw.Fs.Setup.{
  Board, FsState, resets, succeeded, format_nor, start, start_flash, identified, init,
}

-- Memory suffices, mounting finds no file system, and formatting succeeds.
pub record CanFormat (env : Services) : Type 0 where
  pub memory : (l : Log) (n : ℕ) → (p : ℕ) × (env.malloc l n ≡ some p)
  pub unmounted : (l : Log) → env.mount_result l ≡ env.err_not_a_fs
  pub negative : is_err env.err_not_a_fs ≡ true
  pub formats : (l : Log) → env.format_result l ≡ pos 0

-- The chip answers at once, to its identification too, and its first bytes are erased.
pub record IsBlank (board : Board) : Type 0 where
  pub prompt : IsPrompt board.bus
  pub identity : (t : Trace) → board.bytes_read (reads (159 ∷ []) 3 ∷ t) ≡ 239 ∷ 64 ∷ 23 ∷ []
  pub content : (t : Trace) → IsErased (board.bytes_read (reads (3 ∷ 0 ∷ 0 ∷ 0 ∷ []) 28 ∷ t))

module _ (env : Services) (able : CanFormat env) where
  mount_fails :
      (info : FlashInfo) (super : Superblock) (l : Log)
      → (l1 : Log) × (mount env info super l ≡ ok (env.err_not_a_fs, l1))
  unfolding mount mount_with_work mount_with_cache record_allocated cache_size_of finish_mount live
  mount_fails info super l =
      let config = init_fs_config info super in
      let (work, got) = able.memory l (u32 (2 * config.log_page_size)) in
      let l1 = allocated work ∷ l in
      let (cache, more) = able.memory l1 (u32 ((config.log_page_size + 32) * 4)) in
      let size = u32 ((config.log_page_size + 32) * 4) in
      let l2 = spiffs_mount config work (some cache) size ∷ allocated cache ∷ l1 in
      let (l3, gone, same) = released l2 l work (some cache) refl in
      (l3, rw (got, more, able.unmounted l2, able.negative, gone))

  format-ok :
      (info : FlashInfo) (super : Superblock) (l : Log)
      → (l1 : Log) × (format env info super l ≡ ok (pos 0, l1))
  format-ok info super l =
      let (l1, run) = mount_fails info super l in
      let formatted = (format-unbuffered env info super l l1 able.negative run).0 in
      let l2 = spiffs_format ∷ l1 in (l2, formatted ∙ ap (λ e. ok (e, l2)) (able.formats l2))

short_superblock : (s : Superblock) → length (to_bytes s) ≡ 28
unfolding to_bytes word_bytes
short_superblock s = refl

module _ (fuel : ℕ) (board : Board) (able : CanFormat board.services) (blank : IsBlank board) where
  format_nor-ok :
      (t : Trace) (l : Log) → (s : FsState) × (format_nor (suc fuel) board w25q64jv (t, l) ≡ ok s)
  unfolding format_nor succeeded
  format_nor-ok t l =
      let super = init_superblock board.crc32 w25q64jv in
      let len = short_superblock super in
      let erased = erase_chip-ok fuel board.bus blank.prompt t in
      let written =
        one_page-ok fuel board.bus blank.prompt (to_bytes super)
          (reads (5 ∷ []) 1 ∷ reads (199 ∷ []) 0 ∷ reads (6 ∷ []) 0 ∷ t) (omega (arith, len))
          (omega (arith, len)) in
      let (l1, formatted) = format-ok board.services able w25q64jv super l in
      let t1 =
        reads (5 ∷ []) 1
        ∷ writes (2 ∷ 0 ∷ 0 ∷ 0 ∷ []) (to_bytes super)
        ∷ reads (6 ∷ []) 0
        ∷ reads (5 ∷ []) 1
        ∷ reads (199 ∷ []) 0
        ∷ reads (6 ∷ []) 0
        ∷ t in
      ((t1, l1), rw (erased, written, formatted))

  blank_read :
      (cmd : List ℕ) (n : ℕ) (t : Trace)
      → exec_cmd_read board.bus cmd n t ≡ (no_error, reads cmd n ∷ t)
  blank_read cmd n t = read-ok board.bus blank.prompt.moves cmd n t

  start-resets :
      (p : ℕ) (t : Trace) (l : Log)
      → (s : FsState) × (u : Trace) × (format_nor (suc fuel) board w25q64jv (u, l) ≡ ok s)
        × (start (suc fuel) board w25q64jv (some p) (t, l) ≡ ok (resets, s))
  unfolding start read succeeded addressed
  start-resets p t l =
      let t1 = reads (3 ∷ 0 ∷ 0 ∷ 0 ∷ []) 28 ∷ t in
      let (s, run) = format_nor-ok t1 l in
      let empty = (is_empty-IsErased (board.bytes_read t1)).1 (blank.content t) in
      (s, t1, run, rw (blank_read (3 ∷ 0 ∷ 0 ∷ 0 ∷ []) 28 t, empty, run))

  -- Init identifies the chip, resets it, formats it and resets the system.
  init-formats :
      (t : Trace) (l : Log)
      → (s : FsState) × (u : Trace) × (m : Log) × (format_nor (suc fuel) board w25q64jv (u, m)
          ≡ ok s)
        × (init (suc fuel) board (t, l) ≡ ok (resets, s))
  unfolding init identify identified start_flash reset exec_cmd succeeded identify_flash
      record_allocated
  init-formats t l =
      let (flash, got_flash) = able.memory l 4 in
      let l1 = allocated flash ∷ l in
      let (p, got) = able.memory l1 28 in
      let t1 = reads (159 ∷ []) 3 ∷ t in
      let t2 = reads (102 ∷ []) 0 ∷ t1 in
      let (s, u, formatted, run) = start-resets p (reads (153 ∷ []) 0 ∷ t2) (allocated p ∷ l1) in
      (
        s,
        u,
        allocated p ∷ l1,
        formatted,
        rw
            (
              blank_read (159 ∷ []) 3 t,
              blank.identity t,
              got_flash,
              blank_read (102 ∷ []) 0 t1,
              blank_read (153 ∷ []) 0 t2,
              got,
            )
            run,
      )

  -- It has programmed the whole superblock by then.
  pub init-resets :
      (t : Trace) (l : Log)
      → (s : FsState) × (init (suc fuel) board (t, l) ≡ ok (resets, s))
        × ((v : Trace) × Programs 0
              (to_bytes (init_superblock board.crc32 w25q64jv))
              v
              (no_error, s.0))
  init-resets t l =
      let (s, u, m, formatted, run) = init-formats t l in
      let finishes = prompt-ChipFinishes fuel board.bus blank.prompt in
      let (v, erased, programs) = format_nor-Programs (suc fuel) board u m s finishes formatted in
      (s, run, (v, programs))
