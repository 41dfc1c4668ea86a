-- ===== src/Fs/Setup/SecondBoot.antt =====
-- The flash that Format of Sources/Fs/Init.cpp has left is the one that Init mounts.
use blazenet_device_fw.Prelude.{
  ℕ, ◌<◌, ◌≡◌, refl, true, Bool-cases, inl, inr, some, pos, List, [], ◌∷◌, ltb, ◌==◌, u32, ok,
  arith, ◌+◌, ◌*◌,
}
use blazenet_device_fw.Fs.FlashInfo.{FlashInfo, w25q64jv, identify_flash, sector_size_bytes}
use blazenet_device_fw.Fs.Flash.{
  no_error, Trace, reads, exec_cmd_read, exec_cmd, addressed, read, reset, identify,
}
use blazenet_device_fw.Fs.Superblock.{
  Superblock, type_spiffs, to_bytes, of_bytes, init_superblock, layout, is_valid, validate,
}
use blazenet_device_fw.Fs.Superblock.Validation.{validate-Passes, written-Passes}
use blazenet_device_fw.Fs.NorFs.{
  Log, Services, record_allocated, live, is_live, free, mount, mount_with_work, mount_with_cache,
  init_fs_config, finish_mount, Config, spiffs_mount, check_spiffs_consistency, spiffs_info,
  spiffs_check, cache_size_of, allocated, freed,
}
use blazenet_device_fw.Fs.NorFs.Memory.{buffers, live_second}
use blazenet_device_fw.Fs.Flash.Prompt.{read-ok}
use blazenet_device_fw.Fs.Setup.{
  Board, FsState, mounted, succeeded, mount_nor, start, start_flash, identified, init,
}

-- The memory suffices, and SPIFFS reports no error.
pub record Serves (env : Services) : Type 0 where
  pub memory : (l : Log) (n : ℕ) → (p : ℕ) × (env.malloc l n ≡ some p)
  pub mounts : (l : Log) → env.mount_result l ≡ pos 0
  pub informs : (l : Log) → env.info_result l ≡ pos 0

-- The driver moves every byte, the chip answers to its identification, and holds at its first
-- address the superblock that formatting has written.
pub record IsFormatted (board : Board) : Type 0 where
  pub sent : (t : Trace) → board.bus.command_sent t ≡ true
  pub moved : (t : Trace) → board.bus.payload_moved t ≡ true
  pub identity : (t : Trace) → board.bytes_read (reads (159 ∷ []) 3 ∷ t) ≡ 239 ∷ 64 ∷ 23 ∷ []
  pub content :
      (t : Trace)
      → board.bytes_read (reads (3 ∷ 0 ∷ 0 ∷ 0 ∷ []) 28 ∷ t)
        ≡ to_bytes (init_superblock board.crc32 w25q64jv)
  pub crc_word : (bytes : List ℕ) → board.crc32 bytes < 4294967296

module _ (env : Services) (serves : Serves env) where
  checked-ok :
      (l : Log) → (l1 : Log) × (check_spiffs_consistency env l ≡ ok l1) × (live l1 ≡ live l)
  unfolding check_spiffs_consistency live
  checked-ok l =
      let l1 = spiffs_info ∷ l in
      elim (Bool-cases (ltb (env.total l1) (env.used l1))) [
        | inl wrong ↦ (spiffs_check ∷ l1, rw (serves.informs l1, wrong), refl)
        | inr right ↦ (l1, rw (serves.informs l1, right), refl)
      ]

  with_cache-ok :
      (config : Config) (work cache : ℕ) (l : Log)
      → (l1 : Log) × (mount_with_cache env config work (some cache) l ≡ ok (pos 0, l1))
        × (live l1 ≡ live l)
  unfolding mount_with_cache cache_size_of finish_mount live
  with_cache-ok config work cache l =
      let size = u32 ((config.log_page_size + 32) * 4) in
      let l1 = spiffs_mount config work (some cache) size ∷ l in
      let (l2, run, same) = checked-ok l1 in (l2, rw (serves.mounts l1, run), same)

  mount-ok :
      (info : FlashInfo) (super : Superblock) (l : Log)
      → (l1 : Log) × (mount env info super l ≡ ok (pos 0, l1))
        × ((work : ℕ) × (cache : ℕ) × (live l1 ≡ buffers work (some cache) (live l)))
  unfolding mount mount_with_work record_allocated live
  mount-ok info super l =
      let config = init_fs_config info super in
      let (work, got) = serves.memory l (u32 (2 * config.log_page_size)) in
      let l1 = allocated work ∷ l in
      let (cache, more) = serves.memory l1 (u32 ((config.log_page_size + 32) * 4)) in
      let (l2, run, same) = with_cache-ok config work cache (allocated cache ∷ l1) in
      (l2, rw (got, more) run, (work, cache, same))

live_third : (p q r : ℕ) (ps : List ℕ) → is_live p (q ∷ r ∷ p ∷ ps) ≡ true
unfolding is_live
live_third p q r ps = elim (Bool-cases (p == q)) [
  | inl same ↦ rw same
  | inr other ↦ rw other (live_second p r ps)
]

small_sector : sector_size_bytes w25q64jv < 4294967296
unfolding sector_size_bytes
small_sector = omega arith

type_written : (crc32 : List ℕ → ℕ) → (init_superblock crc32 w25q64jv).fs_type ≡ type_spiffs
unfolding init_superblock layout
type_written crc32 = refl

module _ (board : Board) (serves : Serves board.services) (formatted : IsFormatted board) where
  mount_nor-ok :
      (p : ℕ) (bytes : List ℕ) (t : Trace) (l : Log)
      → is_valid (validate board.crc32 bytes) ≡ true
      → ((of_bytes bytes).fs_type == type_spiffs) ≡ true
      → (s : FsState) × (mount_nor board w25q64jv p bytes (t, allocated p ∷ l) ≡ ok s)
  unfolding mount_nor free live
  mount_nor-ok p bytes t l good known =
      let (l1, run, (work, cache, held)) =
        mount-ok board.services serves w25q64jv (of_bytes bytes) (allocated p ∷ l) in
      let found : is_live p (live l1) ≡ true = rw held (live_third p cache work (live l)) in
      ((t, freed p ∷ l1), rw (good, known, run, found))

  bus_read-ok :
      (cmd : List ℕ) (n : ℕ) (t : Trace)
      → exec_cmd_read board.bus cmd n t ≡ (no_error, reads cmd n ∷ t)
  bus_read-ok cmd n t =
      read-ok board.bus (record { sent = formatted.sent; moved = formatted.moved }) cmd n t

  start-ok :
      (fuel p : ℕ) (t : Trace) (l : Log)
      → (s : FsState) × (start fuel board w25q64jv (some p) (t, allocated p ∷ l) ≡ ok (mounted, s))
  unfolding start read succeeded addressed
  start-ok fuel p t l =
      let super = init_superblock board.crc32 w25q64jv in
      let (back, full, passes) =
        written-Passes board.crc32 w25q64jv formatted.crc_word small_sector in
      let good : is_valid (validate board.crc32 (to_bytes super)) ≡ true =
        (validate-Passes board.crc32 (to_bytes super)).1 passes in
      let known : ((of_bytes (to_bytes super)).fs_type == type_spiffs) ≡ true =
        rw (back, type_written board.crc32) in
      let t1 = reads (3 ∷ 0 ∷ 0 ∷ 0 ∷ []) 28 ∷ t in
      let (s, run) = mount_nor-ok p (to_bytes super) t1 l good known in
      (s, rw (bus_read-ok (3 ∷ 0 ∷ 0 ∷ 0 ∷ []) 28 t, formatted.content t, full, run))

  pub init-mounted :
      (fuel : ℕ) (t : Trace) (l : Log) → (s : FsState) × (init fuel board (t, l) ≡ ok (mounted, s))
  unfolding init identify identified start_flash reset exec_cmd succeeded identify_flash
      record_allocated
  init-mounted fuel t l =
      let (flash, got_flash) = serves.memory l 4 in
      let (p, got) = serves.memory (allocated flash ∷ l) 28 in
      let t1 = reads (159 ∷ []) 3 ∷ t in
      let t2 = reads (102 ∷ []) 0 ∷ t1 in
      let t3 = reads (153 ∷ []) 0 ∷ t2 in
      let (s, run) = start-ok fuel p t3 (allocated flash ∷ l) in
      (
        s,
        rw
            (
              bus_read-ok (159 ∷ []) 3 t,
              formatted.identity t,
              got_flash,
              bus_read-ok (102 ∷ []) 0 t1,
              bus_read-ok (153 ∷ []) 0 t2,
              got,
            )
            run,
      )
