-- ===== src/Fs/NorFs.antt =====
-- Sources/Fs/NorFs.h and NorFs.cpp: mounting and formatting SPIFFS in its area of the flash.
--
-- malloc, free and the calls of SPIFFS are entries of a log, newest first; what malloc and SPIFFS
-- answer is given by a `Services`: functions of the log. The transfers that SPIFFS makes on
-- the bus, through the three IO routines, are its own and are not listed.
use blazenet_device_fw.Prelude.{
  ℕ, ◌+◌, ◌*◌, Bool, true, false, not, ◌&&◌, ◌||◌, Option, none, some, List, [], ◌∷◌, ltb, ◌==◌,
  if◌then◌else◌, ℤ, pos, negsuc, is_err, u32, sub32, Outcome, ok, ◌>>=◌, ◌>>◌, require,
}
use blazenet_device_fw.Fs.FlashInfo.{FlashInfo, capacity_bytes, page_size_bytes, block_size_bytes}
use blazenet_device_fw.Fs.Flash.{Error, Trace, Bus, read, write, erase}
use blazenet_device_fw.Fs.Superblock.{Superblock}
pub mod Memory
pub mod Area

-- The fields of spiffs_config that the firmware sets.
pub record Config : Type 0 where
  pub phys_size : ℕ
  pub phys_addr : ℕ
  pub phys_erase_block : ℕ
  pub log_block_size : ℕ
  pub log_page_size : ℕ

pub data Call : Type 0 where
  allocated freed : ℕ → Call
  spiffs_mount : Config → ℕ → Option ℕ → ℕ → Call
  spiffs_format spiffs_info spiffs_check : Call

abbrev pub Log : Type 0
Log = List Call

pub record Services : Type 0 where
  -- malloc, by the number of bytes
  pub malloc : Log → ℕ → Option ℕ
  -- the results of SPIFFS_mount and SPIFFS_format
  pub mount_result : Log → ℤ
  pub format_result : Log → ℤ
  -- the result, the total and the used bytes of SPIFFS_info
  pub info_result : Log → ℤ
  pub total : Log → ℕ
  pub used : Log → ℕ
  -- SPIFFS_ERR_NOT_A_FS
  pub err_not_a_fs : ℤ

unfoldable pub remove : ℕ → List ℕ → List ℕ
remove p [] = []
remove p (q ∷ qs) = if p == q then qs else q ∷ remove p qs

-- The blocks that are allocated.
unfoldable pub live : Log → List ℕ
live [] = []
live (allocated p ∷ l) = p ∷ live l
live (freed p ∷ l) = remove p (live l)
live (spiffs_mount config work cache size ∷ l) = live l
live (spiffs_format ∷ l) = live l
live (spiffs_info ∷ l) = live l
live (spiffs_check ∷ l) = live l

unfoldable pub is_live : ℕ → List ℕ → Bool
is_live p [] = false
is_live p (q ∷ qs) = (p == q) || is_live p qs

unfoldable pub record_allocated : Option ℕ → Log → Log
record_allocated none l = l
record_allocated (some p) l = allocated p ∷ l

-- A null pointer is ignored; any other has to be allocated.
unfoldable pub free : Option ℕ → Log → Outcome Log
free none l = ok l
free (some p) l = if is_live p (live l) then ok (freed p ∷ l) else Outcome.fault

-- NorFs::Error
abbrev pub out_of_memory : ℤ
out_of_memory = negsuc 1099

abbrev pub already_formatted : ℤ
already_formatted = negsuc 1100

unfoldable pub same_error : ℤ → ℤ → Bool
same_error (pos m) (pos n) = m == n
same_error (pos m) (negsuc n) = false
same_error (negsuc m) (pos n) = false
same_error (negsuc m) (negsuc n) = m == n

unfoldable pub init_fs_config : FlashInfo → Superblock → Config
init_fs_config info block = record {
  phys_size = sub32 (capacity_bytes info) block.fs_start;
  phys_addr = block.fs_start;
  phys_erase_block = block_size_bytes info;
  log_block_size = block_size_bytes info;
  log_page_size = page_size_bytes info;
}

unfoldable pub check_spiffs_consistency : Services → Log → Outcome Log
check_spiffs_consistency env l =
    let l1 = spiffs_info ∷ l in
    do
      require (not (is_err (env.info_result l1)))
      if ltb (env.total l1) (env.used l1) then ok (spiffs_check ∷ l1) else ok l1

-- Mount's release of its buffers.
unfoldable pub release_buffers : ℕ → Option ℕ → Log → Outcome Log
release_buffers work cache l = do l1 ← free (some work) l; free cache l1

-- Mount after the call of SPIFFS_mount.
unfoldable pub finish_mount : Services → ℕ → Option ℕ → ℤ → Log → Outcome (ℤ × Log)
finish_mount env work cache err l =
    let finished =
      if is_err err then release_buffers work cache l else check_spiffs_consistency env l in
    finished >>= λ l1. ok (err, l1)

unfoldable pub cache_size_of : Option ℕ → ℕ → ℕ
cache_size_of none size = 0
cache_size_of (some p) size = size

unfoldable pub mount_with_cache : Services → Config → ℕ → Option ℕ → Log → Outcome (ℤ × Log)
mount_with_cache env config work cache l =
    let size = cache_size_of cache (u32 ((config.log_page_size + 32) * 4)) in
    let l1 = spiffs_mount config work cache size ∷ l in
    finish_mount env work cache (env.mount_result l1) l1

-- Mount after the allocation of the work buffer.
unfoldable pub mount_with_work : Services → Config → Option ℕ → Log → Outcome (ℤ × Log)
mount_with_work env config none l = ok (out_of_memory, l)
mount_with_work env config (some work) l =
    let cache = env.malloc l (u32 ((config.log_page_size + 32) * 4)) in
    mount_with_cache env config work cache (record_allocated cache l)

unfoldable pub mount : Services → FlashInfo → Superblock → Log → Outcome (ℤ × Log)
mount env info super l =
    let config = init_fs_config info super in
    let work = env.malloc l (u32 (2 * config.log_page_size)) in
    mount_with_work env config work (record_allocated work l)

-- Format after its attempt to mount.
unfoldable pub format_unmounted : Services → ℤ → Log → Outcome (ℤ × Log)
format_unmounted env err l =
    if is_err err && not (same_error err env.err_not_a_fs)
    then ok (err, l)
    else if not (is_err err)
    then ok (already_formatted, l)
    else ok (env.format_result (spiffs_format ∷ l), spiffs_format ∷ l)

unfoldable pub format : Services → FlashInfo → Superblock → Log → Outcome (ℤ × Log)
format env info super l = do (err, l1) ← mount env info super l; format_unmounted env err l1

-- The IO routines that SPIFFS calls.
unfoldable pub hal_read : Bus → FlashInfo → ℕ → ℕ → Trace → Error × Trace
hal_read bus info addr size t = read bus info addr size t

unfoldable pub hal_write : ℕ → Bus → FlashInfo → ℕ → List ℕ → Trace → Outcome (Error × Trace)
hal_write fuel bus info addr payload t = write fuel bus info addr payload t

unfoldable pub hal_erase : ℕ → Bus → FlashInfo → ℕ → ℕ → Trace → Outcome (Error × Trace)
hal_erase fuel bus info addr size t = erase fuel bus info addr size t
