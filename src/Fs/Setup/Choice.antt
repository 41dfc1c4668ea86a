-- ===== src/Fs/Setup/Choice.antt =====
-- When Init of Sources/Fs/Init.cpp formats the flash, and when it mounts.
use blazenet_device_fw.Prelude.{
  ℕ, ◌≡◌, refl, ◌∙◌, Bool, true, false, not, inl, inr, Option, none, some, List, get_or, ◌==◌,
  ==_iff, if◌then◌else◌, zero, suc, ap, ℤ, pos, negsuc, ◌⊎◌, subst, sym, is_err, Outcome, ok, ◌>>=◌,
  ◌>>◌, require, bind-ok, require-ok,
}
use blazenet_device_fw.Fs.FlashInfo.{FlashInfo, identify_flash}
use blazenet_device_fw.Fs.Flash.{Error, Trace, read, reset, identify}
use blazenet_device_fw.Fs.Superblock.{
  super_size, type_spiffs, of_bytes, is_empty, validate, is_valid,
}
use blazenet_device_fw.Fs.Superblock.Validation.{
  IsErased, is_empty-IsErased, Passes, validate-Passes,
}
use blazenet_device_fw.Fs.NorFs.{Log, mount, free, record_allocated}
use blazenet_device_fw.Fs.Setup.{
  Board, FsState, Started, mounted, resets, succeeded, format_nor, mount_nor, start, start_flash,
  identified, init,
}

-- The superblock passed the checks, its type is known, and SPIFFS was mounted without an error.
pub record Mounts (board : Board) (info : FlashInfo) (bytes : List ℕ) (l : Log) : Type 0 where
  pub passes : Passes board.crc32 bytes
  pub type_known : (of_bytes bytes).fs_type ≡ type_spiffs
  pub mounts : (l1 : Log) × (mount board.services info (of_bytes bytes) l ≡ ok (pos 0, l1))

abbrev pub Chooses : Board → FlashInfo → List ℕ → Log → Started → Type 0
Chooses board info bytes l resets = IsErased bytes
Chooses board info bytes l mounted = Mounts board info bytes l

fine_zero : (err : ℤ) → not (is_err err) ≡ true → err ≡ pos 0
fine_zero (pos zero) h = refl
fine_zero (pos (suc n)) h = absurd (cc h)
fine_zero (negsuc n) h = absurd (cc h)

mount_nor-Mounts :
    (board : Board) (info : FlashInfo) (p : ℕ) (bytes : List ℕ) (t : Trace) (l : Log) (s : FsState)
    → mount_nor board info p bytes (t, l) ≡ ok s
    → Mounts board info bytes l
unfolding mount_nor
mount_nor-Mounts board info p bytes t l s h =
    let (good, rest) = require-ok _ _ _ h in
    let (known, rest) = require-ok _ _ _ rest in
    let ((err, l1), run, rest) = bind-ok _ _ _ rest in
    let (fine, rest) = require-ok _ _ _ rest in
    let returned : mount board.services info (of_bytes bytes) l ≡ ok (err, l1) = run in
    record {
      passes = (validate-Passes board.crc32 bytes).0 good;
      type_known = (==_iff _ _).0 known;
      mounts = (l1, returned ∙ ap (λ e. ok (e, l1)) (fine_zero err fine));
    }

-- A mount tells the flash nothing more.
mount_nor-keeps :
    (board : Board) (info : FlashInfo) (p : ℕ) (bytes : List ℕ) (t : Trace) (l : Log) (s : FsState)
    → mount_nor board info p bytes (t, l) ≡ ok s
    → s.0 ≡ t
unfolding mount_nor
mount_nor-keeps board info p bytes t l s h =
    let last : ℤ × Log → Outcome FsState =
      λ r. require (not (is_err r.0)) >> (free (some p) r.1 >>= λ (l2 : Log). ok (t, l2)) in
    let after : Outcome FsState = mount board.services info (of_bytes bytes) l >>= last in
    let known = (of_bytes bytes).fs_type == type_spiffs in
    let (g, rest1) =
      require-ok (is_valid (validate board.crc32 bytes)) (require known >> after) s h in
    let (k, rest2) = require-ok known after s rest1 in
    let (v, run, rest3) = bind-ok (mount board.services info (of_bytes bytes) l) last s rest2 in
    let (fine, rest4) =
      require-ok (not (is_err v.0)) (free (some p) v.1 >>= λ (l2 : Log). ok (t, l2)) s rest3 in
    let (l2, freed, end) = bind-ok (free (some p) v.1) (λ (l2 : Log). ok (t, l2)) s rest4 in
    let same : (t, l2) ≡ s = cc end in ap (λ (u : FsState). u.0) (sym same)

-- With the file system mounted, the read of the superblock was the last transfer of all.
abbrev pub IsOnlyRead : Board → FlashInfo → Trace → Started → FsState → Type 0
IsOnlyRead board info t resets s = Unit
IsOnlyRead board info t mounted s = s.0 ≡ (read board.bus info 0 super_size t).1

-- The flash was identified, reset and, if its file system is mounted, only read.
abbrev pub IsSpared : Board → Option FlashInfo → Trace → Started → FsState → Type 0
IsSpared board found t e s =
    (info : FlashInfo) × (found ≡ some info)
    × ((r : Error × Trace) × (reset board.bus info t ≡ ok r) × IsOnlyRead board info r.1 e s)

abbrev ends : Started → FsState → Outcome (Started × FsState)
ends e s = ok (e, s)

branch :
    (empty : Bool) (m n : Outcome FsState) (e : Started) (s : FsState)
    → (if empty then m >>= ends resets else n >>= ends mounted) ≡ ok (e, s)
    → ((empty ≡ true) × (e ≡ resets)) ⊎ ((n ≡ ok s) × (e ≡ mounted))
branch true m n e s h = let (u, run, same) = bind-ok m (ends resets) (e, s) h in inl (refl, cc same)
branch false m n e s h =
    let (u, run, same) = bind-ok n (ends mounted) (e, s) h in
    let state : u ≡ s = cc same in inr (run ∙ ap ok state, cc same)

start-Chooses :
    (fuel : ℕ) (board : Board) (info : FlashInfo) (memory : Option ℕ) (t : Trace) (l : Log)
    (e : Started) (s : FsState)
    → start fuel board info memory (t, l) ≡ ok (e, s)
    → Chooses board info (board.bytes_read ((read board.bus info 0 super_size t).1)) l e
      × IsOnlyRead board info t e s
unfolding start
start-Chooses fuel board info none t l e s h = absurd (cc h)
start-Chooses fuel board info (some p) t l e s h =
    let (err, t1) = read board.bus info 0 super_size t in
    let bytes = board.bytes_read t1 in
    let (fine, rest) = require-ok _ _ _ h in
    elim (branch (is_empty bytes) (format_nor fuel board info (t1, l))
      (mount_nor board info p bytes (t1, l)) e s rest) [
        | inl (empty, same) ↦ (
          subst (Chooses board info bytes l) (sym same) ((is_empty-IsErased bytes).0 empty),
          subst (λ (d : Started). IsOnlyRead board info t d s) (sym same) tt,
        )
        | inr (run, same) ↦ (
          subst (Chooses board info bytes l) (sym same)
              (mount_nor-Mounts board info p bytes t1 l s run),
          subst (λ (d : Started). IsOnlyRead board info t d s) (sym same)
              (mount_nor-keeps board info p bytes t1 l s run),
        )
      ]

-- The chip that the identification names.
abbrev pub chip : Board → Trace → Option FlashInfo
chip board t =
    let id = board.bytes_read ((identify board.bus t).1) in
    identify_flash (get_or id 0 0) (get_or id 1 0) (get_or id 2 0)

-- Init has read the first bytes of a known chip, and has chosen by them.
abbrev pub HasChosen : Board → Option FlashInfo → Started → Type 0
HasChosen board found e =
    (info : FlashInfo) × (found ≡ some info)
    × ((u : Trace) × (l : Log) × Chooses board info
          (board.bytes_read ((read board.bus info 0 super_size u).1)) l e)

start_flash-HasChosen :
    (fuel : ℕ) (board : Board) (info : FlashInfo) (flash : Option ℕ) (t : Trace) (l : Log)
    (e : Started) (s : FsState)
    → start_flash fuel board info flash (t, l) ≡ ok (e, s)
    → ((u : Trace) × (l1 : Log) × Chooses board info
          (board.bytes_read ((read board.bus info 0 super_size u).1))
          l1
          e)
      × ((r : Error × Trace) × (reset board.bus info t ≡ ok r) × IsOnlyRead board info r.1 e s)
unfolding start_flash
start_flash-HasChosen fuel board info none t l e s h = absurd (cc h)
start_flash-HasChosen fuel board info (some flash) t l e s h =
    let memory = board.services.malloc l super_size in
    let l1 = record_allocated memory l in
    let (r, run, rest) =
      bind-ok (reset board.bus info t)
        (λ (r : Error × Trace). require (succeeded r.0) >> start fuel board info memory (r.1, l1))
        (e, s) h in
    let (fine, rest) = require-ok _ _ _ rest in
    let (chooses, spared) = start-Chooses fuel board info memory (r.1) l1 e s rest in
    ((r.1, l1, chooses), (r, run, spared))

identified-HasChosen :
    (fuel : ℕ) (board : Board) (found : Option FlashInfo) (t : Trace) (l : Log) (e : Started)
    (s : FsState)
    → identified fuel board found (t, l) ≡ ok (e, s)
    → HasChosen board found e × IsSpared board found t e s
unfolding identified
identified-HasChosen fuel board none t l e s h = absurd (cc h)
identified-HasChosen fuel board (some info) t l e s h =
    let (chosen, spared) = start_flash-HasChosen fuel board info _ t _ e s h in
    ((info, refl, chosen), (info, refl, spared))

pub init-HasChosen :
    (fuel : ℕ) (board : Board) (t : Trace) (l : Log) (e : Started) (s : FsState)
    → init fuel board (t, l) ≡ ok (e, s)
    → HasChosen board (chip board t) e
      × IsSpared board (chip board t) ((identify board.bus t).1) e s
unfolding init
init-HasChosen fuel board t l e s h =
    let (fine, rest) = require-ok _ _ _ h in
    identified-HasChosen fuel board (chip board t) _ l e s rest
