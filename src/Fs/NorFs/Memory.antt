-- ===== src/Fs/NorFs/Memory.antt =====
-- The memory that Mount of Sources/Fs/NorFs.cpp holds and gives back.
use blazenet_device_fw.Prelude.{
  ℕ, ◌≡◌, refl, ap, ◌∙◌, ◌⊎◌, inl, inr, Bool-cases, true, false, Option, none, some, List, ◌∷◌, ltb,
  ◌==◌, ==_iff, ℤ, pos, negsuc, is_err, Outcome, ok, panic,
}
use blazenet_device_fw.Fs.FlashInfo.{FlashInfo}
use blazenet_device_fw.Fs.Superblock.{Superblock}
use blazenet_device_fw.Fs.NorFs.{
  Config, Call, allocated, spiffs_format, spiffs_info, spiffs_check, Log, Services, remove, live,
  is_live, record_allocated, free, same_error, init_fs_config, check_spiffs_consistency,
  release_buffers, finish_mount, mount_with_cache, mount_with_work, mount, format_unmounted, format,
}

-- The two buffers, newest first.
abbrev pub buffers : ℕ → Option ℕ → List ℕ → List ℕ
buffers work none blocks = work ∷ blocks
buffers work (some cache) blocks = cache ∷ work ∷ blocks

-- Mount gives the memory back on an error and holds both buffers otherwise; it frees nothing
-- that is not allocated, and panics only if SPIFFS_info fails.
abbrev pub MountEnds : Services → Log → Outcome (ℤ × Log) → Type 0
MountEnds env l (ok (err, l1)) =
    ((is_err err ≡ true) × (live l1 ≡ live l))
    ⊎ ((is_err err ≡ false)
        × ((work : ℕ) × (cache : Option ℕ) × (live l1 ≡ buffers work cache (live l))))
MountEnds env l panic = (l1 : Log) × (is_err (env.info_result l1) ≡ true)
MountEnds env l Outcome.fault = ⊥

same_self : (p : ℕ) → (p == p) ≡ true
same_self p = (==_iff p p).1 refl

checked :
    (env : Services) (l : Log)
    → ((l1 : Log) × (check_spiffs_consistency env l ≡ ok l1) × (live l1 ≡ live l))
      ⊎ ((check_spiffs_consistency env l ≡ panic)
          × (is_err (env.info_result (spiffs_info ∷ l)) ≡ true))
unfolding check_spiffs_consistency live
checked env l =
    let l1 = spiffs_info ∷ l in
    elim (Bool-cases (is_err (env.info_result l1))) [
      | inl failed ↦ inr (rw failed, failed)
      | inr fine ↦ elim (Bool-cases (ltb (env.total l1) (env.used l1))) [
        | inl wrong ↦ inl (spiffs_check ∷ l1, rw (fine, wrong), refl)
        | inr right ↦ inl (l1, rw (fine, right), refl)
      ]
    ]

pub live_first : (p : ℕ) (ps : List ℕ) → is_live p (p ∷ ps) ≡ true
unfolding is_live
live_first p ps = rw (same_self p)

remove_first : (p : ℕ) (ps : List ℕ) → remove p (p ∷ ps) ≡ ps
unfolding remove
remove_first p ps = rw (same_self p)

-- The second of two blocks is found, and the first stays, even at the same address.
pub live_second : (p q : ℕ) (ps : List ℕ) → is_live p (q ∷ p ∷ ps) ≡ true
unfolding is_live
live_second p q ps = elim (Bool-cases (p == q)) [
  | inl same ↦ rw same
  | inr other ↦ rw (other, same_self p)
]

remove_second : (p q : ℕ) (ps : List ℕ) → remove p (q ∷ p ∷ ps) ≡ q ∷ ps
unfolding remove
remove_second p q ps = elim (Bool-cases (p == q)) [
  | inl same ↦ rw same (ap (λ x. x ∷ ps) ((==_iff p q).0 same))
  | inr other ↦ rw (other, same_self p)
]

freed : (p : ℕ) (l : Log) → is_live p (live l) ≡ true → free (some p) l ≡ ok (Call.freed p ∷ l)
unfolding free
freed p l h = rw h

freed_null : (l : Log) → free none l ≡ ok l
unfolding free
freed_null l = refl

pub released :
    (l base : Log) (work : ℕ) (cache : Option ℕ)
    → live l ≡ buffers work cache (live base)
    → (l1 : Log) × (release_buffers work cache l ≡ ok l1) × (live l1 ≡ live base)
unfolding release_buffers live
released l base work none h =
    let run = freed work l (rw h (live_first work _)) in
    (
      Call.freed work ∷ l,
      rw (run, freed_null (Call.freed work ∷ l)),
      rw (h, remove_first work (live base)),
    )
released l base work (some cache) h =
    let l1 = Call.freed work ∷ l in
    let left : live l1 ≡ cache ∷ live base = rw (h, remove_second work cache (live base)) in
    (
      Call.freed cache ∷ l1,
      rw (
        freed work l (rw h (live_second work cache _)),
        freed cache l1 (rw left (live_first cache _)),
      ),
      rw (left, remove_first cache (live base)),
    )

finish_mount-Ends :
    (env : Services) (l base : Log) (work : ℕ) (cache : Option ℕ) (err : ℤ)
    → live l ≡ buffers work cache (live base)
    → MountEnds env base (finish_mount env work cache err l)
unfolding finish_mount
finish_mount-Ends env l base work cache err h = elim (Bool-cases (is_err err)) [
  | inl failed ↦
      (let (l1, run, same) = released l base work cache h in rw (failed, run) (inl (failed, same)))
  | inr fine ↦ elim (checked env l) [
    | inl (l1, run, same) ↦
        (let held : (w : ℕ) × (c : Option ℕ) × (live l1 ≡ buffers w c (live base)) =
            (work, cache, same ∙ h) in
          rw (fine, run) (inr (fine, held)))
    | inr (run, failed) ↦ rw (fine, run) (_, failed)
  ]
]

with_cache-Ends :
    (env : Services) (config : Config) (l : Log) (work : ℕ) (cache : Option ℕ)
    → MountEnds env l
        (mount_with_cache env config work cache (record_allocated cache (allocated work ∷ l)))
unfolding mount_with_cache live record_allocated
with_cache-Ends env config l work none = finish_mount-Ends env _ l work none _ refl
with_cache-Ends env config l work (some cache) = finish_mount-Ends env _ l work (some cache) _ refl

with_work-Ends :
    (env : Services) (config : Config) (l : Log) (work : Option ℕ)
    → MountEnds env l (mount_with_work env config work (record_allocated work l))
unfolding mount_with_work record_allocated
with_work-Ends env config l none = inl (refl, refl)
with_work-Ends env config l (some work) = with_cache-Ends env config l work _

-- Mount of any superblock returns, with an error and the same memory allocated as before, or
-- without one and with exactly its work buffer and its cache, if it got one, allocated besides;
-- it panics only if SPIFFS_info fails, and never frees what is not allocated.
pub mount-MountEnds :
    (env : Services) (info : FlashInfo) (super : Superblock) (l : Log)
    → MountEnds env l (mount env info super l)
unfolding mount
mount-MountEnds env info super l = with_work-Ends env (init_fs_config info super) l _

same_error_refl : (e : ℤ) → same_error e e ≡ true
unfolding same_error
same_error_refl (pos n) = same_self n
same_error_refl (negsuc n) = same_self n

-- If mounting reports that there is no file system, Format goes on to SPIFFS_format and returns
-- its result; by then no memory is allocated but what was before Format, so that the buffers
-- given to SPIFFS_mount are freed.
pub format-unbuffered :
    (env : Services) (info : FlashInfo) (super : Superblock) (l l1 : Log)
    → is_err env.err_not_a_fs ≡ true
    → mount env info super l ≡ ok (env.err_not_a_fs, l1)
    → (format env info super l ≡ ok (env.format_result (spiffs_format ∷ l1), spiffs_format ∷ l1))
      × (live l1 ≡ live l)
unfolding format format_unmounted
format-unbuffered env info super l l1 e run = (
  rw (run, e, same_error_refl env.err_not_a_fs),
  elim (rw run at (mount-MountEnds env info super l)) [
    | inl (failed, same) ↦ same
    | inr (fine, held) ↦ absurd (cc (e, fine))
  ],
)
