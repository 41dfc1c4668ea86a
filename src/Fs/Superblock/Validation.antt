-- ===== src/Fs/Superblock/Validation.antt =====
-- The superblock that Sources/Fs/Init.cpp writes, against the validation that it makes when it
-- reads one.
use blazenet_device_fw.Prelude.{
  ℕ, zero, suc, ◌≤◌, ◌<◌, ◌≡◌, refl, ap, Bool, true, false, not, inl, inr, Bool-cases, List, [],
  ◌∷◌, length, get_or, take, ltb, ltb→le, le→ltb, ◌==◌, ==_iff, ◌↔◌, if◌then◌else◌, arith,
}
use blazenet_device_fw.Fs.FlashInfo.{FlashInfo, sector_size_bytes}
use blazenet_device_fw.Fs.Superblock.{
  Superblock, word_bytes, super_magic, super_size, crc_offset, to_bytes, of_bytes, layout,
  init_superblock, is_empty, valid, invalid_size, invalid_magic, invalid_crc, validate, is_valid,
}
use blazenet_device_fw.Fs.Superblock.Layout.{IsStorable, to_bytes-of_bytes}

-- The chain of tests passes exactly if none of them fails.
chain-is_valid :
    (small same_magic same_crc : Bool)
    → (is_valid (
          if small
          then invalid_size
          else if not same_magic
          then invalid_magic
          else if not same_crc
          then invalid_crc
          else valid)
        ≡ true)
      ↔ ((small ≡ false) × (same_magic ≡ true) × (same_crc ≡ true))
unfolding is_valid
chain-is_valid true m c = ((λ h. absurd (cc h)), λ p. absurd (cc (p.0)))
chain-is_valid false false c = ((λ h. absurd (cc h)), λ p. absurd (cc (p.1)))
chain-is_valid false true false = ((λ h. absurd (cc h)), λ p. absurd (cc (p.2)))
chain-is_valid false true true = ((λ h. (refl, refl, refl)), λ p. refl)

-- What the checks of a superblock come to.
pub record Passes (crc32 : List ℕ → ℕ) (bytes : List ℕ) : Type 0 where
  pub size_enough : super_size ≤ (of_bytes bytes).total_length
  pub magic_right : (of_bytes bytes).magic ≡ super_magic
  pub crc_right : (of_bytes bytes).crc ≡ crc32 (take crc_offset bytes)

pub validate-Passes :
    (crc32 : List ℕ → ℕ) (bytes : List ℕ)
    → (is_valid (validate crc32 bytes) ≡ true) ↔ Passes crc32 bytes
unfolding validate
validate-Passes crc32 bytes =
    let s = of_bytes bytes in
    let computed_crc = crc32 (take crc_offset bytes) in
    let (to, from) =
      chain-is_valid (ltb s.total_length super_size) (s.magic == super_magic)
        (s.crc == computed_crc) in
    (
      (λ h.
          let (a, b, c) = to h in
          record {
            size_enough = ltb→le _ _ a;
            magic_right = (==_iff _ _).0 b;
            crc_right = (==_iff _ _).0 c;
          }),
      λ p.
          from (le→ltb _ _ p.size_enough, (==_iff _ _).1 p.magic_right, (==_iff _ _).1 p.crc_right),
    )

-- Every byte is the one that erased flash holds.
abbrev pub IsErased : List ℕ → Type 0
IsErased bytes = (i : ℕ) → i < length bytes → get_or bytes i 0 ≡ 255

empty-IsErased : (bytes : List ℕ) → is_empty bytes ≡ true → IsErased bytes
unfolding is_empty
empty-IsErased [] h i lt = absurd (omega (arith, lt))
empty-IsErased (b ∷ bytes) h zero lt = elim (Bool-cases (b == 255)) [
  | inl same ↦ (==_iff _ _).0 same
  | inr other ↦ absurd (cc (rw other at h))
]
empty-IsErased (b ∷ bytes) h (suc i) lt = elim (Bool-cases (b == 255)) [
  | inl same ↦ empty-IsErased bytes (rw same at h) i (omega (arith, lt))
  | inr other ↦ absurd (cc (rw other at h))
]

IsErased-empty : (bytes : List ℕ) → IsErased bytes → is_empty bytes ≡ true
unfolding is_empty
IsErased-empty [] h = refl
IsErased-empty (b ∷ bytes) h =
    let first : (b == 255) ≡ true = (==_iff _ _).1 (h 0 (omega arith)) in
    rw first (IsErased-empty bytes λ i lt. h (suc i) (omega (arith, lt)))

pub is_empty-IsErased : (bytes : List ℕ) → (is_empty bytes ≡ true) ↔ IsErased bytes
is_empty-IsErased bytes = (empty-IsErased bytes, IsErased-empty bytes)

written-IsStorable :
    (crc32 : List ℕ → ℕ) (info : FlashInfo)
    → ((bytes : List ℕ) → crc32 bytes < 4294967296)
    → sector_size_bytes info < 4294967296
    → IsStorable (init_superblock crc32 info)
unfolding init_superblock layout
written-IsStorable crc32 info crc_word sector = record {
  magic_fits = omega arith;
  version_fits = omega arith;
  total_length_fits = omega arith;
  fs_type_fits = omega arith;
  fs_start_fits = sector;
  fs_end_fits = omega arith;
  crc_fits = crc_word _;
}

pub written-Passes :
    (crc32 : List ℕ → ℕ) (info : FlashInfo)
    → ((bytes : List ℕ) → crc32 bytes < 4294967296)
    → sector_size_bytes info < 4294967296
    → (of_bytes (to_bytes (init_superblock crc32 info)) ≡ init_superblock crc32 info)
      × (is_empty (to_bytes (init_superblock crc32 info)) ≡ false)
      × Passes crc32 (to_bytes (init_superblock crc32 info))
unfolding init_superblock layout to_bytes word_bytes is_empty
written-Passes crc32 info crc_word sector =
    let back = to_bytes-of_bytes _ (written-IsStorable crc32 info crc_word sector) in
    (
      back,
      refl,
      record {
        size_enough = omega (arith, ap (λ (s : Superblock). s.total_length) back);
        magic_right = ap (λ (s : Superblock). s.magic) back;
        crc_right = ap (λ (s : Superblock). s.crc) back;
      },
    )
