-- ===== src/HostIf/Handlers/Info.antt =====
-- What the host learns of the device's identity: Sources/Hw/Identity.cpp and
-- Sources/HostIf/Handlers/GetInfo.h.
use blazenet_device_fw.Prelude.{
  ℕ, zero, suc, ◌+◌, ◌*◌, ◌<◌, ◌≤◌, ◌≡◌, refl, ap, ◌∙◌, List, [], ◌∷◌, ◌++◌, length, length-append,
  append_assoc, take, drop, min, pos, ok, arith,
}
use blazenet_device_fw.HostIf.Handlers.{copy_to, padded, info_bytes, get_info_read}
use blazenet_device_fw.Hw.Identity.{Encoders, Identity, bswap32, memory32, read_eui64, init}
use blazenet_device_fw.System.{System, Env}

-- The number that bytes stand for, highest byte first.
abbrev pub of_big_endian : ℕ → List ℕ → ℕ
of_big_endian acc [] = acc
of_big_endian acc (b ∷ bs) = of_big_endian (acc * 256 + b) bs

pub read_eui64-number :
    (high low : ℕ)
    → high < 4294967296
    → low < 4294967296
    → of_big_endian 0 (read_eui64 high low) ≡ high * 4294967296 + low
unfolding read_eui64 memory32 bswap32
read_eui64-number high low h l = omega arith

length-padded : (n : ℕ) (xs : List ℕ) → length (padded n xs) ≡ n
unfolding padded
length-padded zero xs = refl
length-padded (suc n) [] = ap suc (length-padded n [])
length-padded (suc n) (x ∷ xs) = ap suc (length-padded n xs)

drop-append : (n : ℕ) (xs ys : List ℕ) → length xs ≡ n → drop n (xs ++ ys) ≡ ys
drop-append zero [] ys h = refl
drop-append zero (x ∷ xs) ys h = absurd (omega arith)
drop-append (suc n) [] ys h = absurd (omega arith)
drop-append (suc n) (x ∷ xs) ys h = drop-append n xs ys (omega arith)

take-append : (n : ℕ) (xs ys : List ℕ) → length xs ≡ n → take n (xs ++ ys) ≡ xs
take-append zero [] ys h = refl
take-append zero (x ∷ xs) ys h = absurd (omega arith)
take-append (suc n) [] ys h = absurd (omega arith)
take-append (suc n) (x ∷ xs) ys h = ap (λ zs. x ∷ zs) (take-append n xs ys (omega arith))

-- What the firmware reports once Identity::Init has run.
abbrev pub with_identity : Identity → Env → Env
with_identity d env = record env { eui64 = d.eui64; serial = d.serial }

-- The reply before the EUI-64.
abbrev before_eui64 : Env → List ℕ
before_eui64 env =
    (1 ∷ 1 ∷ 0 ∷ 1 ∷ []) ++ (padded 8 env.git_hash ++ ((1 ∷ 1 ∷ []) ++ padded 16 env.serial))

length-before : (env : Env) → length (before_eui64 env) ≡ 30
length-before env = omega (
  arith,
  length-append (padded 8 env.git_hash) ((1 ∷ 1 ∷ []) ++ padded 16 env.serial),
  length-padded 8 env.git_hash,
  length-padded 16 env.serial,
)

info_bytes-split :
    (env : Env) (rest : List ℕ)
    → info_bytes env ++ rest ≡ before_eui64 env ++ (padded 8 env.eui64 ++ 140 ∷ rest)
unfolding info_bytes
info_bytes-split env rest = simp append_assoc

padded-eui64 : (high low : ℕ) → padded 8 (read_eui64 high low) ≡ read_eui64 high low
unfolding padded read_eui64 memory32
padded-eui64 high low = refl

length-eui64 : (high low : ℕ) → length (read_eui64 high low) ≡ 8
unfolding read_eui64 memory32
length-eui64 high low = refl

-- After Identity::Init, a read of 39 bytes or more by GetInfo changes no state and returns 39
-- bytes. Bytes 30 to 37 of them, highest first, are the EUI-64 of the chip's registers.
pub get_info_read-init :
    (enc : Encoders) (env : Env) (high low requested : ℕ) (buffer : List ℕ) (s : System)
    → high < 4294967296
    → low < 4294967296
    → 39 ≤ requested
    → (reply : List ℕ) × (get_info_read (with_identity (init enc high low) env) requested buffer s
        ≡ ok (pos 39, reply, s))
      × (of_big_endian 0 (take 8 (drop 30 reply)) ≡ high * 4294967296 + low)
unfolding get_info_read copy_to init
get_info_read-init enc env high low requested buffer s h l enough =
    let env1 = with_identity (init enc high low) env in
    let info = info_bytes env1 in
    let rest = drop (length info) buffer in
    let split : info ++ rest ≡ before_eui64 env1 ++ (read_eui64 high low ++ 140 ∷ rest) =
      info_bytes-split env1 rest
      ∙ ap (λ xs. before_eui64 env1 ++ (xs ++ 140 ∷ rest)) (padded-eui64 high low) in
    let address : take 8 (drop 30 (info ++ rest)) ≡ read_eui64 high low =
      ap (λ xs. take 8 (drop 30 xs)) split
      ∙ ap (take 8) (drop-append 30 (before_eui64 env1) _ (length-before env1))
      ∙ take-append 8 (read_eui64 high low) _ (length-eui64 high low) in
    let whole : min requested 39 ≡ 39 = omega arith in
    (
      info ++ rest,
      ap (λ n. ok (pos n, info ++ rest, s)) whole,
      ap (of_big_endian 0) address ∙ read_eui64-number high low h l,
    )
