-- ===== src/HostIf/Interrupt/Words.antt =====
-- The flag records against the `uintptr_t` words of the source, for every pair of flag sets.
use blazenet_device_fw.Prelude.{
  ℕ, ◌+◌, ◌-◌, ◌*◌, ◌^◌, ◌≡◌, refl, Bool, true, false, ◌&&◌, bit_and, bit_or, ◌==◌, ==_iff,
  if◌then◌else◌, arith,
}
use blazenet_device_fw.HostIf.Interrupt.{Interrupt, inter, union, complement, test_flags}

abbrev bit : Bool → ℕ
bit b = if b then 1 else 0

-- The word of a flag set: bits 0 to 3, as the enumeration numbers them.
pub to_word : Interrupt → ℕ
to_word x =
    bit x.command_error
    + 2 * bit x.packet_received
    + 4 * bit x.packet_transmitted
    + 8 * bit x.tx_queue_empty

abbrev both : (Bool → Bool) → Bool
both p = p false && p true

abbrev flags : Bool → Bool → Bool → Bool → Interrupt
flags a b c d = record {
  command_error = a;
  packet_received = b;
  packet_transmitted = c;
  tx_queue_empty = d;
}

-- A test of every flag set.
every : (Interrupt → Bool) → Bool
every p = both λ a. both λ b. both λ c. both λ d. p (flags a b c d)

both_sound : (p : Bool → Bool) (b : Bool) → both p ≡ true → p b ≡ true
both_sound p true h = ground arith
both_sound p false h = ground arith

every_sound : (p : Interrupt → Bool) (x : Interrupt) → every p ≡ true → p x ≡ true
unfolding every
every_sound p x h =
    let (a, b, c, d) : Bool × Bool × Bool × Bool =
      (x.command_error, x.packet_received, x.packet_transmitted, x.tx_queue_empty) in
    both_sound (λ d'. p (flags a b c d')) d
      (both_sound (λ c'. both λ d'. p (flags a b c' d')) c
        (both_sound (λ b'. both λ c'. both λ d'. p (flags a b' c' d')) b
          (both_sound (λ a'. both λ b'. both λ c'. both λ d'. p (flags a' b' c' d')) a h)))

every_pair : (Interrupt → Interrupt → Bool) → Bool
unfolding every
every_pair p = every λ x. every λ y. p x y

every_pair_sound :
    (p : Interrupt → Interrupt → Bool) (x y : Interrupt) → every_pair p ≡ true → p x y ≡ true
unfolding every_pair
every_pair_sound p x y h = every_sound (p x) y (every_sound (λ z. every (p z)) x h)

inter_table : every_pair (λ x y. to_word (inter x y) == bit_and (to_word x) (to_word y)) ≡ true
unfolding every_pair to_word inter
inter_table = refl

union_table : every_pair (λ x y. to_word (union x y) == bit_or (to_word x) (to_word y)) ≡ true
unfolding every_pair to_word union
union_table = refl

clear_table :
    every_pair
      (λ x y. to_word (inter x (complement y)) == bit_and (to_word x) (2 ^ 32 - 1 - to_word y))
    ≡ true
unfolding every_pair to_word inter complement
clear_table = refl

test_table :
    every (λ x. (if test_flags x then 1 else 0) == (if to_word x == 0 then 0 else 1)) ≡ true
unfolding every to_word test_flags
test_table = refl

-- The operators on flag records are those that ENUM_FLAGS_EX generates on 32-bit words: for all
-- flag sets `x` and `y`, the words of `x & y`, `x | y` and `x & ~y` are the bitwise results.
pub operators_words :
    (x y : Interrupt)
    → (to_word (inter x y) ≡ bit_and (to_word x) (to_word y))
      × (to_word (union x y) ≡ bit_or (to_word x) (to_word y))
      × (to_word (inter x (complement y)) ≡ bit_and (to_word x) (2 ^ 32 - 1 - to_word y))
operators_words x y = (
  (==_iff _ _).0 (every_pair_sound _ x y inter_table),
  (==_iff _ _).0 (every_pair_sound _ x y union_table),
  (==_iff _ _).0 (every_pair_sound _ x y clear_table),
)
