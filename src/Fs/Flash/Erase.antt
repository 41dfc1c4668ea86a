-- ===== src/Fs/Flash/Erase.antt =====
-- Flash::erase of Sources/Fs/Flash.cpp on the W25Q64JV, the one chip that the firmware knows.
use blazenet_device_fw.Prelude.{ℕ, ◌+◌, ◌-◌, ◌%◌, ◌≤◌, ◌≡◌, ◌⊎◌, List, [], ◌∷◌, ◌++◌}
use blazenet_device_fw.Fs.FlashInfo.{w25q64jv}
use blazenet_device_fw.Fs.Flash.{Error, no_error, Trace}
use blazenet_device_fw.Fs.Flash.Polling.{Op, programs, erases, ops}

-- A command erases one sector or one block, as its byte says.
abbrev pub IsArea : ℕ → ℕ → Type 0
IsArea c size =
    ((c ≡ w25q64jv.cmd_erase_sector) × (size ≡ 4096))
    ⊎ ((c ≡ w25q64jv.cmd_erase_block) × (size ≡ 65536))

-- The erase commands cover the front of the area of `total` bytes from the address `a` on, with no
-- gap and no overlap, each aligned to its own size, and leave `rest` bytes.
abbrev pub Covers : ℕ → ℕ → List Op → ℕ → Type 0
Covers a total [] rest = total ≡ rest
Covers a total (programs c b chunk ∷ os) rest = ⊥
Covers a total (erases c b ∷ os) rest =
    (size : ℕ) × IsArea c size
    × (b ≡ a % 16777216)
    × (a % 4096 ≡ 0)
    × (size ≡ 65536 → a % 65536 ≡ 0)
    × (size ≤ total)
    × Covers (a + size) (total - size) os rest

-- What `erase` returns, and what it has told the chip to do.
pub record Erases (a total : ℕ) (tr : Trace) (r : Error × Trace) : Type 0 where
  pub done : List Op
  pub rest : ℕ
  pub logged : ops r.1 ≡ ops tr ++ done
  pub covered : Covers a total done rest
  pub complete : r.0 ≡ no_error → rest ≡ 0

-- One area of the loop: the command, its size, and why it fits.
record Area (a total c size : ℕ) : Type 0 where
  is_area : IsArea c size
  aligned : a % 4096 ≡ 0
  block_aligned : size ≡ 65536 → a % 65536 ≡ 0
  fits : size ≤ total
