-- ===== src/Startup/FirstRun.antt =====
-- The first start of a board with a blank flash, and the second.
use blazenet_device_fw.Prelude.{ℕ, zero, suc, ◌<◌, ◌≡◌, ap, ◌∙◌, ok, ◌>>=◌, ◌>>◌, require, arith}
use blazenet_device_fw.Crypto.Context
use blazenet_device_fw.Fs.FlashInfo.{w25q64jv}
use blazenet_device_fw.Fs.Flash.{Trace, no_error}
use blazenet_device_fw.Fs.Flash.Write.{Programs}
use blazenet_device_fw.Fs.Setup.{FsState, Started, resets}
use blazenet_device_fw.Fs.Setup
use blazenet_device_fw.Fs.Setup.Blank.{CanFormat, IsBlank, init-resets}
use blazenet_device_fw.Fs.Superblock.{to_bytes, init_superblock}
use blazenet_device_fw.Startup.Returns.{IsEquipped, early_init-Returns, hw_init-Returns}
use blazenet_device_fw.Startup.{
  Machine, Firmware, reset_after, clock_enable, semailbox, power_on, note_call, hw_init, after_fs,
  sw_init, main,
}

-- The flash is blank, and the rest works as far as the first start needs it.
pub record IsNew (fuel : ℕ) (m : Machine) : Type 0 where
  pub equipped : IsEquipped m
  pub able : CanFormat m.board.services
  pub blank : IsBlank m.board

-- The superblock is programmed as a whole.
abbrev pub HasSuperblock : Machine → Firmware → Type 0
HasSuperblock m f =
    (v : Trace) × Programs 0 (to_bytes (init_superblock m.board.crc32 w25q64jv)) v
      (no_error, f.fs.0)

sw_init-resets :
    (fuel : ℕ) (m : Machine) (f : Firmware)
    → IsNew (suc fuel) m
    → (g : Firmware) × (sw_init (suc fuel) m f ≡ ok (reset_after g)) × HasSuperblock m g
unfolding sw_init after_fs Context.init Context.succeeded
sw_init-resets fuel m f new =
    let f1 = note_call (clock_enable semailbox) f in
    let next = (λ (r : Started × FsState). after_fs (suc fuel) m r.0 (record f1 { fs = r.1 })) in
    let (fs, run, programs) = init-resets fuel m.board new.able new.blank f1.fs.0 f1.fs.1 in
    let engine : Context.init m.engine ≡ ok tt =
      ap (λ err. require (Context.succeeded err)) new.equipped.crypto in
    (
      record f1 { fs = fs },
      ap (λ r. r >> (Setup.init (suc fuel) m.board f1.fs >>= next)) engine
          ∙ ap (λ r. r >>= next) run,
      programs,
    )

pub main-resets :
    (fuel : ℕ) (m : Machine)
    → 1 < fuel
    → IsNew fuel m
    → (f : Firmware) × (main fuel m ≡ ok (reset_after f)) × HasSuperblock m f
unfolding main
main-resets zero m enough new = absurd (omega arith)
main-resets (suc fuel) m enough new =
    let (f1, run1) = early_init-Returns m power_on new.equipped in
    let (f2, run2) = hw_init-Returns (suc fuel) m f1 enough new.equipped in
    let (f, run3, programs) = sw_init-resets fuel m f2 new in
    (
      f,
      ap (λ r. r >>= λ (f1 : Firmware). hw_init (suc fuel) m f1 >>= sw_init (suc fuel) m) run1
          ∙ ap (λ r. r >>= sw_init (suc fuel) m) run2
          ∙ run3,
      programs,
    )
