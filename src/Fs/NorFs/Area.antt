-- ===== src/Fs/NorFs/Area.antt =====
-- The area of the flash that the configuration of Sources/Fs/NorFs.cpp gives to SPIFFS, on the
-- W25Q64JV, the one chip that the firmware knows.
use blazenet_device_fw.Prelude.{ℕ, List}
use blazenet_device_fw.Fs.FlashInfo.{w25q64jv}
use blazenet_device_fw.Fs.Superblock.{init_superblock}
use blazenet_device_fw.Fs.NorFs.{Config, init_fs_config}

-- What the firmware configures on a flash that it has formatted.
abbrev pub formatted_config : (List ℕ → ℕ) → Config
formatted_config crc32 = init_fs_config w25q64jv (init_superblock crc32 w25q64jv)
