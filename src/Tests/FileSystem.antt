-- ===== src/Tests/FileSystem.antt =====
-- The theorems on Sources/Fs/Init.cpp and NorFs.cpp, applied to a chip that answers at once.
use blazenet_device_fw.Prelude.{
  ℕ, ◌≡◌, refl, some, List, [], ◌∷◌, length, ◌==◌, if◌then◌else◌, pos, negsuc, u32, ok, arith,
}
use blazenet_device_fw.Fs.FlashInfo.{w25q64jv, page_size_bytes, block_size_bytes}
use blazenet_device_fw.Fs.Flash.{identify, Trace, reads, writes, identify}
use blazenet_device_fw.Fs.Superblock.{Superblock, init_superblock, to_bytes}
use blazenet_device_fw.Fs.NorFs.{
  Config, allocated, freed, spiffs_mount, spiffs_format, spiffs_info, Log, Services,
  record_allocated, cache_size_of, finish_mount, release_buffers, free, live, is_live, remove,
  init_fs_config, mount_with_work, mount_with_cache, mount,
}
use blazenet_device_fw.Fs.NorFs.Memory.{MountEnds, mount-MountEnds}
use blazenet_device_fw.Fs.Setup.{Board, FsState}
use blazenet_device_fw.Fs.Setup.SecondBoot.{Serves, IsFormatted}
use blazenet_device_fw.Tests.Storage.{bus}

abbrev sum32 : List ℕ → ℕ
sum32 bytes = u32 (length bytes)

-- A fresh address for each block; SPIFFS mounts, or finds no file system.
abbrev pub formatted_services : Services
formatted_services = record {
  malloc = λ l n. some (length l);
  mount_result = λ l. pos 0;
  format_result = λ l. pos 0;
  info_result = λ l. pos 0;
  total = λ l. 1000;
  used = λ l. 10;
  err_not_a_fs = negsuc 10024;
}

abbrev pub empty_services : Services
empty_services = record formatted_services { mount_result = λ l. negsuc 10024 }

-- Three bytes are the identification, and any others the superblock.
abbrev answer : List ℕ → Trace → List ℕ
answer bytes [] = []
answer bytes (writes cmd payload ∷ t) = []
answer bytes (reads cmd n ∷ t) = if n == 3 then 239 ∷ 64 ∷ 23 ∷ [] else bytes

abbrev pub erased_bytes : List ℕ
erased_bytes =
    255 ∷ 255 ∷ 255 ∷ 255 ∷ 255 ∷ 255 ∷ 255 ∷ 255 ∷ 255 ∷ 255 ∷ 255 ∷ 255 ∷ 255 ∷ 255 ∷ 255 ∷ 255
    ∷ 255 ∷ 255 ∷ 255 ∷ 255 ∷ 255 ∷ 255 ∷ 255 ∷ 255 ∷ 255 ∷ 255 ∷ 255 ∷ 255 ∷ []

abbrev pub empty_board : Board
empty_board = record {
  bus = bus;
  bytes_read = answer erased_bytes;
  crc32 = sum32;
  services = empty_services;
}

abbrev pub formatted_board : Board
formatted_board = record {
  bus = bus;
  bytes_read = answer (to_bytes (init_superblock sum32 w25q64jv));
  crc32 = sum32;
  services = formatted_services;
}

pub formatted_board-Serves : Serves formatted_services
formatted_board-Serves = record {
  memory = λ l n. (length l, refl);
  mounts = λ l. refl;
  informs = λ l. refl;
}

pub formatted_board-IsFormatted : IsFormatted formatted_board
formatted_board-IsFormatted = record {
  sent = λ t. refl;
  moved = λ t. refl;
  identity = λ t. refl;
  content = λ t. refl;
  crc_word = λ bytes. omega arith;
}

abbrev super : Superblock
super = init_superblock sum32 w25q64jv

abbrev config : Config
config = init_fs_config w25q64jv super

abbrev not_mounted : Log
not_mounted =
    freed 1 ∷ freed 0 ∷ spiffs_mount config 0 (some 1) 1152 ∷ allocated 1 ∷ allocated 0 ∷ []

not_a_fs : mount empty_services w25q64jv super [] ≡ ok (negsuc 10024, not_mounted)
unfolding mount mount_with_work mount_with_cache record_allocated cache_size_of finish_mount
    release_buffers free live is_live remove init_fs_config block_size_bytes page_size_bytes
not_a_fs = refl

mount-MountEnds_example :
    MountEnds formatted_services [] (mount formatted_services w25q64jv super [])
mount-MountEnds_example = mount-MountEnds formatted_services w25q64jv super []

abbrev started_state : FsState
started_state = (
  reads (3 ∷ 0 ∷ 0 ∷ 0 ∷ []) 28 ∷ reads (153 ∷ []) 0 ∷ reads (102 ∷ []) 0 ∷ reads (159 ∷ []) 3 ∷ [],
  freed 1
      ∷ spiffs_info
      ∷ spiffs_mount config 2 (some 3) 1152
      ∷ allocated 3
      ∷ allocated 2
      ∷ allocated 1
      ∷ allocated 0
      ∷ [],
)

abbrev formatted : FsState
formatted = (
  reads (5 ∷ []) 1
      ∷ writes (2 ∷ 0 ∷ 0 ∷ 0 ∷ []) (to_bytes super)
      ∷ reads (6 ∷ []) 0
      ∷ reads (5 ∷ []) 1
      ∷ reads (199 ∷ []) 0
      ∷ reads (6 ∷ []) 0
      ∷ [],
  spiffs_format ∷ not_mounted,
)
