-- ===== src/Tests/Storage.antt =====
-- The theorems on the flash driver, applied to a chip that is never busy.
use blazenet_device_fw.Prelude.{◌≡◌, refl, true, [], ◌∷◌, length, ok, arith}
use blazenet_device_fw.Fs.FlashInfo.{w25q64jv}
use blazenet_device_fw.Fs.Flash.{Error, Trace, Bus, write}
use blazenet_device_fw.Fs.Flash.Polling.{polled, ChipFinishes}
use blazenet_device_fw.Fs.Flash.Write.{Programs, write-Programs}

-- Every transfer takes a tick, and no command takes longer than a transfer.
abbrev pub bus : Bus
bus = record {
  command_sent = λ tr. true;
  payload_moved = λ tr. true;
  byte_read = λ tr. 0;
  ticks = λ tr. length tr;
  ms_to_ticks = λ ms. ms;
}

pub bus-ChipFinishes : ChipFinishes 2 bus w25q64jv
unfolding polled
bus-ChipFinishes = record { finished = λ tr. (0, omega arith, refl) }

write-Programs_example :
    (r : Error × Trace) × (write 2 bus w25q64jv 255 (1 ∷ 2 ∷ 3 ∷ []) [] ≡ ok r)
    × Programs 255 (1 ∷ 2 ∷ 3 ∷ []) [] r
write-Programs_example =
    write-Programs 2 bus 255 (1 ∷ 2 ∷ 3 ∷ []) [] bus-ChipFinishes (omega arith) (omega arith)
