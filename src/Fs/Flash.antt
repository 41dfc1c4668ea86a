-- ===== src/Fs/Flash.antt =====
-- Sources/Fs/Flash.h and Flash.cpp: the driver of the flash chip.
--
-- The state is the list of the transfers on the SPI bus, newest first. What the bus, the chip and
-- the RTOS answer is given by a `Bus`: functions of the transfers made so far. The chip select is
-- not modelled, as it frames each transfer. The sizes of a page, a sector and a block are powers of
-- two, so the source's `x & (size - 1)` is `x % size`. The polling loop has no bound in the source and runs
-- on fuel here; `Outcome.fault` says that the fuel ran out.
pub mod Polling
pub mod Prompt
pub mod Write
pub mod Erase
use blazenet_device_fw.Prelude.{
  ℕ, zero, suc, ◌+◌, ◌-◌, ◌/◌, ◌%◌, min, bit_and, Bool, true, false, not, ◌||◌, List, [], ◌∷◌,
  length, take, drop, ltb, ◌==◌, if◌then◌else◌, u32, Outcome, ok, ◌>>=◌,
}
use blazenet_device_fw.Fs.FlashInfo.{
  FlashInfo, page_size_bytes, sector_size_bytes, block_size_bytes,
}

pub data Error : Type 0 where
  no_error unaligned_size timeout io_command io_payload : Error
  unaligned_address page_write_too_big invalid_arguments : Error

-- A command with the payload written after it, or with the number of bytes read after it.
pub data Transfer : Type 0 where
  writes : List ℕ → List ℕ → Transfer
  reads : List ℕ → ℕ → Transfer

abbrev pub Trace : Type 0
Trace = List Transfer

pub record Bus : Type 0 where
  -- whether SPIDRV sent the command and moved the payload of the newest transfer
  pub command_sent : Trace → Bool
  pub payload_moved : Trace → Bool
  -- the byte that the newest transfer read
  pub byte_read : Trace → ℕ
  -- the ticks since start-up, of which xTaskGetTickCount returns 32 bits, and pdMS_TO_TICKS
  pub ticks : Trace → ℕ
  pub ms_to_ticks : ℕ → ℕ

-- What a transfer reports; a payload of no bytes is not moved.
unfoldable pub transfer_error : Bus → ℕ → Trace → Error
transfer_error bus payload_size tr =
    if not (bus.command_sent tr)
    then io_command
    else if payload_size == 0 || bus.payload_moved tr
    then no_error
    else io_payload

unfoldable pub exec_cmd_read : Bus → List ℕ → ℕ → Trace → Error × Trace
exec_cmd_read bus cmd n tr = (transfer_error bus n (reads cmd n ∷ tr), reads cmd n ∷ tr)

unfoldable pub exec_cmd_write : Bus → List ℕ → List ℕ → Trace → Error × Trace
exec_cmd_write bus cmd payload tr =
    (transfer_error bus (length payload) (writes cmd payload ∷ tr), writes cmd payload ∷ tr)

unfoldable pub exec_cmd : Bus → List ℕ → Trace → Error × Trace
exec_cmd bus cmd tr = exec_cmd_read bus cmd 0 tr

-- `if(err) { return err; }`
abbrev pub and_then : Error × Trace → (Trace → Outcome (Error × Trace)) → Outcome (Error × Trace)
and_then (no_error, tr) k = k tr
and_then (err, tr) k = ok (err, tr)

-- The JEDEC identification, command 9Fh.
unfoldable pub identify : Bus → Trace → Error × Trace
identify bus tr = exec_cmd_read bus (159 ∷ []) 3 tr

-- A command byte and the three bytes of an address.
unfoldable pub addressed : ℕ → ℕ → List ℕ
addressed cmd address = cmd ∷ address / 65536 % 256 ∷ address / 256 % 256 ∷ address % 256 ∷ []

unfoldable pub read : Bus → FlashInfo → ℕ → ℕ → Trace → Error × Trace
read bus info address size tr =
    if size == 0
    then (invalid_arguments, tr)
    else exec_cmd_read bus (addressed info.cmd_read address) size tr

unfoldable pub write_enable : Bus → FlashInfo → Trace → Error × Trace
write_enable bus info tr =
    if info.cmd_write_enable == 0
    then (no_error, tr)
    else exec_cmd bus (info.cmd_write_enable ∷ []) tr

-- One round of the polling loop: what it returns, if it does.
unfoldable pub poll :
    Bus → FlashInfo → ℕ → Outcome (Error × Trace) → Error × Trace → Outcome (Error × Trace)
poll bus info expires again (no_error, tr) =
    if bit_and (bus.byte_read tr) info.status_busy_bit == 0
    then ok (no_error, tr)
    else if ltb expires (u32 (bus.ticks tr))
    then ok (timeout, tr)
    else again
poll bus info expires again (err, tr) = ok (err, tr)

unfoldable pub poll_loop : ℕ → Bus → FlashInfo → ℕ → Trace → Outcome (Error × Trace)
poll_loop zero bus info expires tr = Outcome.fault
poll_loop (suc fuel) bus info expires tr =
    let cmd = info.cmd_read_status ∷ [] in
    let again = poll_loop fuel bus info expires (reads cmd 1 ∷ tr) in
    poll bus info expires again (exec_cmd_read bus cmd 1 tr)

unfoldable pub wait_for_completion : ℕ → Bus → FlashInfo → ℕ → Trace → Outcome (Error × Trace)
wait_for_completion fuel bus info timeout_msec tr =
    poll_loop fuel bus info (u32 (bus.ticks tr + bus.ms_to_ticks timeout_msec)) tr

unfoldable pub write_page : ℕ → Bus → FlashInfo → ℕ → List ℕ → Trace → Outcome (Error × Trace)
write_page fuel bus info address payload tr =
    if length payload == 0
    then ok (invalid_arguments, tr)
    else if ltb (page_size_bytes info) (length payload + address % 256)
    then ok (page_write_too_big, tr)
    else and_then (write_enable bus info tr) λ tr1.
      and_then (exec_cmd_write bus (addressed info.cmd_program_page address) payload tr1)
        λ tr2. wait_for_completion fuel bus info info.timeout_page_program tr2

-- The loop of `write`: `start` is address + offset, and `rest` the bytes from the offset on.
unfoldable pub write_loop : ℕ → ℕ → Bus → FlashInfo → ℕ → List ℕ → Trace → Outcome (Error × Trace)
write_loop zero fuel bus info start rest tr = Outcome.fault
write_loop (suc rounds) fuel bus info start rest tr =
    let page_size = page_size_bytes info in
    let num_bytes = min (page_size - start % page_size) (length rest) in
    let again = write_loop rounds fuel bus info (u32 (start + num_bytes)) (drop num_bytes rest) in
    if length rest == 0
    then ok (no_error, tr)
    else do r ← write_page fuel bus info start (take num_bytes rest) tr; and_then r again

-- A round for each byte is enough.
unfoldable pub write : ℕ → Bus → FlashInfo → ℕ → List ℕ → Trace → Outcome (Error × Trace)
write fuel bus info address payload tr =
    if length payload == 0
    then ok (invalid_arguments, tr)
    else write_loop (length payload + 1) fuel bus info address payload tr

unfoldable pub erase_with_address :
    ℕ → Bus → FlashInfo → ℕ → ℕ → ℕ → Trace → Outcome (Error × Trace)
erase_with_address fuel bus info cmd address timeout_msec tr =
    and_then (write_enable bus info tr) λ tr1.
      and_then (exec_cmd bus (addressed cmd address) tr1)
        λ tr2. wait_for_completion fuel bus info timeout_msec tr2

unfoldable pub erase_sector : ℕ → Bus → FlashInfo → ℕ → Trace → Outcome (Error × Trace)
erase_sector fuel bus info address tr =
    if address % sector_size_bytes info == 0
    then erase_with_address fuel bus info info.cmd_erase_sector address info.timeout_sector_erase tr
    else ok (unaligned_address, tr)

unfoldable pub erase_block : ℕ → Bus → FlashInfo → ℕ → Trace → Outcome (Error × Trace)
erase_block fuel bus info address tr =
    if address % block_size_bytes info == 0
    then erase_with_address fuel bus info info.cmd_erase_block address info.timeout_block_erase tr
    else ok (unaligned_address, tr)

-- The loop of `erase`: `total` is totalBytes; a block is erased where it is aligned and fits.
unfoldable pub erase_loop : ℕ → ℕ → Bus → FlashInfo → ℕ → ℕ → Trace → Outcome (Error × Trace)
erase_loop zero fuel bus info start total tr = Outcome.fault
erase_loop (suc rounds) fuel bus info start total tr =
    let sector_size = sector_size_bytes info in
    let block_size = block_size_bytes info in
    let by_sector = not (start % block_size == 0) || ltb total block_size in
    let size = if by_sector then sector_size else block_size in
    let again = erase_loop rounds fuel bus info (u32 (start + size)) (total - size) in
    if total == 0 then ok (no_error, tr) else do
      r ←
          if by_sector
          then erase_sector fuel bus info start tr
          else erase_block fuel bus info start tr
      and_then r again

unfoldable pub erase : ℕ → Bus → FlashInfo → ℕ → ℕ → Trace → Outcome (Error × Trace)
erase fuel bus info address size tr =
    if not (address % sector_size_bytes info == 0)
    then ok (unaligned_address, tr)
    else if not (size % sector_size_bytes info == 0)
    then ok (unaligned_size, tr)
    else erase_loop (size + 1) fuel bus info address size tr

unfoldable pub erase_chip : ℕ → Bus → FlashInfo → Trace → Outcome (Error × Trace)
erase_chip fuel bus info tr = and_then (write_enable bus info tr) λ tr1.
    and_then (exec_cmd bus (info.cmd_erase_chip ∷ []) tr1)
      λ tr2. wait_for_completion fuel bus info info.timeout_chip_erase tr2

unfoldable pub reset : Bus → FlashInfo → Trace → Outcome (Error × Trace)
reset bus info tr =
    let (err, tr1) =
      if info.cmd_reset_enable == 0
      then (no_error, tr)
      else exec_cmd bus (info.cmd_reset_enable ∷ []) tr in
    and_then (err, tr1) λ tr2. ok (exec_cmd bus (info.cmd_reset ∷ []) tr2)
