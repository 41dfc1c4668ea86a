-- ===== src/HostIf/Task.antt =====
-- Sources/HostIf/Task.cpp, with the table of Sources/HostIf/CommandHandlers.cpp: the host interface
-- task. The callback of an SPI transfer and the round of the main loop that it wakes are one step
-- here; the callback has not run before the round that starts its transfer is over, but in Early.
pub mod Rounds
pub mod Dispatch
pub mod Events
pub mod Early
use blazenet_device_fw.Prelude.{
  ℕ, ◌-◌, ◌%◌, min, Bool, true, false, not, ◌&&◌, Option, none, some, List, [], ◌∷◌, ◌++◌, length,
  take, drop, get_elem?, ltb, leb, ◌==◌, if◌then◌else◌, ℤ, pos, negsuc, is_err, Outcome, ok, panic,
  fault, ◌>>=◌, ◌>>◌, require, deref,
}
use blazenet_device_fw.HostIf.Handlers.{
  ReadResult, copy_to, irq_config_read, irq_config_write, irq_status_read, irq_status_write,
  get_status_read, queue_status_read, read_packet_read, read_packet_post, transmit_packet_write,
  beacon_config_write, radio_config_write, get_info_read, get_counters_read,
}
use blazenet_device_fw.HostIf.Interrupt.{command_error_irq}
use blazenet_device_fw.HostIf.Irq
use blazenet_device_fw.HostIf.Watchdog.{kick}
use blazenet_device_fw.System.{System, Env, on_irq}

-- CommandId
pub data Command : Type 0 where
  no_op get_info radio_config get_status irq_config get_packet_queue_status : Command
  read_packet transmit_packet beacon_config get_counters irq_status : Command

abbrev pub num_commands : ℕ
num_commands = 11

-- gHandlers, by index.
abbrev pub handlers : List Command
handlers =
    no_op ∷ get_info ∷ radio_config ∷ get_status ∷ irq_config ∷ get_packet_queue_status
    ∷ read_packet ∷ transmit_packet ∷ beacon_config ∷ get_counters ∷ irq_status ∷ []

pub record HandlerFlags : Type 0 where
  pub supports_read : Bool
  pub wants_post_read : Bool
  pub supports_write : Bool

abbrev read_only : HandlerFlags
read_only = record { supports_read = true; wants_post_read = false; supports_write = false }

abbrev write_only : HandlerFlags
write_only = record { supports_read = false; wants_post_read = false; supports_write = true }

abbrev read_write : HandlerFlags
read_write = record { supports_read = true; wants_post_read = false; supports_write = true }

unfoldable pub flags : Command → HandlerFlags
flags no_op = write_only
flags get_info = read_only
flags radio_config = write_only
flags get_status = read_only
flags irq_config = read_write
flags get_packet_queue_status = read_only
flags read_packet = record { supports_read = true; wants_post_read = true; supports_write = false }
flags transmit_packet = write_only
flags beacon_config = write_only
flags get_counters = read_only
flags irq_status = read_write

-- The handlers' callbacks; a call of a null pointer is a fault.
unfoldable pub read_of : Env → Command → ℕ → List ℕ → System → ReadResult
read_of env get_info n buffer s = get_info_read env n buffer s
read_of env get_status n buffer s = get_status_read env n buffer s
read_of env irq_config n buffer s = irq_config_read n buffer s
read_of env get_packet_queue_status n buffer s = queue_status_read n buffer s
read_of env read_packet n buffer s = read_packet_read n buffer s
read_of env get_counters n buffer s = get_counters_read env n buffer s
read_of env irq_status n buffer s = irq_status_read n buffer s
read_of env c n buffer s = fault

unfoldable pub write_of : Env → Command → List ℕ → System → Outcome (ℤ × System)
write_of env no_op payload s = ok (pos 0, s)
write_of env radio_config payload s = ok (radio_config_write env payload s)
write_of env irq_config payload s = ok (irq_config_write payload s)
write_of env transmit_packet payload s = transmit_packet_write env payload s
write_of env beacon_config payload s = beacon_config_write env payload s
write_of env irq_status payload s = ok (irq_status_write payload s)
write_of env c payload s = fault

unfoldable pub post_of : Env → Command → Bool → System → Outcome System
post_of env read_packet success s = read_packet_post env success s
post_of env c success s = fault

-- The transfer that is set up on the SPI slave interface.
pub data Armed : Type 0 where
  idle header : Armed
  payload_of : ℕ → Armed
  response : List ℕ → Armed

pub record HostTask : Type 0 where
  pub sys : System
  pub armed : Armed
  pub command_valid : Bool
  pub command : ℕ
  pub payload_length : ℕ
  pub handler : Option Command
  pub payload_received : ℕ
  pub buffer : List ℕ

abbrev pub max_payload_size : ℕ
max_payload_size = 256

-- SPIDRV refuses a transfer while another is set up.
unfoldable pub arm : Armed → HostTask → Outcome HostTask
arm new t = elim t.armed [
  | idle ↦ ok (record t { armed = new })
  | header ↦ panic
  | payload_of n ↦ panic
  | response bytes ↦ panic
]

unfoldable pub read_command : HostTask → Outcome HostTask
read_command t = arm header (record t { command_valid = false; handler = none })

unfoldable pub read_payload : ℕ → HostTask → Outcome HostTask
read_payload num_bytes t =
    arm (payload_of (min num_bytes max_payload_size)) (record t { payload_received = 0 })

-- What a write callback returned.
unfoldable pub note_write : ℤ × System → System
note_write (err, s) =
    let s1 = record s { error_flag = is_err err } in
    if is_err err then on_irq (Irq.assert command_error_irq) s1 else s1

unfoldable pub dispatch_command : Env → Command → List ℕ → HostTask → Outcome HostTask
dispatch_command env c payload t =
    if (flags c).supports_write
    then (do r ← write_of env c payload t.sys; ok (record t { sys = note_write r }))
    else ok t

unfoldable pub dispatch_post_read : Env → Command → Bool → HostTask → Outcome HostTask
dispatch_post_read env c success t =
    if (flags c).wants_post_read
    then (do s ← post_of env c success t.sys; ok (record t { sys = s }))
    else ok t

-- What a read callback returned; a failed read sets up no transfer.
unfoldable pub respond : Env → Command → HostTask → ℤ × List ℕ × System → Outcome HostTask
respond env c t (negsuc n, buffer, s) =
    let s1 = on_irq (Irq.assert command_error_irq) (record s { error_flag = true }) in
    dispatch_post_read env c false (record t { sys = s1; buffer = buffer })
respond env c t (pos n, buffer, s) = do
  require (ltb n max_payload_size)
  arm (response (take n buffer))
      (record t { sys = record s { error_flag = false }; buffer = buffer })

unfoldable pub dispatch_with_response : Env → Command → ℕ → HostTask → Outcome HostTask
dispatch_with_response env c n t =
    if (flags c).supports_read
    then (do r ← read_of env c n t.buffer t.sys; respond env c t r)
    else ok t

-- The number of the command, without the bit for a read.
abbrev pub number : ℕ → ℕ
number command = command % 128

abbrev pub uninterrupted : HostTask → HostTask
uninterrupted t = t

-- The command has a handler. `isr` is what an interrupt does between the set-up of a payload's
-- transfer and the statement after it.
unfoldable pub process_handled : (HostTask → HostTask) → Env → Command → HostTask → Outcome HostTask
process_handled isr env c t =
    if t.payload_length == 0
    then (do u ← dispatch_command env c [] t; read_command u)
    else if leb 128 t.command
    then dispatch_with_response env c t.payload_length t
    else (do u ← read_payload t.payload_length t; ok (record (isr u) { payload_received = 0 }))

unfoldable pub process_command : Env → HostTask → Outcome HostTask
process_command env t = if ltb num_commands (number t.command) then read_command t else do
  c ← deref (get_elem? handlers (number t.command))
  process_handled uninterrupted env c (record t { handler = some c })

abbrev kick_task : HostTask → HostTask
kick_task t = record t { sys = kick t.sys }

-- The transfer of a command header is over: whether it was received whole, and its two bytes.
unfoldable pub header_done : Env → Bool → ℕ → ℕ → HostTask → Outcome HostTask
header_done env valid command size t = do
  let t1 = record t {
    armed = idle;
    command_valid = valid;
    command = command;
    payload_length = size;
  }
  u ← if valid then process_command env t1 else read_command t1
  ok (kick_task u)

-- The transfer of a payload is over. A transfer that failed has received no bytes, and the main loop
-- is left for good then, which is the result `none`.
unfoldable pub payload_done : Env → List ℕ → HostTask → Outcome (Option HostTask)
payload_done env bytes t = do
  let t1 = record t {
    armed = idle;
    payload_received = length bytes;
    buffer = copy_to bytes t.buffer;
  }
  if length bytes == 0 then ok none else (do
    c ← deref t1.handler
    u ← dispatch_command env c bytes t1
    v ← read_command u
    ok (some v))

unfoldable pub response_done : Env → HostTask → Outcome HostTask
response_done env t = do
  c ← deref t.handler
  u ← dispatch_post_read env c true (record t { armed = idle })
  read_command u
