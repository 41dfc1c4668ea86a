-- ===== src/BlazeNet/Beacon.antt =====
-- Sources/BlazeNet/Beacon.cpp: the periodic beacon. The lock around the buffer is not modelled,
-- since each routine is one step here.
pub mod Payload
use blazenet_device_fw.Prelude.{
  ℕ, Bool, true, false, Option, none, some, List, if◌then◌else◌, ℤ, pos, negsuc, Outcome, ok, ◌>>=◌,
  panic,
}
use blazenet_device_fw.Packet.Buffers.{network_control}
use blazenet_device_fw.Packet.Tx.{discard_tx_packet, alloc_tx_packet, queue_sticky_packet}
use blazenet_device_fw.System.{
  System, Env, BeaconState, Effect, beacon_timer_reset, beacon_timer_stop,
  beacon_timer_change_period, emit,
}

unfoldable pub comms_regained : System → System
comms_regained s = if s.beacon.enabled then emit beacon_timer_reset s else s

unfoldable pub comms_lost : System → System
comms_lost s = emit beacon_timer_stop s

-- `isEnabled == gEnabled`
unfoldable pub same_bool : Bool → Bool → Bool
same_bool a b = if a then b else (if b then false else true)

unfoldable pub set_enabled : Bool → System → System
set_enabled is_enabled s =
    let s1 = record s { beacon = record (s.beacon) { enabled = is_enabled } } in
    if same_bool is_enabled s.beacon.enabled
    then s
    else emit (if is_enabled then beacon_timer_reset else beacon_timer_stop) s1

unfoldable pub set_interval : Env → ℕ → System → System
set_interval env interval s =
    let s1 = emit (beacon_timer_change_period (env.ms_to_ticks interval)) s in
    emit (if s.beacon.enabled then beacon_timer_reset else beacon_timer_stop) s1

abbrev pub set_beacon : System → BeaconState → System
set_beacon s b = record s { beacon = b }

-- Release the old packet, if there is one.
unfoldable pub release_beacon : Option ℕ → System → Outcome System
release_beacon none s = ok s
release_beacon (some p) s = do
  s1 ← discard_tx_packet p true s
  ok (set_beacon s1 (record (s1.beacon) { packet = none }))

-- Keep what AllocTxPacket returned.
unfoldable pub keep_beacon : Option ℕ × System → ℤ × System
keep_beacon (none, s) = (negsuc 0, set_beacon s (record (s.beacon) { packet = none }))
keep_beacon (some p, s) = (pos 0, set_beacon s (record (s.beacon) { packet = some p }))

unfoldable pub set_payload : Env → List ℕ → System → Outcome (ℤ × System)
set_payload env payload s = do
  s1 ← release_beacon s.beacon.packet s
  ok (keep_beacon (alloc_tx_packet env payload true s1))

-- `REQUIRE(gPacket, ...)`
unfoldable pub configured_packet : Option ℕ → Outcome ℕ
configured_packet none = panic
configured_packet (some p) = ok p

-- The result of QueueTxPacket is not looked at.
unfoldable pub emit_beacon : Env → System → Outcome System
emit_beacon env s = do
  p ← configured_packet s.beacon.packet
  (err, s1) ← queue_sticky_packet env network_control p s
  ok s1
