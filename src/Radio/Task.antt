-- ===== src/Radio/Task.antt =====
-- The radio task of Sources/Radio/Task.cpp: the event callback that runs in interrupt context,
-- the main loop's handling of a notification, and the configuration of the radio.
pub mod Complete
pub mod Drain
pub mod Busy
pub mod Traffic
use blazenet_device_fw.Prelude.{
  ℕ, ◌+◌, ◌%◌, Bool, true, false, not, ◌||◌, Option, none, some, List, [], ◌∷◌, ltb, ◌==◌,
  if◌then◌else◌, u8, u32, ℤ, pos, negsuc, is_err, Outcome, ok, panic, fault, ◌>>=◌, ◌>>◌, require,
  deref,
}
use blazenet_device_fw.Packet.Buffers.{TxPacketBuffer, find, modify}
use blazenet_device_fw.Packet.Tx.{discard_tx_packet, pop_tx_queue}
use blazenet_device_fw.Packet.Rx.{RxPacketInfo, handle_rx_packet}
use blazenet_device_fw.Radio.Transmit.{tx_packet_immediate}
use blazenet_device_fw.System.{
  System, Env, Effect, reset_fifo, start_rx, apply_tx_power, hold_rx_packet, release_rx_packet,
  calibrate, pulse_rx, pulse_tx, RadioState, emit,
}

abbrev pub max_csma_fails : ℕ
max_csma_fails = 5

abbrev set_radio : System → RadioState → System
set_radio s r = record s { radio = r }

-- NotifyBits, and the events of RAIL that the callback looks at.
pub record Notification : Type 0 where
  pub packet_received : Bool
  pub packet_transmitted : Bool
  pub tx_channel_busy : Bool
  pub calibration_required : Bool

pub record Events : Type 0 where
  pub rx_packet_received : Bool
  pub tx_packet_sent : Bool
  pub tx_channel_busy : Bool
  pub rx_frame_error : Bool
  pub rx_fifo_overflow : Bool
  pub cal_needed : Bool

-- sl_rail_util_on_event: the counters and effects, and the bits it sets in the pending notification.
unfoldable pub on_event : Events → Notification × System → Notification × System
unfolding emit
on_event e (note, s) =
    let s1 = if e.rx_packet_received then emit hold_rx_packet s else s in
    let r = s1.radio in
    let s2 = set_radio s1 (record r {
      tx_frames = if e.tx_packet_sent then u32 (r.tx_frames + 1) else r.tx_frames;
      tx_cca_fails = if e.tx_channel_busy then u32 (r.tx_cca_fails + 1) else r.tx_cca_fails;
      rx_frame_errors = if e.rx_frame_error then u32 (r.rx_frame_errors + 1) else r.rx_frame_errors;
      rx_fifo_overflows =
          if e.rx_fifo_overflow then u32 (r.rx_fifo_overflows + 1) else r.rx_fifo_overflows;
    }) in
    (
      record {
        packet_received = note.packet_received || e.rx_packet_received;
        packet_transmitted = note.packet_transmitted || e.tx_packet_sent;
        tx_channel_busy = note.tx_channel_busy || e.tx_channel_busy;
        calibration_required = note.calibration_required || e.cal_needed;
      },
      if e.rx_fifo_overflow then emit (reset_fifo false true) s2 else s2,
    )

-- ReadPacket; the argument is what RAIL_GetRxPacketInfo and RAIL_GetRxPacketDetails return.
unfoldable pub read_packet : Env → Option RxPacketInfo → System → System
read_packet env none s = s
read_packet env (some info) s =
    let s1 = (handle_rx_packet env info s).1 in
    emit release_rx_packet
      (set_radio s1 (record (s1.radio) { rx_frames = u32 (s1.radio.rx_frames + 1) }))

-- Send the packet that is at hand; both a missing packet and a failure are fatal.
unfoldable pub transmit_popped : Env → Option ℕ × System → Outcome System
transmit_popped env (none, s) = panic
transmit_popped env (some p, s) = do
  (err, s1) ← tx_packet_immediate env p s
  require (not (is_err err))
  ok s1

-- Start the next pending packet.
unfoldable pub transmit_next : Env → System → Outcome System
unfolding transmit_popped
transmit_next env s = transmit_popped env (pop_tx_queue s)

-- Another packet goes out if one is pending.
unfoldable pub continue_transmit : Env → System → Outcome System
continue_transmit env s = if s.tx.packets_pending == 0 then ok s else transmit_next env s

-- The packet that gLastTx points to is done.
unfoldable pub complete_tx : Env → Option ℕ → System → Outcome System
complete_tx env l s = do
  p ← deref l
  s1 ← discard_tx_packet p false s
  continue_transmit env (set_radio s1 (record (s1.radio) { last_tx = none }))

unfoldable pub handle_tx_complete : Env → System → Outcome System
handle_tx_complete env s = complete_tx env s.radio.last_tx s

-- The buffer with the failed attempt counted.
unfoldable pub failed_once : TxPacketBuffer → TxPacketBuffer
failed_once b = record b { csma_fail_count = u8 (b.csma_fail_count + 1) }

-- A packet that found the channel busy is sent again, or dropped after too many attempts.
unfoldable pub retry_tx : Env → Option ℕ → System → Outcome System
retry_tx env none s = panic
retry_tx env (some p) s = do
  b ← deref (find p s.store)
  let s1 = record s { store = modify p (failed_once b) s.store }
  if ltb (failed_once b).csma_fail_count max_csma_fails
      then transmit_popped env (some p, s1)
      else handle_tx_complete env s1

unfoldable pub handle_channel_busy : Env → System → Outcome System
handle_channel_busy env s = retry_tx env s.radio.last_tx s

-- One round of the main loop.
unfoldable pub handle_notification :
    Env → Option RxPacketInfo → Notification → System → Outcome System
handle_notification env info note s = do
  let s1 = if note.packet_received then read_packet env info (emit pulse_rx s) else s
  s2 ← if note.packet_transmitted then handle_tx_complete env (emit pulse_tx s1) else ok s1
  s3 ← if note.tx_channel_busy then handle_channel_busy env s2 else ok s2
  ok (if note.calibration_required then emit calibrate s3 else s3)

unfoldable pub set_channel : Env → ℕ → System → ℤ × System
unfolding emit
set_channel env new_channel s =
    let s1 = emit (reset_fifo true true) s in
    let s2 = emit (start_rx new_channel) s1 in
    if not (env.valid_channel new_channel)
    then (negsuc 1, s)
    else if not (env.rx_starts s1.trace new_channel)
    then (negsuc 0, s2)
    else (pos 0, set_radio s2 (record (s2.radio) { tx_channel = new_channel }))

unfoldable pub set_tx_power : Env → ℕ → System → ℤ × System
unfolding emit
set_tx_power env new_power s =
    let raw = env.dbm_to_raw new_power in
    (if env.power_set s.trace raw then pos 0 else negsuc 0, emit (apply_tx_power raw) s)

unfoldable pub set_address : ℕ → System → ℤ × System
set_address new_address s =
    if new_address == 0 || new_address == 65535
    then (negsuc 0, s)
    else (pos 0, set_radio s (record (s.radio) { address = new_address }))

unfoldable pub is_active : Env → System → Bool
is_active env s = env.radio_receiving s.trace || env.radio_transmitting s.trace
