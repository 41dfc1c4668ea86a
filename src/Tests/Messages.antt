-- ===== src/Tests/Messages.antt =====
-- The theorems on the logger and the crypto context, applied to concrete calls.
use blazenet_device_fw.Prelude.{◌≡◌, refl, true, false, none, some, [], ◌∷◌, ok}
use blazenet_device_fw.Log.Logger.{
  trace, notice, static_buffer, queued, newline, LogState, Caller, done, assign, log, log_at,
  log_queued, new_buffer, task_buffer, message_bytes,
}
use blazenet_device_fw.Log.Logger.Messages.{Logs, log_at-Logs}
use blazenet_device_fw.Log.Logger.Uart.{Waits, call, callback, after, refused-Waits}
use blazenet_device_fw.Crypto.Context.{Engine, status_ok, bus_error, command_is_invalid, other}

abbrev pub quiet : LogState
quiet = record {
  level = trace;
  log_buffer_assigned = false;
  log_buffer = λ task. none;
  uart_completion = true;
  callback_due = false;
  sent = [];
}

-- A task whose message is "Hi", and the same with a UART driver that does not take it.
abbrev pub caller : Caller
caller = record {
  task = 1;
  scheduler_started = true;
  allocation = some 4096;
  stamp = 91 ∷ 32 ∷ 32 ∷ 32 ∷ 32 ∷ 32 ∷ 32 ∷ 32 ∷ 32 ∷ 32 ∷ 55 ∷ 93 ∷ 32 ∷ [];
  render = λ msg. some (72 ∷ 105 ∷ []);
  stale = [];
  takes_message = true;
}

abbrev refused_caller : Caller
refused_caller = record caller { takes_message = false }

log_at-Logs_example : Logs notice caller 0 quiet (log_at notice caller 0 quiet)
log_at-Logs_example = log_at-Logs notice caller 0 quiet refl

abbrev pub refused_state : LogState
refused_state = record (assign 1 static_buffer quiet) {
  uart_completion = false;
  sent = queued static_buffer newline ∷ queued static_buffer (message_bytes refused_caller 0) ∷ [];
}

refused_run : log refused_caller true 0 quiet ≡ ok (done refused_state)
unfolding log task_buffer new_buffer log_queued assign
refused_run = refl

refused-Waits_example :
    Waits (log caller true 1 (after (call notice caller 2 ∷ callback ∷ []) refused_state))
refused-Waits_example =
    refused-Waits refused_caller 0 quiet refused_state (call notice caller 2 ∷ callback ∷ []) caller
      1 refl refl refused_run refl

abbrev pub engine : Engine
engine = record {
  init = status_ok;
  init_context = status_ok;
  deinit_context = status_ok;
  set_yield = λ async. status_ok;
  serial_number = λ buffer. (status_ok, 1 ∷ 2 ∷ []);
  se_version = λ before. (status_ok, 258);
  read_pubkey = λ which size buffer. (command_is_invalid, buffer);
  read_cert_size = (bus_error, record { batch_id_size = 0; se_id_size = 0; host_id_size = 0 });
  read_cert = λ which size buffer. (other 77, buffer);
}
