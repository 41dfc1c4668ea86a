-- ===== src/Tests/Exchanges.antt =====
-- The theorems on any exchanges with the host, applied to a header that was cut short and a read
-- that its handler does not support.
use blazenet_device_fw.Prelude.{◌≡◌, refl, true, false, [], ◌∷◌, ok, some, none}
use blazenet_device_fw.HostIf.Task.{HostTask, header_done, read_command, arm, irq_config}
use blazenet_device_fw.HostIf.Task.Early.{
  payload_callback, payload_round, interrupted_exchange, exchange_order,
}
use blazenet_device_fw.HostIf.Task.Rounds.{at_header, at_payload, write_exchange}
use blazenet_device_fw.HostIf.Task.Dispatch.{IsArmed}
use blazenet_device_fw.HostIf.Task.Events.{header_end, happen, here, after, Steps, events-Steps}
use blazenet_device_fw.HostIf.Watchdog.{kick}
use blazenet_device_fw.System.{boot}
use blazenet_device_fw.Tests.{env}
use blazenet_device_fw.Tests.Host.{waiting}

abbrev waiting_again : HostTask
waiting_again = record waiting { sys = kick boot; command = 7; payload_length = 2 }

cut_short : happen env (header_end false 7 2) waiting ≡ ok (some waiting_again)
unfolding happen header_done read_command arm
cut_short = refl

events-Steps_example :
    IsArmed env waiting_again
    × Steps env waiting_again
        (header_end true 130 1)
        (happen env (header_end true 130 1) waiting_again)
events-Steps_example =
    events-Steps env waiting waiting_again (header_end true 130 1) refl
      (after (header_end false 7 2) here tt cut_short) tt

exchange_order_example :
    (write_exchange env 4 1 (15 ∷ []) waiting
      ≡ payload_round env (payload_callback (15 ∷ []) (at_payload 4 1 irq_config waiting)))
    × (interrupted_exchange env (15 ∷ []) irq_config (at_header 4 1 irq_config waiting) ≡ ok none)
exchange_order_example = exchange_order env irq_config 4 1 (15 ∷ []) waiting refl refl refl
