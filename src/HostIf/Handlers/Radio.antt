-- ===== src/HostIf/Handlers/Radio.antt =====
-- What RadioConfig, Sources/HostIf/Handlers/RadioConfig.h, leaves of the radio's settings.
use blazenet_device_fw.Prelude.{
  ◌∷◌, ℕ, ◌<◌, ◌≡◌, ◌≢◌, refl, ◌⊎◌, inl, inr, true, false, Bool-cases, List, length, ltb, ltb→lt,
  ltb→le, ◌≤◌, ◌==◌, ==_iff, ℤ, pos, negsuc, arith,
}
use blazenet_device_fw.HostIf.Handlers.{word, unless_error, radio_config_write}
use blazenet_device_fw.Packet.Invariant.{SameTx}
use blazenet_device_fw.Radio.Task.{set_channel, set_tx_power, set_address}
use blazenet_device_fw.System.{Effect, System, Env, emit, reset_fifo, start_rx}

-- The settings after the command, with the rest of the state the same.
pub record Sets (channel address : ℕ) (s t : System) : Type 0 where
  pub channel_set : t.radio.tx_channel ≡ channel
  pub address_set : t.radio.address ≡ address
  pub transmit_kept : SameTx s t
  pub receive_kept : t.rx ≡ s.rx
  pub irq_kept : t.irq ≡ s.irq

-- The calls of the radio so far when reception is started, and when the power is set.
abbrev pub at_reset : System → List Effect
at_reset s = reset_fifo true true ∷ s.trace

abbrev pub at_start : ℕ → System → List Effect
at_start channel s = start_rx channel ∷ at_reset s

-- The channel is valid, the radio receives on it and takes the power.
abbrev pub Works : Env → List ℕ → System → Type 0
Works env payload s =
    (env.valid_channel (word payload 0) ≡ true)
    × (env.rx_starts (at_reset s) (word payload 0) ≡ true)
    × (env.power_set (at_start (word payload 0) s) (env.dbm_to_raw (word payload 2)) ≡ true)

-- The command by the setting that fails first. What was set before it stays.
pub data Configures (env : Env) (payload : List ℕ) (s : System) : ℤ × System → Type 0 where
  too_short : length payload < 6 → Configures env payload s (negsuc 0, s)
  bad_channel :
      6 ≤ length payload
      → env.valid_channel (word payload 0) ≡ false
      → Configures env payload s (negsuc 1, s)
  no_reception :
      (t : System)
      → env.valid_channel (word payload 0) ≡ true
      → env.rx_starts (at_reset s) (word payload 0) ≡ false
      → Sets s.radio.tx_channel s.radio.address s t
      → Configures env payload s (negsuc 0, t)
  no_power :
      (t : System)
      → env.valid_channel (word payload 0) ≡ true
      → env.rx_starts (at_reset s) (word payload 0) ≡ true
      → env.power_set (at_start (word payload 0) s) (env.dbm_to_raw (word payload 2)) ≡ false
      → Sets (word payload 0) s.radio.address s t
      → Configures env payload s (negsuc 0, t)
  bad_address :
      (t : System)
      → Works env payload s
      → (word payload 4 ≡ 0) ⊎ (word payload 4 ≡ 65535)
      → Sets (word payload 0) s.radio.address s t
      → Configures env payload s (negsuc 0, t)
  configured :
      (t : System)
      → Works env payload s
      → word payload 4 ≢ 0
      → word payload 4 ≢ 65535
      → Sets (word payload 0) (word payload 4) s t
      → Configures env payload s (pos 0, t)

set_address-Configures :
    (env : Env) (payload : List ℕ) (s t : System)
    → Works env payload s
    → Sets (word payload 0) s.radio.address s t
    → Configures env payload s (set_address (word payload 4) t)
unfolding set_address
set_address-Configures env payload s t valid sets =
    let kept = sets.transmit_kept in
    let addressed_state = record t { radio = record (t.radio) { address = word payload 4 } } in
    elim (Bool-cases (word payload 4 == 0)) [
      | inl zeroth ↦ rw zeroth (bad_address t valid (inl ((==_iff _ _).0 zeroth)) sets)
      | inr positive ↦ elim (Bool-cases (word payload 4 == 65535)) [
        | inl broadcast ↦
            rw (positive, broadcast) (bad_address t valid (inr ((==_iff _ _).0 broadcast)) sets)
        | inr single ↦
            rw (positive, single)
              (configured addressed_state valid (λ e. ground (arith, e, positive))
                (λ e. ground (arith, e, single))
                (record {
                  channel_set = sets.channel_set;
                  address_set = refl;
                  transmit_kept = record {
                    same_store = kept.same_store;
                    same_bytes = kept.same_bytes;
                    same_pending = kept.same_pending;
                    same_queues = kept.same_queues;
                    same_flight = kept.same_flight;
                  };
                  receive_kept = sets.receive_kept;
                  irq_kept = sets.irq_kept;
                }))
      ]
    ]

-- A command of RadioConfig that is too short or names an invalid channel changes nothing. If the
-- radio does not receive on the channel, the settings stay; if it refuses the power, or the
-- address is 0 or 65535, the command reports an error with the channel already changed and the
-- address as before; otherwise channel and address are those of the command. In every case the
-- transmit and the receive queues and the interrupts are as before.
pub radio_config_write-Configures :
    (env : Env) (payload : List ℕ) (s : System)
    → Configures env payload s (radio_config_write env payload s)
unfolding radio_config_write unless_error set_channel set_tx_power set_address emit
radio_config_write-Configures env payload s =
    let channel = word payload 0 in
    let s1 = emit (start_rx channel) (emit (reset_fifo true true) s) in
    let raw = env.dbm_to_raw (word payload 2) in
    elim (Bool-cases (ltb (length payload) 6)) [
      | inl short ↦ rw short (too_short (ltb→lt _ _ short))
      | inr long ↦ elim (Bool-cases (env.valid_channel channel)) [
        | inr invalid ↦ rw (long, invalid) (bad_channel (ltb→le _ _ long) invalid)
        | inl valid ↦
            elim (Bool-cases (env.rx_starts (emit (reset_fifo true true) s).trace channel)) [
              | inr silent ↦
                  rw (long, valid, silent)
                    (no_reception _ valid silent (record {
                      channel_set = refl;
                      address_set = refl;
                      transmit_kept = ground arith;
                      receive_kept = refl;
                      irq_kept = refl;
                    }))
              | inl receives ↦ elim (Bool-cases (env.power_set s1.trace raw)) [
                | inr refused ↦
                    rw (long, valid, receives, refused)
                      (no_power _ valid receives refused (record {
                        channel_set = refl;
                        address_set = refl;
                        transmit_kept = ground arith;
                        receive_kept = refl;
                        irq_kept = refl;
                      }))
                | inl accepted ↦
                    rw (long, valid, receives, accepted)
                      (set_address-Configures env payload s _ (valid, receives, accepted)
                        (record {
                          channel_set = refl;
                          address_set = refl;
                          transmit_kept = ground arith;
                          receive_kept = refl;
                          irq_kept = refl;
                        }))
              ]
            ]
      ]
    ]
