-- ===== src/Tests/Commands.antt =====
-- The theorems on GetCounters and RadioConfig, applied to the state after start-up.
use blazenet_device_fw.Prelude.{
  ℕ, Bool, true, ◌&&◌, ltb, ltb→lt, Bool-cases, inl, inr, subst, ◌≡◌, refl, List, [], ◌∷◌, arith,
}
use blazenet_device_fw.HostIf.Handlers.{counters, get_counters_read, radio_config_write}
use blazenet_device_fw.HostIf.Handlers.Counters.{AreWords, Reports, get_counters_read-Reports}
use blazenet_device_fw.HostIf.Handlers.Radio.{Configures, radio_config_write-Configures}
use blazenet_device_fw.System.{boot}
use blazenet_device_fw.Tests.{env}

abbrev are_words : List ℕ → Bool
are_words [] = true
are_words (n ∷ ns) = ltb n 4294967296 && are_words ns

are_words-AreWords : (ns : List ℕ) → are_words ns ≡ true → AreWords ns
are_words-AreWords [] h = tt
are_words-AreWords (n ∷ ns) h = elim (Bool-cases (ltb n 4294967296)) [
  | inl small ↦
      (ltb→lt _ _ small, are_words-AreWords ns (subst (λ b. (b && are_words ns) ≡ true) small h))
  | inr large ↦ absurd (ground (arith, large, h))
]

boot_words : are_words (counters env boot) ≡ true
unfolding counters
boot_words = refl

get_counters_read-Reports_example : Reports env boot 68 (get_counters_read env 68 [] boot)
get_counters_read-Reports_example =
    get_counters_read-Reports env 68 [] boot (omega arith)
      (are_words-AreWords (counters env boot) boot_words)

-- The address 65535, on channel 12.
abbrev broadcast_address : List ℕ
broadcast_address = 12 ∷ 0 ∷ 100 ∷ 0 ∷ 255 ∷ 255 ∷ []

radio_config_write-Configures_example :
    Configures env broadcast_address boot (radio_config_write env broadcast_address boot)
radio_config_write-Configures_example = radio_config_write-Configures env broadcast_address boot
