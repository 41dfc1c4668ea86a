-- ===== src/Hw/Indicators/Period.antt =====
-- The timer that Sources/Hw/Indicators.cpp shares between the lights fires for the first one due.
use blazenet_device_fw.Prelude.{
  ℕ, ◌≤◌, ◌≡◌, refl, ◌⊎◌, inl, inr, max, true, false, Bool-cases, Option, none, some, List, [], ◌∷◌,
  ltb, ltb→lt, ltb→le, sub32, arith,
}
use blazenet_device_fw.Hw.Animations.{Channel}
use blazenet_device_fw.Hw.Indicators.{
  Lights, is_waiting, sooner, next_due, arm_timer, update_timer_period,
}

-- The ticks from `now` to the update of a channel.
abbrev pub due : ℕ → Channel → ℕ
due now ch = sub32 ch.next_update now

-- No channel waits; no channel that waits is due before `p` ticks; one is due in `p` ticks.
abbrev pub NoneWaits : List Channel → Type 0
NoneWaits [] = Unit {0}
NoneWaits (ch ∷ chs) = (is_waiting ch ≡ false) × NoneWaits chs

abbrev pub NoneBefore : ℕ → ℕ → List Channel → Type 0
NoneBefore now p [] = Unit {0}
NoneBefore now p (ch ∷ chs) = (is_waiting ch ≡ true → p ≤ due now ch) × NoneBefore now p chs

abbrev pub OneAfter : ℕ → ℕ → List Channel → Type 0
OneAfter now p [] = ⊥
OneAfter now p (ch ∷ chs) = ((is_waiting ch ≡ true) × (p ≡ due now ch)) ⊎ OneAfter now p chs

abbrev pub IsFirst : ℕ → List Channel → Option ℕ → Type 0
IsFirst now chs none = NoneWaits chs
IsFirst now chs (some p) = NoneBefore now p chs × OneAfter now p chs

-- The search goes on from a time `a` already found.
abbrev Improves : ℕ → List Channel → ℕ → Option ℕ → Type 0
Improves now chs a result =
    (p : ℕ) × (result ≡ some p) × (p ≤ a) × NoneBefore now p chs × ((p ≡ a) ⊎ OneAfter now p chs)

next_due-Improves :
    (now : ℕ) (chs : List Channel) (a : ℕ) → Improves now chs a (next_due now chs (some a))
unfolding next_due sooner
next_due-Improves now [] a = (a, refl, omega arith, tt, inl refl)
next_due-Improves now (ch ∷ chs) a = elim (Bool-cases (is_waiting ch)) [
  | inr still ↦
      (let (p, run, below, before, found) = next_due-Improves now chs a in
        let hit : (p ≡ a) ⊎ OneAfter now p (ch ∷ chs) = elim found [
          | inl same ↦ inl same
          | inr other ↦ inr (inr other)
        ] in
        (p, rw still run, below, ((λ w. absurd (cc (w, still))), before), hit))
  | inl waits ↦ elim (Bool-cases (ltb (due now ch) a)) [
    | inl less ↦
        (let (p, run, below, before, found) = next_due-Improves now chs (due now ch) in
          let hit : (p ≡ a) ⊎ OneAfter now p (ch ∷ chs) = elim found [
            | inl same ↦ inr (inl (waits, same))
            | inr other ↦ inr (inr other)
          ] in
          let small : p ≤ a = omega (arith, below, ltb→lt _ _ less) in
          (p, rw (waits, less) run, small, ((λ w. below), before), hit))
    | inr more ↦
        (let (p, run, below, before, found) = next_due-Improves now chs a in
          let hit : (p ≡ a) ⊎ OneAfter now p (ch ∷ chs) = elim found [
            | inl same ↦ inl same
            | inr other ↦ inr (inr other)
          ] in
          let small : p ≤ due now ch = omega (arith, below, ltb→le _ _ more) in
          (p, rw (waits, more) run, below, ((λ w. small), before), hit))
  ]
]

past_still :
    (now : ℕ) (ch : Channel) (chs : List Channel) (found : Option ℕ)
    → is_waiting ch ≡ false
    → IsFirst now chs found
    → IsFirst now (ch ∷ chs) found
past_still now ch chs none still h = (still, h)
past_still now ch chs (some p) still (before, one) =
    (((λ w. absurd (cc (w, still))), before), inr one)

next_due-IsFirst : (now : ℕ) (chs : List Channel) → IsFirst now chs (next_due now chs none)
unfolding next_due sooner
next_due-IsFirst now [] = tt
next_due-IsFirst now (ch ∷ chs) = elim (Bool-cases (is_waiting ch)) [
  | inl waits ↦
      (let (p, run, below, before, found) = next_due-Improves now chs (due now ch) in
        let hit : OneAfter now p (ch ∷ chs) = elim found [
          | inl same ↦ inl (waits, same)
          | inr other ↦ inr other
        ] in
        rw (waits, run) (((λ w. below), before), hit))
  | inr still ↦ rw still (past_still now ch chs _ still (next_due-IsFirst now chs))
]

abbrev pub channels : Lights → List Channel
channels s = s.attention_channel ∷ s.tx_channel ∷ s.rx_channel ∷ []

armed_first :
    (now : ℕ) (s : Lights) (found : Option ℕ)
    → IsFirst now (channels s) found
    → (NoneWaits (channels s) × (arm_timer found s ≡ s))
      ⊎ ((p : ℕ) × NoneBefore now p (channels s)
          × OneAfter now p (channels s)
          × (arm_timer found s ≡ record s { periods = max p 1 ∷ s.periods }))
unfolding arm_timer
armed_first now s none h = inl (h, refl)
armed_first now s (some p) (before, one) = inr (p, before, one, refl)

-- UpdateTimerPeriod changes nothing if no light waits; otherwise it changes only the timer, to
-- the time of the first light that is due, or to 1 if that is 0.
pub update_timer_period-IsFirst :
    (now : ℕ) (s : Lights)
    → (NoneWaits (channels s) × (update_timer_period now s ≡ s))
      ⊎ ((p : ℕ) × NoneBefore now p (channels s)
          × OneAfter now p (channels s)
          × (update_timer_period now s ≡ record s { periods = max p 1 ∷ s.periods }))
unfolding update_timer_period
update_timer_period-IsFirst now s = armed_first now s _ (next_due-IsFirst now (channels s))
