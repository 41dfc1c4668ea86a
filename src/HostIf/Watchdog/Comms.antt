-- ===== src/HostIf/Watchdog/Comms.antt =====
-- The watchdog (Sources/HostIf/Watchdog.cpp) and the beacon timer (Sources/BlazeNet/Beacon.cpp) in
-- step: when the host counts as lost, and when the beacon timer runs.
use blazenet_device_fw.Prelude.{
  ℕ, zero, suc, ◌+◌, ◌≤◌, ◌≡◌, sym, ◌∙◌, ◌-◌, inl, inr, ltb→le, ltb→lt, Bool, true, false, List, [],
  ◌∷◌, Bool-cases, ltb, arith,
}
use blazenet_device_fw.BlazeNet.Beacon.{
  comms_lost, comms_regained, same_bool, set_enabled, set_interval,
}
use blazenet_device_fw.HostIf.Watchdog.{
  wdog_threshold, handle_comms_lost, handle_comms_regained, wdog_expired, kick, started,
}
use blazenet_device_fw.System.{
  System, Env, Effect, beacon_timer_reset, beacon_timer_stop, beacon_timer_change_period, emit,
}

-- Whether the timer runs after these calls; a change of the period starts it, too.
abbrev timer_running : List Effect → Bool
timer_running [] = false
timer_running (beacon_timer_reset ∷ tr) = true
timer_running (beacon_timer_change_period n ∷ tr) = true
timer_running (beacon_timer_stop ∷ tr) = false
timer_running (e ∷ tr) = timer_running tr

-- What the watchdog timer and the host's commands can ask for.
pub data Call : Type 0 where
  kicks expires : Call
  enables : Bool → Call
  intervals : ℕ → Call

unfoldable pub on_call : Env → Call → System → System
on_call env kicks s = kick s
on_call env expires s = wdog_expired s
on_call env (enables b) s = set_enabled b s
on_call env (intervals n) s = set_interval env n s

-- The last call first.
unfoldable pub after : Env → List Call → System
after env [] = started
after env (c ∷ cs) = on_call env c (after env cs)

pub record IsWatched (s : System) : Type 0 where
  pub few_missed : s.watchdog.comms_lost_flag ≡ false → s.watchdog.checkins_missed ≤ wdog_threshold
  pub only_enabled : timer_running s.trace ≡ true → s.beacon.enabled ≡ true
  pub runs :
      s.beacon.enabled ≡ true → s.watchdog.comms_lost_flag ≡ false → timer_running s.trace ≡ true

on_call-IsWatched : (env : Env) (c : Call) (s : System) → IsWatched s → IsWatched (on_call env c s)
unfolding on_call kick wdog_expired handle_comms_lost handle_comms_regained comms_lost
    comms_regained set_enabled same_bool set_interval emit
on_call-IsWatched env kicks s v = ground (arith, v.few_missed, v.only_enabled, v.runs)
on_call-IsWatched env expires s v = ground (arith, v.few_missed, v.only_enabled, v.runs)
on_call-IsWatched env (enables b) s v = ground (arith, v.few_missed, v.only_enabled, v.runs)
on_call-IsWatched env (intervals n) s v = ground (arith, v.few_missed, v.only_enabled, v.runs)

-- After any calls of the watchdog and the host, a host that is not lost has missed at most the
-- threshold of check-ins; the beacon timer runs only while beacons are enabled; and it does run
-- when they are enabled and the host is not lost.
pub after-IsWatched : (env : Env) (cs : List Call) → IsWatched (after env cs)
unfolding after started handle_comms_lost comms_lost emit
after-IsWatched env [] = ground arith
after-IsWatched env (c ∷ cs) = on_call-IsWatched env c (after env cs) (after-IsWatched env cs)

-- So many expiries of the watchdog timer in a row.
unfoldable pub expiries : ℕ → System → System
expiries zero s = s
expiries (suc n) s = wdog_expired (expiries n s)

missed_few :
    (n : ℕ) (s : System)
    → n ≤ wdog_threshold
    → ((expiries n (kick s)).watchdog.comms_lost_flag ≡ false)
      × ((expiries n (kick s)).watchdog.checkins_missed ≡ n)
unfolding expiries kick wdog_expired handle_comms_lost handle_comms_regained comms_lost
    comms_regained emit
missed_few zero s h = ground arith
missed_few (suc n) s h = let (a, b) = missed_few n s (omega arith) in ground (arith, a, b)

stays_lost :
    (s : System)
    → s.watchdog.comms_lost_flag ≡ true
    → (wdog_expired s).watchdog.comms_lost_flag ≡ true
unfolding wdog_expired handle_comms_lost comms_lost emit
stays_lost s h = ground (arith, h)

becomes_lost :
    (s : System)
    → s.watchdog.comms_lost_flag ≡ false
    → s.watchdog.checkins_missed ≡ wdog_threshold
    → (wdog_expired s).watchdog.comms_lost_flag ≡ true
unfolding wdog_expired handle_comms_lost comms_lost emit
becomes_lost s h e = ground (arith, h, e)

missed_seven : (s : System) → (expiries 7 (kick s)).watchdog.comms_lost_flag ≡ true
unfolding expiries
missed_seven s = let (a, b) = missed_few 6 s (omega arith) in becomes_lost (expiries 6 (kick s)) a b

one_more : (n : ℕ) (s : System) → expiries (suc n + 7) s ≡ wdog_expired (expiries (n + 7) s)
unfolding expiries
one_more n s = let e : suc n + 7 ≡ suc (n + 7) = omega arith in rw e

missed_many : (n : ℕ) (s : System) → (expiries (n + 7) (kick s)).watchdog.comms_lost_flag ≡ true
missed_many zero s = missed_seven s
missed_many (suc n) s =
    rw (one_more n (kick s)) (stays_lost (expiries (n + 7) (kick s)) (missed_many n s))

-- After a command from the host, and so many expiries of the watchdog timer without another, the
-- host counts as lost exactly if there were more than six expiries.
pub expiries-kick :
    (n : ℕ) (s : System) → (expiries n (kick s)).watchdog.comms_lost_flag ≡ ltb wdog_threshold n
expiries-kick n s = elim (Bool-cases (ltb wdog_threshold n)) [
  | inr few ↦ (missed_few n s (ltb→le _ _ few)).0 ∙ sym few
  | inl many ↦
      (let h = ltb→lt _ _ many in
        let e : n - 7 + 7 ≡ n = omega arith in rw (← e) (missed_many (n - 7) s) ∙ sym many)
]
