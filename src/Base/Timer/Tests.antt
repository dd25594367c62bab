-- ===== src/Base/Timer/Tests.antt =====
-- Fish/base/timer.h and source/base/timer.cpp at concrete timers.
use fish_rpc.Prelude.{
  get_or, get_or_none, ◌++◌, length, ℕ, ◌+◌, ◌<◌, ◌≡◌, refl, ◌≢◌, true, false, none, some, List, [],
  ◌∷◌, map, arith,
}
use fish_rpc.Prelude.Outcome.{ok, fault, Fault}
use fish_rpc.Prelude.Int.{ℤ, pos}
use fish_rpc.Base.Timer.{
  Timer, TimerTask, Seen, Call, fate, scan, work, works, advance, round, construct, add_once_task,
  slot_index, put_in, new_task,
}
use fish_rpc.Base.Timer.Wheel.{IsValid}
use fish_rpc.Base.Timer.Runs.{Reach, Step, Reach-IsValid}
use fish_rpc.Base.Timer.Start.{Turn, turns}
use fish_rpc.Base.Timer.Turning.{turns_reach}
use fish_rpc.Base.Timer.Sweep.{IsFair, seen_task, ran, left, without_time, round-sweeps}
use fish_rpc.Base.Timer.Erasing.{scan-ends}

abbrev late : TimerTask
late = record {
  time_point = pos 5000;
  insert_time = pos 0;
  repeatable = false;
  id = 0;
  needs_time = false;
  task = 1;
}

abbrev once_due : TimerTask
once_due = record {
  time_point = pos 10;
  insert_time = pos 0;
  repeatable = false;
  id = 0;
  needs_time = false;
  task = 2;
}

abbrev periodic : TimerTask
periodic = record {
  time_point = pos 20;
  insert_time = pos 0;
  repeatable = true;
  id = 7;
  needs_time = true;
  task = 3;
}

-- Two slots of 500 milliseconds; one of them has tasks.
abbrev two_slots : List TimerTask → ℕ → Timer
two_slots slot i = record {
  time_num = 2;
  time_wheel = slot ∷ [] ∷ [];
  priod_timer_map = [];
  wheel_index = i;
  working = false;
}

abbrev slot : List TimerTask
slot = late ∷ once_due ∷ periodic ∷ periodic ∷ []

Reach-IsValid_example : IsValid (two_slots (late ∷ []) 1)
unfolding construct add_once_task slot_index put_in new_task round scan fate works advance
Reach-IsValid_example =
    Reach-IsValid 500 {t = two_slots [] 0} (omega arith) refl
      (Reach.next (Reach.next Reach.here added) (Step.turn (pos 100) (λ i. pos 100) [] refl))
  where
    added : Step (two_slots [] 0) (two_slots (late ∷ []) 0)
    added = Step.once (pos 0) false 1 (pos 5000) refl

-- The index is behind the slot of a periodic task.
abbrev spinning : Timer
spinning = two_slots (periodic ∷ []) 1

spinning-IsValid : IsValid spinning
spinning-IsValid = record {
  some_slots = omega arith;
  rate = omega arith;
  sized = refl;
  inside = omega arith;
  idle = λ i far. get_or_none (((periodic ∷ []) ∷ []) ++ ([] ∷ [])) i [] far;
  distinct = tt;
}

turns_reach_example :
    (k : ℕ) × (k < 2)
    × ((clock : List Turn) (time_begin time_end : ℤ)
        → length clock ≡ k
        → (calls : List Call) × (t' : Timer) × (turns clock time_begin time_end spinning
            ≡ ok (calls, t'))
          × (t'.wheel_index ≡ 0))
turns_reach_example = turns_reach 0 spinning-IsValid ((refl, tt), (tt, tt)) (omega arith)

-- The periodic task behind the erased one is passed over.
abbrev calls : List Call
calls = record { task = 2; passed = none } ∷ record { task = 3; passed = some (pos 61) } ∷ []

abbrev swept : Timer
swept = two_slots (late ∷ periodic ∷ record periodic { insert_time = pos 61 } ∷ []) 1

round-sweeps_example :
    (seen : List Seen) × (map seen_task seen ≡ slot)
    × IsFair false (pos 50) seen
    × (map (λ (c : Call). c.task) calls ≡ map (λ (t : TimerTask). t.task) (ran seen))
    × (map without_time (get_or swept.time_wheel 0 []) ≡ map without_time (left seen))
    × ((i : ℕ) → i ≢ 0 → get_or swept.time_wheel i [] ≡ get_or (two_slots slot 0).time_wheel i [])
unfolding round scan fate works work advance
round-sweeps_example =
    round-sweeps (pos 50) (λ i. pos (60 + i)) (two_slots slot 0) {calls = calls} {t' = swept} refl

scan-ends_example : scan (pos 50) (late ∷ periodic ∷ once_due ∷ []) ≡ fault Fault.bad_iterator
scan-ends_example = scan-ends (pos 50) (late ∷ periodic ∷ []) once_due (refl, (refl, tt)) refl refl
