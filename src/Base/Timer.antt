-- ===== src/Base/Timer.antt =====
-- Fish/base/timer.h and source/base/timer.cpp: the timer wheel. The clock is a parameter, its
-- readings are arguments. A `std::function` is a number that names it, and a call of one is a
-- `Call`; the functions are taken not to use the timer themselves. The interval is not negative. An
-- id is the number of an int's bits.
pub mod Wheel
pub mod Runs
pub mod Start
pub mod Turning
pub mod Sweep
pub mod Erasing
mod Tests
use fish_rpc.Prelude.{
  ltb, ◌==◌, if◌then◌else◌, length, get_or, set, replicate, ℕ, ◌+◌, ◌/◌, ◌^◌, Bool, true, false,
  ◌&&◌, not, Option, none, some, List, [], ◌∷◌, ◌++◌,
}
use fish_rpc.Prelude.Outcome.{Outcome, ok, fault, Fault, ◌>>=◌, ◌>>◌, check}
use fish_rpc.Prelude.Int.{ℤ, pos, pos_part, ◌+ℤ◌, ◌-ℤ◌, ltb_ℤ, quot, rem, to_word, to_int32}
use fish_rpc.Prelude.Assoc.{lookup, insert, erase}

-- `TimerTask`, with `task_` and the class of the task: is it a `NeedTime`?
pub record TimerTask : Type 0 where
  pub time_point : ℤ
  pub insert_time : ℤ
  pub repeatable : Bool
  pub id : ℕ
  pub needs_time : Bool
  pub task : ℕ

pub record Timer : Type 0 where
  pub time_num : ℕ
  pub time_wheel : List (List TimerTask)
  pub priod_timer_map : List (ℕ × TimerTask)
  pub wheel_index : ℕ
  pub working : Bool

-- The constructors of `TimerTask`, `NeedTime` and `NotNeedTime`, and `setTask`.
unfoldable pub new_task : ℤ → Bool → ℕ → ℤ → Bool → ℕ → TimerTask
new_task now needs_time task time repeatable id = record {
  time_point = now +ℤ time;
  insert_time = now;
  repeatable = repeatable;
  id = id;
  needs_time = needs_time;
  task = task;
}

-- The constructor.
unfoldable pub construct : ℕ → Outcome Timer
construct time_interval = do
  check (ltb 0 time_interval) Fault.divide_by_zero
  ok (record {
    time_num = 1000 / time_interval;
    time_wheel = replicate (1000 / time_interval) [];
    priod_timer_map = [];
    wheel_index = 0;
    working = false;
  })

-- The three lines on `index`, and the access to `timeWheel_`.
unfoldable pub slot_index : ℤ → Timer → Outcome ℕ
slot_index time t = do
  check (ltb 0 t.time_num) Fault.divide_by_zero
  check (ltb 0 (1000 / t.time_num)) Fault.divide_by_zero
  let turned = rem (quot time (1000 / t.time_num)) t.time_num
  let index = quot (turned +ℤ pos t.wheel_index) t.time_num
  check (ltb_ℤ index (pos (length t.time_wheel)) && not (ltb_ℤ index (pos 0))) Fault.out_of_bounds
  ok (pos_part index)

-- `timeWheel_[index].push_back(timer)`.
unfoldable pub put_in : ℕ → TimerTask → Timer → Timer
put_in i task t = record t {
  time_wheel = set t.time_wheel i (get_or t.time_wheel i [] ++ (task ∷ []));
}

-- The two overloads of `addOnceTask`.
unfoldable pub add_once_task : ℤ → Bool → ℕ → ℤ → Timer → Outcome Timer
unfolding slot_index put_in new_task
add_once_task now needs_time task time t = do
  i ← slot_index time t
  ok (put_in i (new_task now needs_time task time false 0) t)

-- The two overloads of `addPriodTask`.
unfoldable pub add_priod_task : ℤ → Bool → ℕ → ℤ → ℕ → Timer → Outcome (Bool × Timer)
unfolding slot_index put_in new_task
add_priod_task now needs_time task time id t = elim (lookup id t.priod_timer_map) [
  | some old ↦ ok (false, t)
  | none ↦ do
    let timer = new_task now needs_time task time true id
    i ← slot_index time t
    ok (true, put_in i timer (record t { priod_timer_map = insert id timer t.priod_timer_map }))
]

unfoldable pub remove_priod_task : ℕ → Timer → Bool × Timer
remove_priod_task id t = elim (lookup id t.priod_timer_map) [
  | none ↦ (false, t)
  | some old ↦ (true, record t { priod_timer_map = erase id t.priod_timer_map })
]

-- `timer->timePoint() <= timeBegin`.
abbrev pub is_due : ℤ → TimerTask → Bool
is_due now t = not (ltb_ℤ now t.time_point)

-- What the loop over a slot does to each of its tasks: it leaves it, puts it into `timeOutVec` and
-- leaves it, or puts it there and erases it.
pub data Seen : Type 0 where
  stays again gone : TimerTask → Seen

-- The two tests of the loop: not due, due and periodic, due and to be erased.
pub data Fate : Type 0 where
  waits repeats ends : Fate

unfoldable pub fate : ℤ → TimerTask → Fate
fate now t = if is_due now t then if t.repeatable then Fate.repeats else Fate.ends else Fate.waits

-- The loop over a slot. After an `erase` the iterator stands on the next task, and the `iter++` of
-- the loop passes over that one; it is undefined where there is none.
unfoldable pub scan : ℤ → List TimerTask → Outcome (List Seen)
scan now [] = ok []
scan now (t ∷ []) = elim (fate now t) [
  | Fate.waits ↦ ok (Seen.stays t ∷ [])
  | Fate.repeats ↦ ok (Seen.again t ∷ [])
  | Fate.ends ↦ fault Fault.bad_iterator
]
scan now (t ∷ u ∷ us) = elim (fate now t) [
  | Fate.waits ↦ do rest ← scan now (u ∷ us); ok (Seen.stays t ∷ rest)
  | Fate.repeats ↦ do rest ← scan now (u ∷ us); ok (Seen.again t ∷ rest)
  | Fate.ends ↦ do rest ← scan now us; ok (Seen.gone t ∷ Seen.stays u ∷ rest)
]

-- A call of a task's function, with its argument if it takes the time.
pub record Call : Type 0 where
  pub task : ℕ
  pub passed : Option ℤ

-- `work`, at the clock's reading `now`: the call, and the task after it.
unfoldable pub work : ℤ → TimerTask → Call × TimerTask
work now t =
    if t.needs_time
    then (
      record { task = t.task; passed = some (to_int32 (to_word (2 ^ 64) (now -ℤ t.insert_time))) },
      record t { insert_time = now },
    )
    else (record { task = t.task; passed = none }, t)

-- The loop over `timeOutVec`, where `clock i` is the reading at the i-th call from now on: the
-- calls, and the slot after it.
unfoldable pub works : (ℕ → ℤ) → List Seen → List Call × List TimerTask
unfolding work
works clock [] = ([], [])
works clock (Seen.stays t ∷ es) = let (calls, slot) = works clock es in (calls, t ∷ slot)
works clock (Seen.again t ∷ es) =
    let (call, t') = work (clock 0) t in
    let (calls, slot) = works (λ i. clock (i + 1)) es in (call ∷ calls, t' ∷ slot)
works clock (Seen.gone t ∷ es) =
    let (call, _) = work (clock 0) t in
    let (calls, slot) = works (λ i. clock (i + 1)) es in (call ∷ calls, slot)

-- `wheelIndex_++`, and back to 0 at the end.
unfoldable pub advance : ℕ → ℕ → ℕ
advance time_num i = if i + 1 == time_num then 0 else i + 1

-- One round of the loop in `start`, which begins at `now`.
unfoldable pub round : ℤ → (ℕ → ℤ) → Timer → Outcome (List Call × Timer)
unfolding scan works advance
round now clock t = do
  check (ltb t.wheel_index (length t.time_wheel)) Fault.out_of_bounds
  seen ← scan now (get_or t.time_wheel t.wheel_index [])
  let (calls, slot) = works clock seen
  ok (
    calls,
    record t {
      time_wheel = set t.time_wheel t.wheel_index slot;
      wheel_index = advance t.time_num t.wheel_index;
    },
  )
