-- ===== src/Base/Timer/Start.antt =====
-- source/base/timer.cpp: how the single timer is made, and the loop of `start`. The times that the
-- clock gives are arguments; nothing ends the loop but the end of the program.
use fish_rpc.Prelude.{ltb, if◌then◌else◌, ℕ, ◌/◌, true, Option, none, some, List, [], ◌∷◌, ◌++◌}
use fish_rpc.Prelude.Outcome.{Outcome, ok, Fault, ◌>>=◌, ◌>>◌, check}
use fish_rpc.Prelude.Int.{ℤ, pos, ◌-ℤ◌}
use fish_rpc.Prelude.Outcome.{Returns, Returns->>=, Returns-if, Returns-ok, anyhow}
use fish_rpc.Base.Timer.{Timer, Call, construct, round}
use fish_rpc.Base.Timer.Wheel.{IsValid}
use fish_rpc.Base.Timer.Runs.{round-IsValid}

-- `Timer::init`, by `entity_`: a second interval is ignored.
unfoldable pub init : Option Timer → ℕ → Outcome Timer
unfolding construct
init (some entity) time = ok entity
init none time = construct time

-- What `delay_ms` is called with: the milliseconds of a turn, less those that the last turn took.
unfoldable pub pause : ℤ → ℤ → Timer → Outcome ℤ
pause time_begin time_end t = do
  check (ltb 0 t.time_num) Fault.divide_by_zero
  ok (pos (1000 / t.time_num) -ℤ (time_end -ℤ time_begin))

-- What the clock says in a turn: at its start, when a task is worked off, and at its end.
pub record Turn : Type 0 where
  pub time_begin : ℤ
  pub work_times : ℕ → ℤ
  pub time_end : ℤ

-- The turns of the loop, behind a turn from `time_begin` to `time_end`.
unfoldable pub turns : List Turn → ℤ → ℤ → Timer → Outcome (List Call × Timer)
unfolding pause round
turns [] time_begin time_end t = ok ([], t)
turns (turn ∷ rest) time_begin time_end t = do
  delay ← pause time_begin time_end t
  (calls, t') ← round turn.time_begin turn.work_times t
  (more, t'') ← turns rest turn.time_begin turn.time_end t'
  ok (calls ++ more, t'')

-- `start`.
unfoldable pub start : List Turn → Timer → Outcome (List Call × Timer)
unfolding turns
start clock t =
    if t.working then ok ([], t) else turns clock (pos 0) (pos 0) (record t { working = true })

turns-IsValid :
    (clock : List Turn) (time_begin time_end : ℤ) {t : Timer}
    → IsValid t
    → Returns (λ r. IsValid r.1) (turns clock time_begin time_end t)
unfolding turns
turns-IsValid [] time_begin time_end v = Returns-ok v
turns-IsValid (turn ∷ rest) time_begin time_end {t} v =
    Returns->>= (pause time_begin time_end t) anyhow λ delay u.
      Returns->>= (round turn.time_begin turn.work_times t)
        (record { result = λ (calls, t') e. round-IsValid turn.time_begin turn.work_times v e })
        λ (calls, t') w.
          Returns->>= (turns rest turn.time_begin turn.time_end t')
            (turns-IsValid rest turn.time_begin turn.time_end w) λ (more, t'') x. Returns-ok x

-- However many turns a valid timer takes, it stays valid.
start-IsValid :
    (clock : List Turn) {t : Timer} → IsValid t → Returns (λ r. IsValid r.1) (start clock t)
unfolding start
start-IsValid clock {t} v = Returns-if t.working (Returns-ok v) (
    turns-IsValid clock (pos 0) (pos 0) (record {
      some_slots = v.some_slots;
      rate = v.rate;
      sized = v.sized;
      inside = v.inside;
      idle = v.idle;
      distinct = v.distinct;
    }))
