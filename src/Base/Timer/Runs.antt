-- ===== src/Base/Timer/Runs.antt =====
-- Base/Timer: the wheel in every state that the operations and the turns of the loop lead to.
use fish_rpc.Prelude.{
  ltb, ◌==◌, if◌then◌else◌, ltb→lt, lt→ltb, ==→eq, Bool-cases, Option-cases, length, get_or,
  length-set, length-replicate, get_or-set, get_or-replicate, ℕ, ◌/◌, ◌≤◌, ◌<◌, ◌≡◌, sym, ap, ◌∙◌,
  subst, inl, inr, Bool, true, List, [], arith,
}
use fish_rpc.Prelude.Outcome.{ok, >>=-eq-ok, ok-injective}
use fish_rpc.Prelude.Int.{ℤ}
use native.Mathlib.Nat.{le-div_iff_mul-le, div-le_self}
use fish_rpc.Prelude.Assoc.{
  HasDistinctKeys, insert-HasDistinctKeys, erase-HasDistinctKeys, lookup, insert, erase,
}
use fish_rpc.Base.Timer.{
  Timer, TimerTask, Seen, Call, construct, add_once_task, add_priod_task, remove_priod_task, scan,
  works, advance, round, new_task,
}
use fish_rpc.Base.Timer.Wheel.{IsValid, slot_index-low, put_in-IsValid, add_once_task-lands}

with_map-IsValid :
    (m : List (ℕ × TimerTask)) {t : Timer}
    → HasDistinctKeys m
    → IsValid t
    → IsValid (record t { priod_timer_map = m })
with_map-IsValid m h v = record {
  some_slots = v.some_slots;
  rate = v.rate;
  sized = v.sized;
  inside = v.inside;
  idle = v.idle;
  distinct = h;
}

add_priod_task-IsValid :
    (now : ℤ) (needs_time : Bool) (task : ℕ) (time : ℤ) (id : ℕ) {t : Timer} {b : Bool} {t' : Timer}
    → IsValid t
    → add_priod_task now needs_time task time id t ≡ ok (b, t')
    → IsValid t'
unfolding add_priod_task
add_priod_task-IsValid now needs_time task time id {t} {b} {t'} v h =
    elim (Option-cases (lookup id t.priod_timer_map)) [
      | inr (old, e) ↦
          subst IsValid
            (ap (λ (x : Bool × Timer). x.1) (ok-injective (rw (e, add_priod_task) at h))) v
      | inl e ↦
          let (s, q, low, lt) = slot_index-low time v in
          subst IsValid
            (ap (λ (x : Bool × Timer). x.1) (ok-injective (rw (e, add_priod_task, q) at h)))
            (put_in-IsValid s (new_task now needs_time task time true id) low lt (
              with_map-IsValid
                (insert id (new_task now needs_time task time true id) t.priod_timer_map)
                (insert-HasDistinctKeys id _ t.priod_timer_map v.distinct) v))
    ]

remove_priod_task-IsValid : (id : ℕ) {t : Timer} → IsValid t → IsValid (remove_priod_task id t).1
unfolding remove_priod_task
remove_priod_task-IsValid id {t} v = elim (Option-cases (lookup id t.priod_timer_map)) [
  | inl e ↦ rw (e, remove_priod_task) v
  | inr (old, e) ↦
      rw (e, remove_priod_task)
        (with_map-IsValid (erase id t.priod_timer_map)
          (erase-HasDistinctKeys id t.priod_timer_map v.distinct) v)
]

pub advance-lt : (n i : ℕ) → i < n → advance n i < n
unfolding advance
advance-lt n i h = ground arith

-- An empty slot stays empty.
works-empty :
    (now : ℤ) (clock : ℕ → ℤ) (slot : List TimerTask) {seen : List Seen}
    → slot ≡ []
    → scan now slot ≡ ok seen
    → (works clock seen).1 ≡ []
unfolding scan works
works-empty now clock slot {seen} bare h =
    let e : seen ≡ [] = sym (ok-injective (rw bare at h)) in rw e

pub round-IsValid :
    (now : ℤ) (clock : ℕ → ℤ) {t : Timer} {calls : List Call} {t' : Timer}
    → IsValid t
    → round now clock t ≡ ok (calls, t')
    → IsValid t'
unfolding round
round-IsValid now clock {t} {calls} {t'} v h =
    let in_range = lt→ltb t.wheel_index (length t.time_wheel) (omega (arith, v.sized, v.inside)) in
    let (seen, sc, q) =
      >>=-eq-ok (scan now (get_or t.time_wheel t.wheel_index [])) _ (rw in_range at h) in
    subst IsValid (ap (λ (x : List Call × Timer). x.1) (ok-injective q)) (record {
      some_slots = v.some_slots;
      rate = v.rate;
      sized = length-set _ _ _ ∙ v.sized;
      inside = advance-lt t.time_num t.wheel_index v.inside;
      idle = λ j far.
          get_or-set t.time_wheel t.wheel_index j _ [] (omega (arith, v.sized, v.inside))
          ∙ kept j far seen sc;
      distinct = v.distinct;
    })
  where
    kept :
        (j : ℕ)
        → 2 ≤ j
        → (seen : List Seen) → scan now (get_or t.time_wheel t.wheel_index []) ≡ ok seen
        → (if t.wheel_index == j then (works clock seen).1 else get_or t.time_wheel j []) ≡ []
    kept j far seen sc = elim (Bool-cases (t.wheel_index == j)) [
      | inl e ↦ rw e (
          works-empty now clock (get_or t.time_wheel t.wheel_index [])
            (v.idle t.wheel_index (omega (arith, ==→eq _ _ e, far))) sc)
      | inr e ↦ rw e (v.idle j far)
    ]

construct-IsValid :
    (time_interval : ℕ) {t : Timer}
    → time_interval ≤ 1000
    → construct time_interval ≡ ok t
    → IsValid t
unfolding construct
construct-IsValid time_interval {t} small h = elim (Bool-cases (ltb 0 time_interval)) [
  | inr e ↦ cc (rw e at h)
  | inl e ↦
      let positive : 0 < time_interval = ltb→lt 0 time_interval e in
      let some : 1 ≤ 1000 / time_interval =
        (le-div_iff_mul-le {k = time_interval} {x = 1} {y = 1000} positive).1 (omega arith) in
      subst IsValid (ok-injective (rw e at h)) (record {
        some_slots = some;
        rate = div-le_self 1000 time_interval;
        sized = length-replicate (1000 / time_interval) [];
        inside = some;
        idle = λ i far. get_or-replicate (1000 / time_interval) i [];
        distinct = tt;
      })
]

-- One operation of a timer, on whatever thread.
pub data Step (t u : Timer) : Type 0 where
  once :
      (now : ℤ) (needs_time : Bool) (task : ℕ) (time : ℤ)
      → add_once_task now needs_time task time t ≡ ok u
      → Step t u
  priod :
      (now : ℤ) (needs_time : Bool) (task : ℕ) (time : ℤ) (id : ℕ) (b : Bool)
      → add_priod_task now needs_time task time id t ≡ ok (b, u)
      → Step t u
  remove : (id : ℕ) → u ≡ (remove_priod_task id t).1 → Step t u
  turn :
      (now : ℤ) (clock : ℕ → ℤ) (calls : List Call) → round now clock t ≡ ok (calls, u) → Step t u

pub data Reach (t : Timer) : Timer → Type 0 where
  here : Reach t t
  next : {u w : Timer} → Reach t u → Step u w → Reach t w

Step-IsValid : {t u : Timer} → Step t u → IsValid t → IsValid u
Step-IsValid {t} {u} (once now needs_time task time e) v =
    let (s, q, low, v') = add_once_task-lands now needs_time task time v in
    subst IsValid (ok-injective (sym q ∙ e)) v'
Step-IsValid (priod now needs_time task time id b e) v =
    add_priod_task-IsValid now needs_time task time id v e
Step-IsValid (remove id e) v = subst IsValid (sym e) (remove_priod_task-IsValid id v)
Step-IsValid (turn now clock calls e) v = round-IsValid now clock v e

Steps-IsValid : {t u : Timer} → IsValid t → Reach t u → IsValid u
Steps-IsValid v here = v
Steps-IsValid v (next r st) = Step-IsValid st (Steps-IsValid v r)

-- In every timer that any operations and turns lead to from the constructor, for an interval of at
-- most 1000 milliseconds, the index lies in the wheel, no two entries of the map of periodic tasks
-- have the same id, and no slot but the first two holds a task, whatever times the tasks were
-- given. (A task that is removed from the map stays in the wheel, so there may be several of one id
-- in it.)
pub Reach-IsValid :
    (time_interval : ℕ) {t u : Timer}
    → time_interval ≤ 1000
    → construct time_interval ≡ ok t
    → Reach t u
    → IsValid u
Reach-IsValid time_interval small e r = Steps-IsValid (construct-IsValid time_interval small e) r
