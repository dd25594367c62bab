-- ===== src/Base/Timer/Wheel.antt =====
-- What every timer of source/base/timer.cpp keeps to, and where a task is put.
use fish_rpc.Prelude.{
  ltb, lt→ltb, length, get_or, length-set, get_or-set, ℕ, suc, ◌+◌, ◌*◌, ◌/◌, ◌≤◌, ◌<◌, ◌≡◌, ap,
  ◌∙◌, Bool, true, false, [], arith,
}
use fish_rpc.Prelude.Outcome.{ok}
use fish_rpc.Prelude.Int.{ℤ, pos, negsuc, pos_part, neg_part, sub_ℕ, ◌+ℤ◌, quot, rem}
use native.Mathlib.Nat.{mod-lt, div-eq_of_lt, div-eq_of_lt-le, le-div_iff_mul-le}
use native.Mathlib.Decide.{dec_lt}
use fish_rpc.Prelude.Assoc.{HasDistinctKeys}
use fish_rpc.Base.Timer.{Timer, TimerTask, slot_index, put_in, add_once_task, new_task}

pub record IsValid (t : Timer) : Type 0 where
  pub some_slots : 0 < t.time_num
  pub rate : t.time_num ≤ 1000
  pub sized : length t.time_wheel ≡ t.time_num
  pub inside : t.wheel_index < t.time_num
  pub idle : (i : ℕ) → 2 ≤ i → get_or t.time_wheel i [] ≡ []
  pub distinct : HasDistinctKeys t.priod_timer_map

-- A quotient of what is less than twice the divisor, and more than its negative.
quot-low :
    (z : ℤ) (d : ℕ)
    → 0 < d
    → pos_part z + 1 < 2 * d
    → neg_part z < d
    → (s : ℕ) × (quot z d ≡ pos s) × (s < 2) × (s < d)
quot-low (pos n) d h small neg = elim (dec_lt n d) [
  | yes lt ↦ (0, ap pos (div-eq_of_lt lt), omega arith, omega arith)
  | no ge ↦
      (1, ap pos (div-eq_of_lt-le {k = 1} d (omega arith) (omega arith)), omega arith, omega arith)
]
quot-low (negsuc n) d h small neg =
    (0, ap (λ k. sub_ℕ 0 k) (div-eq_of_lt neg), omega arith, omega arith)

rem-bounds : (z : ℤ) (d : ℕ) → 0 < d → (pos_part (rem z d) < d) × (neg_part (rem z d) < d)
rem-bounds (pos n) d h = (mod-lt n h, h)
rem-bounds (negsuc n) d h = grind (arith, mod-lt (suc n) h)

sum-bounds :
    (z : ℤ) (w d : ℕ)
    → pos_part z < d
    → neg_part z < d
    → w < d
    → (pos_part (z +ℤ pos w) + 1 < 2 * d) × (neg_part (z +ℤ pos w) < d)
sum-bounds z w d up down h = grind arith

-- Any time leads to one of the first two slots.
pub slot_index-low :
    (time : ℤ) {t : Timer}
    → IsValid t
    → (s : ℕ) × (slot_index time t ≡ ok s) × (s < 2) × (s < t.time_num)
unfolding slot_index
slot_index-low time {t} v =
    let per = 1000 / t.time_num in
    let (up, down) = rem-bounds (quot time per) t.time_num v.some_slots in
    let (high, deep) =
      sum-bounds (rem (quot time per) t.time_num) t.wheel_index t.time_num up down v.inside in
    let (s, e, low, lt) =
      quot-low (rem (quot time per) t.time_num +ℤ pos t.wheel_index) t.time_num v.some_slots high
        deep in
    let divides : ltb 0 per ≡ true = lt→ltb 0 per (
      (le-div_iff_mul-le {k = t.time_num} {x = 1} {y = 1000} v.some_slots).1
        (omega (arith, v.rate))) in
    (s, rw (lt→ltb 0 t.time_num v.some_slots, divides, e) (ground (arith, v.sized)), low, lt)

pub put_in-IsValid :
    (i : ℕ) (task : TimerTask) {t : Timer}
    → i < 2
    → i < t.time_num
    → IsValid t
    → IsValid (put_in i task t)
unfolding put_in
put_in-IsValid i task {t} low lt v = record {
  some_slots = v.some_slots;
  rate = v.rate;
  sized = length-set _ _ _ ∙ v.sized;
  inside = v.inside;
  idle =
      λ j h. get_or-set t.time_wheel i j _ [] (omega (arith, v.sized)) ∙ ground (arith, v.idle j h);
  distinct = v.distinct;
}

-- In a valid timer `addOnceTask` does not fault, and it puts the task into one of the first two
-- slots.
pub add_once_task-lands :
    (now : ℤ) (needs_time : Bool) (task : ℕ) (time : ℤ) {t : Timer}
    → IsValid t
    → (s : ℕ) × (add_once_task now needs_time task time t
        ≡ ok (put_in s (new_task now needs_time task time false 0) t))
      × (s < 2)
      × IsValid (put_in s (new_task now needs_time task time false 0) t)
unfolding add_once_task
add_once_task-lands now needs_time task time {t} v =
    let (s, e, low, lt) = slot_index-low time v in
    (s, rw e, low, put_in-IsValid s (new_task now needs_time task time false 0) low lt v)
