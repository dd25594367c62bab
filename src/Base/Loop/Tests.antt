-- ===== src/Base/Loop/Tests.antt =====
-- Runs of the loop on concrete tasks.
use fish_rpc.Prelude.{
  ℕ, zero, suc, ◌≡◌, refl, inl, inr, Bool, true, false, some, List, [], ◌∷◌, ◌++◌, arith,
}
use fish_rpc.Prelude.Outcome.{Outcome, ok, fault, Fault}
use fish_rpc.Base.Loop.{Loop, Call, Thread, uint_max, begin_in_current_thread, get_looop_id}
use fish_rpc.Base.Loop.Ends.{Answers, Advances, begin_in_current_thread-ends}
use fish_rpc.Base.Loop.Once.{begin_in_current_thread-once}

-- Task 0 counts down and adds two tasks each time; at 0 it closes the loop. Task 1 adds task 2.
abbrev does : ℕ → ℕ → Outcome (List (Call ℕ) × ℕ)
does zero zero = ok (Call.calls_close_loop ∷ [], 0)
does zero (suc n) = ok (Call.calls_add_temp_task 1 ∷ Call.calls_add_temp_task 3 ∷ [], n)
does (suc zero) n = ok (Call.calls_add_temp_task 2 ∷ [], n)
does (suc (suc k)) n = ok ([], n)

abbrev counting : Loop ℕ
counting = record {
  flag = false;
  temp_tasks = [];
  init_task = some 3;
  task = some 0;
  name = [];
  ran = [];
  added = [];
}

abbrev thread : Thread
thread = record { id_sum = 6; thread_loop_id = uint_max }

abbrev counted : Thread × Bool × Loop ℕ × ℕ
counted = (
  record { id_sum = 7; thread_loop_id = 7 },
  true,
  record {
    flag = false;
    temp_tasks = [];
    init_task = some 3;
    task = some 0;
    name = [];
    ran = 1 ∷ 3 ∷ 2 ∷ 1 ∷ 3 ∷ 2 ∷ [];
    added = 1 ∷ 3 ∷ 2 ∷ 1 ∷ 3 ∷ 2 ∷ [];
  },
  0,
)

counts : begin_in_current_thread does 9 thread counting 2 ≡ ok counted
unfolding begin_in_current_thread
counts = refl

answers : (task s : ℕ) → Answers does (λ n. n) task s
answers zero zero = (_, _, refl, (refl, tt), omega arith)
answers zero (suc n) = (_, _, refl, (refl, (refl, tt)), omega arith)
answers (suc zero) n = (_, _, refl, (refl, tt), omega arith)
answers (suc (suc k)) n = (_, _, refl, tt, omega arith)

advances : (s : ℕ) → Advances does (λ n. n) 0 s
advances zero = (_, _, refl, (refl, tt), inl refl)
advances (suc n) = (_, _, refl, (refl, (refl, tt)), inr (omega arith))

begin_in_current_thread-ends_example :
    (l' : Loop ℕ) × (s' : ℕ) × (begin_in_current_thread does 3 thread counting 2
      ≡ ok (
        record { id_sum = get_looop_id thread; thread_loop_id = get_looop_id thread },
        true,
        l',
        s',
      ))
    × (l'.flag ≡ false)
    × (l'.ran ++ l'.temp_tasks ≡ l'.added)
begin_in_current_thread-ends_example =
    begin_in_current_thread-ends does (λ n. n) answers 0 advances 3 thread counting 2 refl refl refl
      refl (omega arith)

begin_in_current_thread-once_example :
    begin_in_current_thread does 4 counted.0 counting 5 ≡ fault Fault.runtime_error
begin_in_current_thread-once_example =
    begin_in_current_thread-once does 9 4 thread counted.0 counting counted.2 counting 2 0 5 true
      (omega arith) counts
