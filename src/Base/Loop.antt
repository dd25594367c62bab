-- ===== src/Base/Loop.antt =====
-- Fish/base/loop.h and source/base/loop.cpp: a thread that runs one task over and over, and between
-- two runs the temporary tasks that it was given. What a task does when it is called is a parameter:
-- it changes a state of its own and calls the loop. The calls that other threads make while it runs
-- are among its calls. A function that holds no target is `none`, except among the temporary tasks.
pub mod Tasks
pub mod Ends
pub mod Once
pub mod Keeps
mod Tests
use fish_rpc.Prelude.{
  ◌==◌, if◌then◌else◌, ℕ, zero, suc, ◌+◌, ◌-◌, ◌%◌, ◌^◌, Bool, true, false, not, Option, none, some,
  List, [], ◌∷◌, ◌++◌,
}
use fish_rpc.Prelude.Outcome.{Outcome, ok, fault, Fault, ◌>>=◌, ◌>>◌, check}

-- `UINT_MAX`, which stands for no loop.
abbrev pub uint_max : ℕ
uint_max = 2 ^ 32 - 1

-- `ran` are the temporary tasks that were run so far, `added` those that were ever added.
pub record Loop (Task : Type 0) : Type 0 where
  pub flag : Bool
  pub temp_tasks : List Task
  pub init_task : Option Task
  pub task : Option Task
  pub name : List ℕ
  pub ran : List Task
  pub added : List Task

-- The variables that are not the loop's: `idSum` of the process, and `thread_loop_id` of a thread.
pub record Thread : Type 0 where
  pub id_sum : ℕ
  pub thread_loop_id : ℕ

-- `getLooopId`, in unsigned ints.
unfoldable pub get_looop_id : Thread → ℕ
get_looop_id t = (t.id_sum + 1) % 2 ^ 32

-- The public functions, as a task calls them; that a task begins a loop is not modelled.
pub data Call (Task : Type 0) : Type 0 where
  calls_add_temp_task calls_set_task calls_set_init_task : Task → Call Task
  calls_close_loop : Call Task

module _ {Task : Type 0} where
  -- Whether a `std::function` can be called.
  abbrev pub has_target : Option Task → Bool
  has_target none = false
  has_target (some task) = true

  -- `Loop(name)`; the flag has the value that an atomic starts with.
  unfoldable pub named : List ℕ → Loop Task
  named name = record {
    flag = false;
    temp_tasks = [];
    init_task = none;
    task = none;
    name = name;
    ran = [];
    added = [];
  }

  -- `Loop(task)`.
  unfoldable pub with_task : Option Task → Loop Task
  unfolding named
  with_task task = record (named []) { task = task }

  unfoldable pub set_task : Option Task → Loop Task → Outcome (Loop Task)
  set_task task l = do check (not l.flag) Fault.runtime_error; ok (record l { task = task })

  unfoldable pub set_init_task : Option Task → Loop Task → Loop Task
  set_init_task task l = record l { init_task = task }

  unfoldable pub set_name : List ℕ → Loop Task → Loop Task
  set_name name l = record l { name = name }

  unfoldable pub close_loop : Loop Task → Loop Task
  close_loop l = record l { flag = false }

  unfoldable pub add_temp_task : Task → Loop Task → Loop Task
  add_temp_task task l = record l {
    temp_tasks = l.temp_tasks ++ (task ∷ []);
    added = l.added ++ (task ∷ []);
  }

  unfoldable pub call : Call Task → Loop Task → Outcome (Loop Task)
  unfolding set_task set_init_task close_loop add_temp_task
  call (calls_add_temp_task task) l = ok (add_temp_task task l)
  call (calls_set_task task) l = set_task (some task) l
  call (calls_set_init_task task) l = ok (set_init_task (some task) l)
  call calls_close_loop l = ok (close_loop l)

  unfoldable pub calls : List (Call Task) → Loop Task → Outcome (Loop Task)
  unfolding call
  calls [] l = ok l
  calls (c ∷ cs) l = do l' ← call c l; calls cs l'

module _ {Task S : Type 0} (does : Task → S → Outcome (List (Call Task) × S)) where
  -- A task is called.
  unfoldable pub run : Task → Loop Task → S → Outcome (Loop Task × S)
  unfolding calls
  run task l s = do (cs, s') ← does task s; l' ← calls cs l; ok (l', s')

  -- A `std::function` is called.
  unfoldable pub run_function : Option Task → Loop Task → S → Outcome (Loop Task × S)
  unfolding run
  run_function none l s = fault Fault.bad_function_call
  run_function (some task) l s = run task l s

  -- The loop over the tasks that were taken.
  unfoldable pub run_temp : List Task → Loop Task → S → Outcome (Loop Task × S)
  unfolding run
  run_temp [] l s = ok (l, s)
  run_temp (task ∷ tasks) l s = do
    (l', s') ← run task (record l { ran = l.ran ++ (task ∷ []) }) s
    run_temp tasks l' s'

  -- One pass of the loop in `beginInCurrentThread`.
  unfoldable pub turn : Loop Task → S → Outcome (Loop Task × S)
  unfolding run_function run_temp
  turn l s = do
    (l', s') ← run_function l.task l s
    run_temp l'.temp_tasks (record l' { temp_tasks = [] }) s'

  -- At most so many passes; whether the loop is left.
  unfoldable pub while_flag : ℕ → Loop Task → S → Outcome (Bool × Loop Task × S)
  unfolding turn
  while_flag zero l s = ok (not l.flag, l, s)
  while_flag (suc n) l s =
      if l.flag then (do (l', s') ← turn l s; while_flag n l' s') else ok (true, l, s)

  -- `if(initTask_) initTask_()`.
  unfoldable pub run_if_set : Option Task → Loop Task → S → Outcome (Loop Task × S)
  unfolding run
  run_if_set none l s = ok (l, s)
  run_if_set (some task) l s = run task l s

  unfoldable pub begin_in_current_thread :
      ℕ → Thread → Loop Task → S → Outcome (Thread × Bool × Loop Task × S)
  unfolding while_flag run_if_set get_looop_id
  begin_in_current_thread n t l s = do
    check (t.thread_loop_id == uint_max) Fault.runtime_error
    check (has_target l.task) Fault.runtime_error
    check (not l.flag) Fault.runtime_error
    let id = get_looop_id t
    (l', s') ← run_if_set l.init_task (record l { flag = true }) s
    (left, l'', s'') ← while_flag n l' s'
    ok (record { id_sum = id; thread_loop_id = id }, left, l'', s'')

  -- `beginInNewThread`: the thread has no loop yet.
  unfoldable pub begin_in_new_thread :
      ℕ → Thread → Loop Task → S → Outcome (Thread × Bool × Loop Task × S)
  unfolding begin_in_current_thread
  begin_in_new_thread n t l s =
      begin_in_current_thread n (record t { thread_loop_id = uint_max }) l s
