-- ===== src/Base/Loop/Once.antt =====
-- A thread begins one loop only: Fish/base/loop.h never takes its id back.
use fish_rpc.Prelude.{
  ◌==◌, ℕ, ◌+◌, ◌-◌, ◌%◌, ◌^◌, ◌<◌, ◌≡◌, refl, ◌≢◌, Bool, true, false, not, List, arith,
}
use fish_rpc.Prelude.Outcome.{Outcome, ok, fault, Fault}
use fish_rpc.Prelude.Outcome.{Returns, Returns->>=, Returns-check, Returns-ok, anyhow}
use fish_rpc.Base.Loop.{
  Loop, has_target, Call, while_flag, run_if_set, begin_in_current_thread, Thread, get_looop_id,
  uint_max,
}

-- What a thread that has a loop does with another one.
begin_in_current_thread-refuses :
    {Task S : Type 0} (does : Task → S → Outcome (List (Call Task) × S)) (n : ℕ) (t : Thread)
    (l : Loop Task) (s : S)
    → t.thread_loop_id ≢ uint_max
    → begin_in_current_thread does n t l s ≡ fault Fault.runtime_error
unfolding begin_in_current_thread
begin_in_current_thread-refuses does n t l s taken =
    let e : (t.thread_loop_id == uint_max) ≡ false = ground arith in rw e refl

thread_after :
    {Task S : Type 0} (does : Task → S → Outcome (List (Call Task) × S)) (n : ℕ) (t : Thread)
    (l : Loop Task) (s : S)
    → Returns (λ r. r.0.thread_loop_id ≡ get_looop_id t) (begin_in_current_thread does n t l s)
unfolding begin_in_current_thread
thread_after does n t l s = Returns-check (t.thread_loop_id == uint_max) Fault.runtime_error (
    Returns-check (has_target l.task) Fault.runtime_error (
      Returns-check (not l.flag) Fault.runtime_error (
        Returns->>= (run_if_set does l.init_task (record l { flag = true }) s) anyhow (λ (l', s') u.
          Returns->>= (while_flag does n l' s') anyhow (λ (left, l'', s'') v. Returns-ok refl)))))

-- Once a loop was begun on a thread and has returned, every loop that is begun on that thread later
-- throws, as long as fewer than 2 ^ 32 - 2 ids were given before.
pub begin_in_current_thread-once :
    {Task S : Type 0} (does : Task → S → Outcome (List (Call Task) × S)) (n k : ℕ) (t t' : Thread)
    (l l' other : Loop Task) (s s' now : S) (left : Bool)
    → t.id_sum < 2 ^ 32 - 2
    → begin_in_current_thread does n t l s ≡ ok (t', left, l', s')
    → begin_in_current_thread does k t' other now ≡ fault Fault.runtime_error
unfolding get_looop_id
begin_in_current_thread-once does n k t t' l l' other s s' now left few ran =
    let id : t'.thread_loop_id ≡ (t.id_sum + 1) % 2 ^ 32 =
      (thread_after does n t l s).result _ ran in
    begin_in_current_thread-refuses does k t' other now (λ e. omega arith)
