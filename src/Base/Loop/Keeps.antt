-- ===== src/Base/Loop/Keeps.antt =====
-- What every task keeps of the state outside of the loop of Fish/base/loop.h, its turns keep.
use fish_rpc.Prelude.{◌==◌, ℕ, zero, suc, true, not, Option, none, some, List, [], ◌∷◌}
use fish_rpc.Prelude.Outcome.{Outcome, Fault}
use fish_rpc.Prelude.Outcome.{Returns, Returns->>=, Returns-check, Returns-if, Returns-ok, anyhow}
use fish_rpc.Base.Loop.{
  Loop, has_target, Call, calls, run, run_function, run_temp, turn, while_flag, run_if_set,
  begin_in_current_thread, begin_in_new_thread, Thread, uint_max,
}

module _ {Task S : Type 0} (does : Task → S → Outcome (List (Call Task) × S)) (P : S → Type 0)
    (keeps : (task : Task) (s : S) → P s → Returns (λ r. P r.1) (does task s)) where
  run-keeps : (task : Task) (l : Loop Task) (s : S) → P s → Returns (λ r. P r.1) (run does task l s)
  unfolding run
  run-keeps task l s h =
      Returns->>= (does task s) (keeps task s h)
        (λ (cs, s') k. Returns->>= (calls cs l) anyhow (λ l' u. Returns-ok k))

  run_temp-keeps :
      (tasks : List Task) (l : Loop Task) (s : S)
      → P s
      → Returns (λ r. P r.1) (run_temp does tasks l s)
  unfolding run_temp
  run_temp-keeps [] l s h = Returns-ok h
  run_temp-keeps (task ∷ tasks) l s h =
      Returns->>= (run does task _ s) (run-keeps task _ s h)
        (λ (l', s') k. run_temp-keeps tasks l' s' k)

  run_function-keeps :
      (task : Option Task) (l : Loop Task) (s : S)
      → P s
      → Returns (λ r. P r.1) (run_function does task l s)
  unfolding run_function
  run_function-keeps none l s h = record { result = λ a r. cc }
  run_function-keeps (some task) l s h = run-keeps task l s h

  run_if_set-keeps :
      (task : Option Task) (l : Loop Task) (s : S)
      → P s
      → Returns (λ r. P r.1) (run_if_set does task l s)
  unfolding run_if_set
  run_if_set-keeps none l s h = Returns-ok h
  run_if_set-keeps (some task) l s h = run-keeps task l s h

  while_flag-keeps :
      (n : ℕ) (l : Loop Task) (s : S) → P s → Returns (λ r. P r.2) (while_flag does n l s)
  unfolding while_flag turn
  while_flag-keeps zero l s h = Returns-ok h
  while_flag-keeps (suc n) l s h =
      Returns-if l.flag
        (Returns->>= (turn does l s)
          (Returns->>= (run_function does l.task l s) (run_function-keeps l.task l s h)
            (λ (l', s') k. run_temp-keeps l'.temp_tasks _ s' k))
          (λ (l', s') k. while_flag-keeps n l' s' k))
        (Returns-ok h)

  pub begin_in_new_thread-keeps :
      (n : ℕ) (t : Thread) (l : Loop Task) (s : S)
      → P s
      → Returns (λ r. P r.3) (begin_in_new_thread does n t l s)
  unfolding begin_in_new_thread begin_in_current_thread
  begin_in_new_thread-keeps n t l s h = Returns-check (uint_max == uint_max) Fault.runtime_error (
      Returns-check (has_target l.task) Fault.runtime_error (
        Returns-check (not l.flag) Fault.runtime_error (
          Returns->>= (run_if_set does l.init_task (record l { flag = true }) s)
            (run_if_set-keeps l.init_task _ s h)
            (λ (l', s') k.
              Returns->>= (while_flag does n l' s') (while_flag-keeps n l' s' k)
                (λ (left, l'', s'') j. Returns-ok j)))))
