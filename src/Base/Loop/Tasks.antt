-- ===== src/Base/Loop/Tasks.antt =====
-- The temporary tasks of the loop of Fish/base/loop.h over any number of its turns.
use fish_rpc.Prelude.{
  Bool-cases, ℕ, zero, suc, ◌≡◌, sym, ap, ◌∙◌, inl, inr, Option, none, some, List, [], ◌∷◌, ◌++◌,
  append-nil, append_assoc,
}
use fish_rpc.Prelude.Outcome.{Outcome}
use fish_rpc.Prelude.Outcome.{Returns, Returns->>=, Returns-if, Returns-ok, anyhow}
use fish_rpc.Base.Loop
use fish_rpc.Base.Loop.{
  Loop, Call, call, calls, run, run_function, run_temp, turn, while_flag, run_if_set,
  begin_in_current_thread, Thread, get_looop_id, uint_max,
}

module _ {Task : Type 0} where
  -- The tasks that were run, those that were taken and those that wait are, in order, the tasks
  -- that were added.
  abbrev pub Accounts : List Task → Loop Task → Type 0
  Accounts taken l = l.ran ++ (taken ++ l.temp_tasks) ≡ l.added

  -- The same for one more task at the end of two of the lists.
  Accounts-added :
      (taken : List Task) (task : Task) (l : Loop Task)
      → Accounts taken l
      → l.ran ++ (taken ++ (l.temp_tasks ++ (task ∷ []))) ≡ l.added ++ (task ∷ [])
  Accounts-added taken task l h =
      ap (λ t. l.ran ++ t) (sym (append_assoc taken l.temp_tasks (task ∷ [])))
      ∙ sym (append_assoc l.ran (taken ++ l.temp_tasks) (task ∷ []))
      ∙ ap (λ t. t ++ (task ∷ [])) h

  pub calls-Accounts :
      (taken : List Task) (cs : List (Call Task)) (l : Loop Task)
      → Accounts taken l
      → Returns (Accounts taken) (calls cs l)
  unfolding calls call Loop.set_task Loop.set_init_task Loop.close_loop Loop.add_temp_task
  calls-Accounts taken [] l h = Returns-ok h
  calls-Accounts taken (Call.calls_add_temp_task task ∷ cs) l h =
      calls-Accounts taken cs _ (Accounts-added taken task l h)
  calls-Accounts taken (Call.calls_set_task task ∷ cs) l h = elim (Bool-cases l.flag) [
    | inl e ↦ rw e (record { result = λ a r. cc })
    | inr e ↦ rw e (calls-Accounts taken cs _ h)
  ]
  calls-Accounts taken (Call.calls_set_init_task task ∷ cs) l h = calls-Accounts taken cs _ h
  calls-Accounts taken (Call.calls_close_loop ∷ cs) l h = calls-Accounts taken cs _ h

module _ {Task S : Type 0} (does : Task → S → Outcome (List (Call Task) × S)) where
  pub run-Accounts :
      (taken : List Task) (task : Task) (l : Loop Task) (s : S)
      → Accounts taken l
      → Returns (λ r. Accounts taken r.0) (run does task l s)
  unfolding run
  run-Accounts taken task l s h =
      Returns->>= (does task s) anyhow (λ (cs, s') u.
        Returns->>= (calls cs l) (calls-Accounts taken cs l h) (λ l' a. Returns-ok a))

  pub run_temp-Accounts :
      (tasks : List Task) (l : Loop Task) (s : S)
      → Accounts tasks l
      → Returns (λ r. Accounts [] r.0) (run_temp does tasks l s)
  unfolding run_temp
  run_temp-Accounts [] l s h = Returns-ok h
  run_temp-Accounts (task ∷ tasks) l s h =
      let start : Loop Task = record l { ran = l.ran ++ (task ∷ []) } in
      Returns->>= (run does task start s)
        (run-Accounts tasks task start s
          (append_assoc l.ran (task ∷ []) (tasks ++ l.temp_tasks) ∙ h))
        (λ (l', s') a. run_temp-Accounts tasks l' s' a)

  pub run_function-Accounts :
      (task : Option Task) (l : Loop Task) (s : S)
      → Accounts [] l
      → Returns (λ r. Accounts [] r.0) (run_function does task l s)
  unfolding run_function
  run_function-Accounts none l s h = record { result = λ a r. cc }
  run_function-Accounts (some task) l s h = run-Accounts [] task l s h

  pub turn-Accounts :
      (l : Loop Task) (s : S) → Accounts [] l → Returns (λ r. Accounts [] r.0) (turn does l s)
  unfolding turn
  turn-Accounts l s h =
      Returns->>= (run_function does l.task l s) (run_function-Accounts l.task l s h) (λ (l', s') a.
        run_temp-Accounts l'.temp_tasks (record l' { temp_tasks = [] }) s'
          (ap (λ t. l'.ran ++ t) (append-nil l'.temp_tasks) ∙ a))

  pub while_flag-Accounts :
      (n : ℕ) (l : Loop Task) (s : S)
      → Accounts [] l
      → Returns (λ r. Accounts [] r.1) (while_flag does n l s)
  unfolding while_flag
  while_flag-Accounts zero l s h = Returns-ok h
  while_flag-Accounts (suc n) l s h =
      Returns-if l.flag
        (Returns->>= (turn does l s) (turn-Accounts l s h)
          (λ (l', s') a. while_flag-Accounts n l' s' a))
        (Returns-ok h)

  pub run_if_set-Accounts :
      (task : Option Task) (l : Loop Task) (s : S)
      → Accounts [] l
      → Returns (λ r. Accounts [] r.0) (run_if_set does task l s)
  unfolding run_if_set
  run_if_set-Accounts none l s h = Returns-ok h
  run_if_set-Accounts (some task) l s h = run-Accounts [] task l s h
