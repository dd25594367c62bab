-- ===== src/Base/Loop/Ends.antt =====
-- How the loop of Fish/base/loop.h ends, and what its thread and its tasks are left with.
use fish_rpc.Prelude.{
  if◌then◌else◌, Bool-cases, All, ℕ, zero, suc, ◌≤◌, ◌<◌, ◌≡◌, refl, ap, ◌∙◌, ◌⊎◌, inl, inr, Bool,
  true, false, not, Option, none, some, List, [], ◌∷◌, ◌++◌, arith,
}
use fish_rpc.Prelude.Outcome.{Outcome, ok, Fault, ◌>>=◌, ◌>>◌, check}
use fish_rpc.Base.Loop
use fish_rpc.Base.Loop.{
  Loop, has_target, Call, call, calls, run, run_function, run_temp, turn, while_flag, run_if_set,
  begin_in_current_thread, Thread, get_looop_id, uint_max,
}
use fish_rpc.Base.Loop.Tasks.{Accounts, while_flag-Accounts, run_if_set-Accounts}

-- A call that `setTask` is not: it throws while the loop runs.
abbrev pub is_quiet : {Task : Type 0} → Call Task → Bool
is_quiet (Call.calls_add_temp_task task) = true
is_quiet (Call.calls_set_task task) = false
is_quiet (Call.calls_set_init_task task) = true
is_quiet Call.calls_close_loop = true

abbrev pub closes : {Task : Type 0} → List (Call Task) → Bool
closes [] = false
closes (Call.calls_close_loop ∷ cs) = true
closes (Call.calls_add_temp_task task ∷ cs) = closes cs
closes (Call.calls_set_task task ∷ cs) = closes cs
closes (Call.calls_set_init_task task ∷ cs) = closes cs

-- `l'` has the task of `l`, and its flag is down where that of `l` is.
abbrev Follows : {Task : Type 0} → Loop Task → Loop Task → Type 0
Follows l l' = (l'.task ≡ l.task) × (l.flag ≡ false → l'.flag ≡ false)

calls-quiet :
    {Task : Type 0} (cs : List (Call Task)) (l : Loop Task)
    → All (λ c. is_quiet c ≡ true) cs
    → (l' : Loop Task) × (calls cs l ≡ ok l') × Follows l l' × (closes cs ≡ true → l'.flag ≡ false)
unfolding calls call Loop.set_task Loop.set_init_task Loop.close_loop Loop.add_temp_task
calls-quiet [] l h = (l, refl, (refl, λ e. e), λ e. cc)
calls-quiet (Call.calls_add_temp_task task ∷ cs) l h = calls-quiet cs _ h.1
calls-quiet (Call.calls_set_task task ∷ cs) l h = cc (h.0)
calls-quiet (Call.calls_set_init_task task ∷ cs) l h = calls-quiet cs _ h.1
calls-quiet (Call.calls_close_loop ∷ cs) l h =
    let (l', e, (t, f), c) = calls-quiet cs (Loop.close_loop l) h.1 in
    (l', e, (t, λ u. f refl), λ u. f refl)

passes : {B : Type 0} (b : Bool) (e : Fault) (m : Outcome B) → b ≡ true → (check b e >> m) ≡ m
passes b e m h = ap (λ t. check t e >> m) h

-- The passes of the loop behind the three tests.
begin-parts :
    {Task S : Type 0} (does : Task → S → Outcome (List (Call Task) × S)) (n : ℕ) (t : Thread)
    (l l' l'' : Loop Task) (s s' s'' : S) (main : Task)
    → t.thread_loop_id ≡ uint_max
    → l.task ≡ some main
    → l.flag ≡ false
    → run_if_set does l.init_task (record l { flag = true }) s ≡ ok (l', s')
    → while_flag does n l' s' ≡ ok (true, l'', s'')
    → begin_in_current_thread does n t l s
      ≡ ok (record { id_sum = get_looop_id t; thread_loop_id = get_looop_id t }, true, l'', s'')
unfolding begin_in_current_thread
begin-parts does n t l l' l'' s s' s'' main alone has down e e' =
    passes _ _ _ (rw alone refl)
    ∙ passes _ _ _ (ap has_target has)
    ∙ passes _ _ _ (ap not down)
    ∙ rw e (rw e' refl)

while_flag-down :
    {Task S : Type 0} (does : Task → S → Outcome (List (Call Task) × S)) (n : ℕ) (l : Loop Task)
    (s : S)
    → l.flag ≡ false
    → while_flag does n l s ≡ ok (true, l, s)
unfolding while_flag
while_flag-down does zero l s h = rw h refl
while_flag-down does (suc n) l s h = rw h refl

while_flag-turn :
    {Task S : Type 0} (does : Task → S → Outcome (List (Call Task) × S)) (n : ℕ) (l l' : Loop Task)
    (s s' : S)
    → l.flag ≡ true
    → turn does l s ≡ ok (l', s')
    → while_flag does (suc n) l s ≡ while_flag does n l' s'
unfolding while_flag
while_flag-turn does n l l' s s' h e =
    ap
      (λ flag.
        if flag then (do (l', s') ← turn does l s; while_flag does n l' s') else ok (true, l, s))
      h
    ∙ ap (λ m. do (l', s') ← m; while_flag does n l' s') e

module _ {Task S : Type 0} (does : Task → S → Outcome (List (Call Task) × S))
    (measure : S → ℕ) where
  -- A task that returns, that does not call `setTask` and does not raise the measure.
  abbrev pub Answers : Task → S → Type 0
  Answers task s =
      (cs : List (Call Task)) × (s' : S) × (does task s ≡ ok (cs, s'))
      × All (λ c. is_quiet c ≡ true) cs
      × (measure s' ≤ measure s)

  -- A task that, besides, closes the loop or lowers the measure.
  abbrev pub Advances : Task → S → Type 0
  Advances task s =
      (cs : List (Call Task)) × (s' : S) × (does task s ≡ ok (cs, s'))
      × All (λ c. is_quiet c ≡ true) cs
      × ((closes cs ≡ true) ⊎ (measure s' < measure s))

  module _ (answers : (task : Task) (s : S) → Answers task s) where
    run-answers :
        (task : Task) (l : Loop Task) (s : S)
        → (l' : Loop Task) × (s' : S) × (run does task l s ≡ ok (l', s'))
          × Follows l l'
          × (measure s' ≤ measure s)
    unfolding run
    run-answers task l s =
        let (cs, s', e, quiet, low) = answers task s in
        let (l', e', f, c) = calls-quiet cs l quiet in (l', s', rw (e, e') refl, f, low)

    run_temp-answers :
        (tasks : List Task) (l : Loop Task) (s : S)
        → (l' : Loop Task) × (s' : S) × (run_temp does tasks l s ≡ ok (l', s'))
          × Follows l l'
          × (measure s' ≤ measure s)
    unfolding run_temp
    run_temp-answers [] l s = (l, s, refl, (refl, λ e. e), omega arith)
    run_temp-answers (task ∷ tasks) l s =
        let (l1, s1, e1, (t1, f1), m1) =
          run-answers task (record l { ran = l.ran ++ (task ∷ []) }) s in
        let (l2, s2, e2, (t2, f2), m2) = run_temp-answers tasks l1 s1 in
        (l2, s2, rw e1 e2, (t2 ∙ t1, λ e. f2 (f1 e)), omega arith)

    module _ (main : Task) (advances : (s : S) → Advances main s) where
      main-advances :
          (l : Loop Task) (s : S)
          → (l' : Loop Task) × (s' : S) × (run_function does (some main) l s ≡ ok (l', s'))
            × (l'.task ≡ l.task)
            × ((l'.flag ≡ false) ⊎ (measure s' < measure s))
      unfolding run_function run
      main-advances l s =
          let (cs, s1, e, quiet, step) = advances s in
          let (l1, e1, (t1, f1), c1) = calls-quiet cs l quiet in
          (
            l1,
            s1,
            rw (e, e1) refl,
            t1,
            elim step [ inl closed ↦ inl (c1 closed) | inr low ↦ inr low ],
          )

      turn-advances :
          (l : Loop Task) (s : S)
          → l.task ≡ some main
          → (l' : Loop Task) × (s' : S) × (turn does l s ≡ ok (l', s'))
            × (l'.task ≡ some main)
            × ((l'.flag ≡ false) ⊎ (measure s' < measure s))
      unfolding turn
      turn-advances l s h =
          let (l1, s1, e1, t1, step) = main-advances l s in
          let (l2, s2, e2, (t2, f2), m2) =
            run_temp-answers l1.temp_tasks (record l1 { temp_tasks = [] }) s1 in
          (
            l2,
            s2,
            rw (ap (λ task. run_function does task l s) h ∙ e1) e2,
            t2 ∙ t1 ∙ h,
            elim step [ inl down ↦ inl (f2 down) | inr low ↦ inr (omega arith) ],
          )

      while_flag-leaves :
          (n : ℕ) (l : Loop Task) (s : S)
          → l.task ≡ some main
          → measure s < n
          → (l' : Loop Task) × (s' : S) × (while_flag does n l s ≡ ok (true, l', s'))
            × (l'.flag ≡ false)
      unfolding while_flag
      while_flag-leaves zero l s h low = absurd (omega arith)
      while_flag-leaves (suc n) l s h low = elim (Bool-cases l.flag) [
        | inr e ↦ (l, s, rw e refl, e)
        | inl e ↦
            let (l1, s1, e1, t1, step) = turn-advances l s h in
            elim step [
              | inr lower ↦
                  let (l2, s2, e2, f2) = while_flag-leaves n l1 s1 t1 (omega arith) in
                  (l2, s2, while_flag-turn does n l l1 s s1 e e1 ∙ e2, f2)
              | inl down ↦ (
                l1,
                s1,
                while_flag-turn does n l l1 s s1 e e1 ∙ while_flag-down does n l1 s1 down,
                down,
              )
            ]
      ]

      run_if_set-answers :
          (task : Option Task) (l : Loop Task) (s : S)
          → (l' : Loop Task) × (s' : S) × (run_if_set does task l s ≡ ok (l', s'))
            × Follows l l'
            × (measure s' ≤ measure s)
      unfolding run_if_set
      run_if_set-answers none l s = (l, s, refl, (refl, λ e. e), omega arith)
      run_if_set-answers (some task) l s = run-answers task l s

      -- Where every task returns, calls `setTask` never and does not raise a measure of the state,
      -- and where each run of the main task closes the loop or lowers that measure: a loop with
      -- this main task that was not begun, on a thread that has none, is left after at most one
      -- turn more than the measure; nothing faults, the thread keeps the new id, the flag is down,
      -- and the temporary tasks that were run and those still waiting are together, in their order,
      -- all that were ever added, if they were so before.
      pub begin_in_current_thread-ends :
          (n : ℕ) (t : Thread) (l : Loop Task) (s : S)
          → t.thread_loop_id ≡ uint_max
          → l.task ≡ some main
          → l.flag ≡ false
          → Accounts [] l
          → measure s < n
          → (l' : Loop Task) × (s' : S) × (begin_in_current_thread does n t l s
              ≡ ok (
                record { id_sum = get_looop_id t; thread_loop_id = get_looop_id t },
                true,
                l',
                s',
              ))
            × (l'.flag ≡ false)
            × Accounts [] l'
      begin_in_current_thread-ends n t l s alone has down accounts low =
          let start : Loop Task = record l { flag = true } in
          let (l1, s1, e1, (t1, f1), m1) = run_if_set-answers l.init_task start s in
          let a1 : Accounts [] l1 =
            (run_if_set-Accounts does l.init_task start s accounts).result (l1, s1) e1 in
          let (l2, s2, e2, f2) = while_flag-leaves n l1 s1 (t1 ∙ has) (omega arith) in
          let a2 : Accounts [] l2 =
            (while_flag-Accounts does n l1 s1 a1).result (true, l2, s2) e2 in
          (l2, s2, begin-parts does n t l l1 l2 s s1 s2 main alone has down e1 e2, f2, a2)
