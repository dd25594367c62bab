-- ===== src/Base/Timer/Erasing.antt =====
-- Base/Timer: tasks at the end of a slot, periodic tasks, and tasks that are removed.
use fish_rpc.Prelude.{
  ==_refl, Option-cases, All, ℕ, ◌≡◌, refl, ◌∙◌, inl, inr, true, false, ◌&&◌, not, none, List, [],
  ◌∷◌, ◌++◌, arith,
}
use fish_rpc.Prelude.Outcome.{ok, fault, Fault}
use fish_rpc.Prelude.Int.{ℤ, ◌≤ℤ◌}
use fish_rpc.Prelude.Assoc.{lookup, lookup-erase}
use fish_rpc.Base.Timer.{Timer, TimerTask, Seen, is_due, Fate, fate, scan, work, remove_priod_task}
use fish_rpc.Base.Timer.Sweep.{waited, repeated, ended, fates, ends_of, scan_waits, scan_repeats}

-- A loop that is undefined is so with a task in front that it does not erase.
scan-cons :
    (now : ℤ) (x y : TimerTask) (ys : List TimerTask)
    → (is_due now x && not x.repeatable) ≡ false
    → scan now (y ∷ ys) ≡ fault Fault.bad_iterator
    → scan now (x ∷ y ∷ ys) ≡ fault Fault.bad_iterator
scan-cons now x y ys h e = elim (fates now x) [
  | waited f d ↦ scan_waits now x y ys f ∙ rw e
  | repeated f d r ↦ scan_repeats now x y ys f ∙ rw e
  | ended f d r ↦ cc (rw (d, r) at h)
]

-- The loop over a slot faults where its last task is due and not periodic, if no task before it is
-- due and not periodic.
pub scan-ends :
    (now : ℤ) (front : List TimerTask) (t : TimerTask)
    → All (λ x. (is_due now x && not x.repeatable) ≡ false) front
    → is_due now t ≡ true
    → t.repeatable ≡ false
    → scan now (front ++ (t ∷ [])) ≡ fault Fault.bad_iterator
unfolding scan
scan-ends now [] t h due once = rw (scan, ends_of now t due once)
scan-ends now (x ∷ []) t h due once = scan-cons now x t [] h.0 (scan-ends now [] t tt due once)
scan-ends now (x ∷ y ∷ ys) t h due once =
    scan-cons now x y (ys ++ (t ∷ [])) h.0 (scan-ends now (y ∷ ys) t h.1 due once)

repeats_of :
    (now : ℤ) (t : TimerTask)
    → is_due now t ≡ true
    → t.repeatable ≡ true
    → fate now t ≡ Fate.repeats
unfolding fate
repeats_of now t due periodic = rw (due, periodic)

work-kept :
    (reading : ℤ) (t : TimerTask)
    → ((work reading t).1.time_point ≡ t.time_point)
      × ((work reading t).1.repeatable ≡ t.repeatable)
unfolding work
work-kept reading t = ground arith

due_later :
    (now later : ℤ) (t : TimerTask) → is_due now t ≡ true → now ≤ℤ later → is_due later t ≡ true
due_later now later t due le = ground arith

-- A periodic task that was due is due again after its run, at every later time: the run does not
-- move its time on.
pub work-again :
    (now later reading : ℤ) (t : TimerTask)
    → is_due now t ≡ true
    → t.repeatable ≡ true
    → now ≤ℤ later
    → scan later ((work reading t).1 ∷ []) ≡ ok (Seen.again (work reading t).1 ∷ [])
unfolding scan
work-again now later reading t due periodic le =
    let (point, rep) = work-kept reading t in
    rw (
      scan,
      repeats_of later (work reading t).1 (rw point (due_later now later t due le))
          (rep ∙ periodic),
    )

-- A periodic task that is removed is gone from the map, and stays in the wheel.
pub remove_priod_task-leaves :
    (id : ℕ) (t : Timer)
    → ((remove_priod_task id t).1.time_wheel ≡ t.time_wheel)
      × (lookup id (remove_priod_task id t).1.priod_timer_map ≡ none)
unfolding remove_priod_task
remove_priod_task-leaves id t = elim (Option-cases (lookup id t.priod_timer_map)) [
  | inl e ↦ rw (remove_priod_task, e) (refl, e)
  | inr (old, e) ↦
      rw (remove_priod_task, e) (refl, lookup-erase id id t.priod_timer_map ∙ rw (==_refl id))
]
