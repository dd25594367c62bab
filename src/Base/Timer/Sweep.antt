-- ===== src/Base/Timer/Sweep.antt =====
-- What a round of `start` in source/base/timer.cpp does to the tasks of its slot.
use fish_rpc.Prelude.{
  ltb, ltb→lt, ==_refl, Bool-cases, length, get_or, set, get_or-set, ℕ, ◌+◌, ◌≡◌, refl, sym, ap,
  ◌∙◌, ◌≢◌, inl, inr, Bool, true, false, List, [], ◌∷◌, map, arith,
}
use fish_rpc.Prelude.Outcome.{ok, ◌>>=◌, >>=-eq-ok, ok-injective}
use fish_rpc.Prelude.Int.{ℤ, pos}
use mathlib.Core.Path.{ap₂}
use fish_rpc.Base.Timer.{Timer, TimerTask, Seen, Call, is_due, Fate, fate, scan, work, works, round}

abbrev pub seen_task : Seen → TimerTask
seen_task (Seen.stays t) = t
seen_task (Seen.again t) = t
seen_task (Seen.gone t) = t

-- What was seen is right, if `passed` says that the first task was passed over: a task that stays
-- is not due, but the one directly behind an erased task stays unseen; a task that runs is due, and
-- is erased just if it is no periodic one; and the last one is not erased.
abbrev pub IsFair : Bool → ℤ → List Seen → Type 0
IsFair passed now [] = passed ≡ false
IsFair true now (Seen.stays t ∷ es) = IsFair false now es
IsFair false now (Seen.stays t ∷ es) = (is_due now t ≡ false) × IsFair false now es
IsFair passed now (Seen.again t ∷ es) =
    (passed ≡ false) × (is_due now t ≡ true) × (t.repeatable ≡ true) × IsFair false now es
IsFair passed now (Seen.gone t ∷ es) =
    (passed ≡ false) × (is_due now t ≡ true) × (t.repeatable ≡ false) × IsFair true now es

-- What runs, and what is left, in order.
abbrev pub ran : List Seen → List TimerTask
ran [] = []
ran (Seen.stays t ∷ es) = ran es
ran (Seen.again t ∷ es) = t ∷ ran es
ran (Seen.gone t ∷ es) = t ∷ ran es

abbrev pub left : List Seen → List TimerTask
left [] = []
left (Seen.stays t ∷ es) = t ∷ left es
left (Seen.again t ∷ es) = t ∷ left es
left (Seen.gone t ∷ es) = left es

-- All of a task but the time of its last run.
abbrev pub without_time : TimerTask → TimerTask
without_time t = record t { insert_time = pos 0 }

abbrev task_of : TimerTask → ℕ
task_of t = t.task

abbrev task_called : Call → ℕ
task_called c = c.task

-- The result of a loop over a slot.
abbrev IsSweep : ℤ → List TimerTask → List Seen → Type 0
IsSweep now slot seen = (map seen_task seen ≡ slot) × IsFair false now seen

-- The three fates, with what the tests said.
pub data Fates (now : ℤ) (t : TimerTask) : Type 0 where
  waited : fate now t ≡ Fate.waits → is_due now t ≡ false → Fates now t
  repeated : fate now t ≡ Fate.repeats → is_due now t ≡ true → t.repeatable ≡ true → Fates now t
  ended : fate now t ≡ Fate.ends → is_due now t ≡ true → t.repeatable ≡ false → Fates now t

pub fates : (now : ℤ) (t : TimerTask) → Fates now t
unfolding fate
fates now t = elim (Bool-cases (is_due now t)) [
  | inr e ↦ waited (rw e) e
  | inl e ↦ elim (Bool-cases t.repeatable) [
    | inl r ↦ repeated (rw (e, r)) e r
    | inr r ↦ ended (rw (e, r)) e r
  ]
]

pub ends_of :
    (now : ℤ) (t : TimerTask) → is_due now t ≡ true → t.repeatable ≡ false → fate now t ≡ Fate.ends
unfolding fate
ends_of now t due once = rw (due, once)

scan-IsSweep :
    (now : ℤ) (slot : List TimerTask) {seen : List Seen}
    → scan now slot ≡ ok seen
    → IsSweep now slot seen
unfolding scan
scan-IsSweep now [] h = rw (sym (ok-injective h)) (refl, refl)
scan-IsSweep now (t ∷ []) h = elim (fates now t) [
  | waited f e ↦ rw (sym (ok-injective (rw (scan, f) at h))) (refl, (e, refl))
  | repeated f e r ↦ rw (sym (ok-injective (rw (scan, f) at h))) (refl, (refl, e, r, refl))
  | ended f e r ↦ cc (rw (scan, f) at h)
]
scan-IsSweep now (t ∷ u ∷ us) h = elim (fates now t) [
  | waited f e ↦
      let (rest, q, k) = >>=-eq-ok (scan now (u ∷ us)) _ (rw (scan, f) at h) in
      let (order, fair) = scan-IsSweep now (u ∷ us) q in
      rw (sym (ok-injective k)) (rw order, (e, fair))
  | repeated f e r ↦
      let (rest, q, k) = >>=-eq-ok (scan now (u ∷ us)) _ (rw (scan, f) at h) in
      let (order, fair) = scan-IsSweep now (u ∷ us) q in
      rw (sym (ok-injective k)) (rw order, (refl, e, r, fair))
  | ended f e r ↦
      let (rest, q, k) = >>=-eq-ok (scan now us) _ (rw (scan, f) at h) in
      let (order, fair) = scan-IsSweep now us q in
      rw (sym (ok-injective k)) (rw order, (refl, e, r, fair))
]

work-task :
    (now : ℤ) (t : TimerTask)
    → ((work now t).0.task ≡ t.task) × (without_time (work now t).1 ≡ without_time t)
unfolding work
work-task now t = ground arith

works-tasks :
    (clock : ℕ → ℤ) (seen : List Seen)
    → (map task_called (works clock seen).0 ≡ map task_of (ran seen))
      × (map without_time (works clock seen).1 ≡ map without_time (left seen))
unfolding works
works-tasks clock [] = (refl, refl)
works-tasks clock (Seen.stays t ∷ es) = let (c, l) = works-tasks clock es in (c, rw l)
works-tasks clock (Seen.again t ∷ es) =
    let (c, l) = works-tasks (λ i. clock (i + 1)) es in
    let (k, m) = work-task (clock 0) t in (ap₂ ◌∷◌ k c, ap₂ ◌∷◌ m l)
works-tasks clock (Seen.gone t ∷ es) =
    let (c, l) = works-tasks (λ i. clock (i + 1)) es in
    let (k, m) = work-task (clock 0) t in (ap₂ ◌∷◌ k c, l)

pub scan_waits :
    (now : ℤ) (x y : TimerTask) (ys : List TimerTask)
    → fate now x ≡ Fate.waits
    → scan now (x ∷ y ∷ ys) ≡ (scan now (y ∷ ys) >>= λ rest. ok (Seen.stays x ∷ rest))
unfolding scan
scan_waits now x y ys f = rw (scan, f)

pub scan_repeats :
    (now : ℤ) (x y : TimerTask) (ys : List TimerTask)
    → fate now x ≡ Fate.repeats
    → scan now (x ∷ y ∷ ys) ≡ (scan now (y ∷ ys) >>= λ rest. ok (Seen.again x ∷ rest))
unfolding scan
scan_repeats now x y ys f = rw (scan, f)

-- A turn that returns goes over the tasks of its slot in order. A task that stays is not due,
-- unless it stands directly behind one that was erased; the function of each other task is called,
-- in order; it was due, and it is erased just if it is not periodic, and the last task is not
-- erased. The slot keeps the others in their order, unchanged but for the time of their last run,
-- and no other slot changes.
pub round-sweeps :
    (now : ℤ) (clock : ℕ → ℤ) (t : Timer) {calls : List Call} {t' : Timer}
    → round now clock t ≡ ok (calls, t')
    → (seen : List Seen) × (map seen_task seen ≡ get_or t.time_wheel t.wheel_index [])
      × IsFair false now seen
      × (map task_called calls ≡ map task_of (ran seen))
      × (map without_time (get_or t'.time_wheel t.wheel_index []) ≡ map without_time (left seen))
      × ((i : ℕ) → i ≢ t.wheel_index → get_or t'.time_wheel i [] ≡ get_or t.time_wheel i [])
unfolding round
round-sweeps now clock t {calls} {t'} h =
    elim (Bool-cases (ltb t.wheel_index (length t.time_wheel))) [
      | inr e ↦ cc (rw e at h)
      | inl e ↦
          let lt = ltb→lt _ _ e in
          let slot = get_or t.time_wheel t.wheel_index [] in
          let (seen, sc, q) = >>=-eq-ok (scan now slot) _ (rw e at h) in
          let (order, fair) = scan-IsSweep now slot sc in
          let (c, l) = works-tasks clock seen in
          let result = ok-injective q in
          let wheel : t'.time_wheel ≡ set t.time_wheel t.wheel_index (works clock seen).1 =
            sym (ap (λ (x : List Call × Timer). x.1.time_wheel) result) in
          (
            seen,
            order,
            fair,
            ap (map task_called) (sym (ap (λ (x : List Call × Timer). x.0) result)) ∙ c,
            rw
                (
                  wheel,
                  get_or-set t.time_wheel t.wheel_index t.wheel_index (works clock seen).1 [] lt,
                  ==_refl t.wheel_index,
                )
                l,
            λ i ne.
                rw (wheel, get_or-set t.time_wheel t.wheel_index i (works clock seen).1 [] lt)
                  (ground arith),
          )
    ]
