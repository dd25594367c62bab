-- ===== src/Base/Timer/Turning.antt =====
-- Base/Timer: the turns of the loop in `start` come to every slot.
use fish_rpc.Prelude.{
  ltb, if◌then◌else◌, lt→ltb, Bool-cases, length, get_or, set, All, ℕ, zero, suc, ◌+◌, ◌-◌, ◌≤◌,
  ◌<◌, ◌≡◌, refl, ◌∙◌, ◌⊎◌, inl, inr, true, List, [], ◌∷◌, ◌++◌, arith,
}
use fish_rpc.Prelude.Outcome.{ok}
use fish_rpc.Prelude.Int.{ℤ}
use native.Mathlib.Decide.{dec_le}
use fish_rpc.Base.Timer.{
  Timer, TimerTask, Seen, Fate, Call, fate, scan, work, works, advance, round, is_due,
}
use fish_rpc.Base.Timer.Wheel.{IsValid}
use fish_rpc.Base.Timer.Runs.{round-IsValid, advance-lt}
use fish_rpc.Base.Timer.Start.{Turn, pause, turns}

-- A periodic task.
abbrev pub IsPeriodic : TimerTask → Type 0
IsPeriodic t = t.repeatable ≡ true

-- All tasks of the wheel are periodic.
abbrev pub AllPeriodic : Timer → Type 0
AllPeriodic t = All (λ slot. All IsPeriodic slot) t.time_wheel

fate-IsPeriodic :
    (now : ℤ) (t : TimerTask)
    → IsPeriodic t
    → (fate now t ≡ Fate.waits) ⊎ (fate now t ≡ Fate.repeats)
unfolding fate
fate-IsPeriodic now t h = elim (Bool-cases (is_due now t)) [
  | inl due ↦ inr (rw (due, h) refl)
  | inr early ↦ inl (rw early refl)
]

work-IsPeriodic : (now : ℤ) (t : TimerTask) → IsPeriodic t → IsPeriodic (work now t).1
unfolding work
work-IsPeriodic now t h = elim (Bool-cases t.needs_time) [ inl e ↦ rw e h | inr e ↦ rw e h ]

-- The loop over a slot of periodic tasks is defined, and leaves periodic tasks.
scan-IsPeriodic :
    (now : ℤ) (slot : List TimerTask)
    → All IsPeriodic slot
    → (seen : List Seen) × (scan now slot ≡ ok seen)
      × ((clock : ℕ → ℤ) → All IsPeriodic (works clock seen).1)
unfolding scan works
scan-IsPeriodic now [] h = ([], refl, λ clock. tt)
scan-IsPeriodic now (t ∷ []) (p, tt') = elim (fate-IsPeriodic now t p) [
  | inl e ↦ (Seen.stays t ∷ [], rw (e, scan) refl, λ clock. (p, tt))
  | inr e ↦ (Seen.again t ∷ [], rw (e, scan) refl, λ clock. (work-IsPeriodic (clock 0) t p, tt))
]
scan-IsPeriodic now (t ∷ u ∷ us) (p, h) =
    let (rest, q, all) = scan-IsPeriodic now (u ∷ us) h in
    elim (fate-IsPeriodic now t p) [
      | inl e ↦ (Seen.stays t ∷ rest, rw (e, scan, q) refl, λ clock. (p, all clock))
      | inr e ↦ (
        Seen.again t ∷ rest,
        rw (e, scan, q) refl,
        λ clock. (work-IsPeriodic (clock 0) t p, all (λ i. clock (i + 1))),
      )
    ]

All-get_or :
    {A : Type 0} (P : A → Type 0) (xs : List A) (i : ℕ) (d : A) → All P xs → P d → P (get_or xs i d)
All-get_or P [] i d h k = k
All-get_or P (x ∷ xs) zero d h k = h.0
All-get_or P (x ∷ xs) (suc i) d h k = All-get_or P xs i d h.1 k

All-set :
    {A : Type 0} (P : A → Type 0) (xs : List A) (i : ℕ) (v : A)
    → All P xs
    → P v
    → All P (set xs i v)
All-set P [] i v h k = tt
All-set P (x ∷ xs) zero v h k = (k, h.1)
All-set P (x ∷ xs) (suc i) v h k = (h.0, All-set P xs i v h.1 k)

round-AllPeriodic :
    (now : ℤ) (clock : ℕ → ℤ) {t : Timer}
    → IsValid t
    → AllPeriodic t
    → (calls : List Call) × (t' : Timer) × (round now clock t ≡ ok (calls, t'))
      × AllPeriodic t'
      × (t'.time_num ≡ t.time_num)
      × (t'.wheel_index ≡ advance t.time_num t.wheel_index)
unfolding round
round-AllPeriodic now clock {t} v all =
    let in_range = lt→ltb t.wheel_index (length t.time_wheel) (omega (arith, v.sized, v.inside)) in
    let slot = get_or t.time_wheel t.wheel_index [] in
    let (seen, e, kept) =
      scan-IsPeriodic now slot (All-get_or (All IsPeriodic) t.time_wheel t.wheel_index [] all tt) in
    (
      (works clock seen).0,
      record t {
        time_wheel = set t.time_wheel t.wheel_index (works clock seen).1;
        wheel_index = advance t.time_num t.wheel_index;
      },
      rw (in_range, e) refl,
      All-set (All IsPeriodic) t.time_wheel t.wheel_index _ all (kept clock),
      refl,
      refl,
    )

-- The index after so many rounds.
advances : ℕ → ℕ → ℕ → ℕ
advances n zero i = i
advances n (suc k) i = advances n k (advance n i)

advances-within :
    (n k i : ℕ) → i < n → k ≤ n → advances n k i ≡ (if ltb (i + k) n then i + k else i + k - n)
unfolding advances advance
advances-within n zero i h l = ground arith
advances-within n (suc k) i h l =
    ground (arith, advances-within n k (advance n i) (advance-lt n i h) (omega arith))

-- The turns of a wheel of periodic tasks are defined, and move the index on.
turns-advances :
    (clock : List Turn) (time_begin time_end : ℤ) {t : Timer}
    → IsValid t
    → AllPeriodic t
    → (calls : List Call) × (t' : Timer) × (turns clock time_begin time_end t ≡ ok (calls, t'))
      × (t'.wheel_index ≡ advances t.time_num (length clock) t.wheel_index)
unfolding turns pause advances
turns-advances [] time_begin time_end {t} v all = ([], t, refl, refl)
turns-advances (turn ∷ rest) time_begin time_end {t} v all =
    let (calls, t', e, all', same, moved) =
      round-AllPeriodic turn.time_begin turn.work_times v all in
    let v' = round-IsValid turn.time_begin turn.work_times v e in
    let (more, t'', e', moved') = turns-advances rest turn.time_begin turn.time_end v' all' in
    let paced = lt→ltb 0 t.time_num v.some_slots in
    (calls ++ more, t'', rw (paced, e, e') refl, moved' ∙ rw (same, moved) refl)

-- In a valid timer whose tasks are all periodic, each slot has its turn within fewer turns of the
-- loop in `start` than there are slots: for some number of turns below that of the slots, all these
-- turns return, whatever the clock says, and the index is then at that slot.
pub turns_reach :
    {t : Timer} (j : ℕ)
    → IsValid t
    → AllPeriodic t
    → j < t.time_num
    → (k : ℕ) × (k < t.time_num)
      × ((clock : List Turn) (time_begin time_end : ℤ)
          → length clock ≡ k
          → (calls : List Call) × (t' : Timer) × (turns clock time_begin time_end t
              ≡ ok (calls, t'))
            × (t'.wheel_index ≡ j))
turns_reach {t} j v all l =
    let i = t.wheel_index in
    elim (dec_le i j) [
      | yes le ↦
          (j - i, omega arith, λ clock b e n. from (j - i) (omega arith) (ground arith) clock b e n)
      | no gt ↦ (
        j + t.time_num - i,
        omega (arith, v.inside),
        λ clock b e n.
            from (j + t.time_num - i) (omega arith) (ground (arith, v.inside)) clock b e n,
      )
    ]
  where
    from :
        (k : ℕ)
        → k ≤ t.time_num
        → (if ltb (t.wheel_index + k) t.time_num
            then t.wheel_index + k
            else t.wheel_index + k - t.time_num)
          ≡ j
        → (clock : List Turn) (time_begin time_end : ℤ) → length clock ≡ k
        → (calls : List Call) × (t' : Timer) × (turns clock time_begin time_end t ≡ ok (calls, t'))
          × (t'.wheel_index ≡ j)
    from k few there clock b e n =
        let (calls, t', q, moved) = turns-advances clock b e v all in
        (
          calls,
          t',
          q,
          moved ∙ rw n (advances-within t.time_num k t.wheel_index v.inside few) ∙ there,
        )
