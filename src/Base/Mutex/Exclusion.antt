-- ===== src/Base/Mutex/Exclusion.antt =====
-- Guards of one lock exclude each other.
use fish_rpc.Prelude.{
  ◌==◌, ==_refl, ==→eq, Bool-cases, Option-cases, ℕ, ◌≡◌, refl, sym, ap, ◌∙◌, ◌≢◌, inl, inr, Bool,
  true, false, Option, none, some, arith,
}
use fish_rpc.Prelude.Outcome.{ok, fault, Fault, ok-injective}
use mathlib.Core.Option.{some_inj}
use fish_rpc.Prelude.Outcome.{Returns, Returns->>=, Returns-ok}
use fish_rpc.Base.Mutex.{
  World, set_guard, is_owner, unlock, lock, guard_unlock, guard_lock, guard_end, Step, Steps, fresh,
}

-- The lock is held by the threads whose guard says so, and by no other one.
abbrev pub Agrees : World → Type 0
Agrees w =
    ((t : ℕ) → w.guards t ≡ some true → w.owner ≡ some t)
    × ((t : ℕ) → w.owner ≡ some t → w.guards t ≡ some true)

is_owner→eq : (t : ℕ) (owner : Option ℕ) → is_owner t owner ≡ true → owner ≡ some t
is_owner→eq t none h = cc
is_owner→eq t (some s) h = ap some (sym (==→eq t s h))

-- Who unlocks a lock is its owner, and leaves it free.
unlock-owner :
    (t : ℕ) (w w' : World)
    → unlock t w ≡ ok w'
    → (w.owner ≡ some t) × (w' ≡ record w { owner = none })
unfolding unlock
unlock-owner t w w' e = elim (Bool-cases (is_owner t w.owner)) [
  | inl owns ↦ (is_owner→eq t w.owner owns, ok-injective (sym (rw owns at e)))
  | inr other ↦ cc (rw other at e)
]

released :
    (t : ℕ) (g : Option Bool) (w w' : World)
    → g ≢ some true
    → Agrees w
    → unlock t w ≡ ok w'
    → Agrees (set_guard t g w')
released t g w w' unheld (held, kept) e =
    let (owns, freed) = unlock-owner t w w' e in
    rw freed (
      λ s guarded. elim (Bool-cases (t == s)) [
        | inl same ↦ absurd (unheld (rw same at guarded))
        | inr other ↦
            let both : some t ≡ some s = sym owns ∙ held s (rw other at guarded) in
            let equal : t ≡ s = some_inj.0 both in absurd (ground (arith, other, equal))
      ],
      λ s free. cc,
    )

-- A guard that does not hold the lock comes or goes.
unheld-Agrees :
    (t : ℕ) (g : Option Bool) (w : World)
    → g ≢ some true
    → w.guards t ≢ some true
    → Agrees w
    → Agrees (set_guard t g w)
unheld-Agrees t g w unheld was (held, kept) = (
  λ s guarded. elim (Bool-cases (t == s)) [
    | inl same ↦ absurd (unheld (rw same at guarded))
    | inr other ↦ held s (rw other at guarded)
  ],
  λ s owns. elim (Bool-cases (t == s)) [
    | inl same ↦ absurd (was (ap w.guards (==→eq t s same) ∙ kept s owns))
    | inr other ↦ rw other (kept s owns)
  ],
)

lock-free :
    (t : ℕ) (w w' : World)
    → lock t w ≡ some w'
    → (w.owner ≡ none) × (w' ≡ record w { owner = some t })
unfolding lock
lock-free t w w' e = elim (Option-cases w.owner) [
  | inl free ↦ (free, some_inj.0 (sym (rw free at e)))
  | inr (s, taken) ↦ cc (rw taken at e)
]

locked-Agrees :
    (t : ℕ) (w w' : World) → Agrees w → lock t w ≡ some w' → Agrees (set_guard t (some true) w')
locked-Agrees t w w' (held, kept) e =
    let (free, taken) = lock-free t w w' e in
    rw taken (
      λ s guarded. elim (Bool-cases (t == s)) [
        | inl same ↦ ap some (==→eq t s same)
        | inr other ↦ cc (held s (rw other at guarded), free)
      ],
      λ s owns.
          let same : (t == s) ≡ true = ap (λ u. t == u) (sym (some_inj.0 owns)) ∙ ==_refl t in
          rw same refl,
    )

guard_unlock-Agrees :
    (locked : Bool) (t : ℕ) (w : World)
    → w.guards t ≡ some locked
    → Agrees w
    → Returns (λ w'. Agrees w' × (w'.guards t ≡ some false)) (guard_unlock locked t w)
unfolding guard_unlock
guard_unlock-Agrees false t w has a = Returns-ok (a, has)
guard_unlock-Agrees true t w has a =
    let unheld : ◌≡◌ {A = Option Bool} (some false) (some true) → ⊥ = λ e. cc (some_inj.0 e) in
    Returns->>= (unlock t w) {f = λ w'. ok (set_guard t (some false) w')}
      (record { result = λ w' e. released t (some false) w w' unheld a e })
      (λ w' a'. Returns-ok (a', rw (==_refl t) refl))

-- `lock` on a guard that does not hold the lock unlocks it, which only its owner may do.
guard_lock_fault :
    (t : ℕ) (w : World)
    → w.guards t ≡ some false
    → Agrees w
    → guard_lock false t w ≡ fault Fault.not_the_owner
unfolding guard_lock unlock
guard_lock_fault t w has (held, kept) = elim (Bool-cases (is_owner t w.owner)) [
  | inl owns ↦ cc (some_inj.0 (sym has ∙ kept t (is_owner→eq t w.owner owns)))
  | inr other ↦ rw other refl
]

guard_lock_held : (t : ℕ) (w : World) → guard_lock true t w ≡ ok w
unfolding guard_lock
guard_lock_held t w = refl

guard_lock-Agrees :
    (locked : Bool) (t : ℕ) (w : World)
    → w.guards t ≡ some locked
    → Agrees w
    → Returns Agrees (guard_lock locked t w)
guard_lock-Agrees true t w has a = rw (guard_lock_held t w) (Returns-ok a)
guard_lock-Agrees false t w has a = rw (guard_lock_fault t w has a) (record { result = λ w' e. cc })

guard_end-Agrees :
    (locked : Bool) (t : ℕ) (w : World)
    → w.guards t ≡ some locked
    → Agrees w
    → Returns Agrees (guard_end locked t w)
unfolding guard_end
guard_end-Agrees locked t w has a =
    let absent : ◌≡◌ {A = Option Bool} none (some true) → ⊥ = λ e. cc in
    Returns->>= (guard_unlock locked t w) (guard_unlock-Agrees locked t w has a) (λ w' (a', down).
      Returns-ok (unheld-Agrees t none w' absent (λ e. cc (some_inj.0 (sym down ∙ e))) a'))

Step-Agrees : {w w' : World} → Step w w' → Agrees w → Agrees w'
Step-Agrees {w} (Step.guard_begins {w'} t absent took) a = locked-Agrees t w w' a took
Step-Agrees {w} {w'} (Step.unlocks t locked has e) a =
    ((guard_unlock-Agrees locked t w has a).result w' e).0
Step-Agrees {w} {w'} (Step.locks t locked has e) a =
    (guard_lock-Agrees locked t w has a).result w' e
Step-Agrees {w} {w'} (Step.guard_ends t locked has e) a =
    (guard_end-Agrees locked t w has a).result w' e

Steps-Agrees : {w w' : World} → Steps w w' → Agrees w → Agrees w'
Steps-Agrees Steps.done a = a
Steps-Agrees (Steps.more step steps) a = Steps-Agrees steps (Step-Agrees step a)

-- However threads begin and end guards of one lock, one for a thread at a time, and call `lock` and
-- `unlock` on them, as long as nothing undefined is done: at most one guard says that it holds the
-- lock, and `lock` on a guard that does not hold it unlocks the lock without being its owner, which
-- is undefined.
pub guards_exclude :
    {w : World}
    → Steps fresh w
    → ((s t : ℕ) → w.guards s ≡ some true → w.guards t ≡ some true → s ≡ t)
      × ((t : ℕ) → w.guards t ≡ some false → guard_lock false t w ≡ fault Fault.not_the_owner)
guards_exclude {w} steps =
    let a = Steps-Agrees steps ((λ t e. cc, λ t e. cc)) in
    (
      λ s t one other. some_inj.0 (sym (a.0 s one) ∙ a.0 t other),
      λ t down. guard_lock_fault t w down a,
    )
