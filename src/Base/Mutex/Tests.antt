-- ===== src/Base/Mutex/Tests.antt =====
-- Two threads with a guard each.
use fish_rpc.Prelude.{ℕ, ◌≡◌, refl, true, false, none, some}
use fish_rpc.Prelude.Outcome.{fault, Fault}
use fish_rpc.Base.Mutex.{
  World, set_guard, guard_unlock, guard_lock, lock, unlock, try_lock, Step, Steps, fresh,
}
use fish_rpc.Base.Mutex.Exclusion.{guards_exclude}

-- Thread 1 has unlocked its guard, and thread 2 holds the lock.
abbrev two : World
two =
    set_guard 2 (some true)
      (record (set_guard 1 (some false)
        (record (set_guard 1 (some true) (record fresh { owner = some 1 })) { owner = none })) {
          owner = some 2;
        })

two-Steps : Steps fresh two
unfolding guard_unlock lock unlock
two-Steps = Steps.more (Step.guard_begins 1 refl refl) (
    Steps.more (Step.unlocks 1 true refl refl)
      (Steps.more (Step.guard_begins 2 refl refl) Steps.done))

-- `tryLock` says true where it fails.
busy : (try_lock 1 two).0 ≡ true
unfolding try_lock
busy = refl

guards_exclude_example :
    ((s t : ℕ) → two.guards s ≡ some true → two.guards t ≡ some true → s ≡ t)
    × ((t : ℕ) → two.guards t ≡ some false → guard_lock false t two ≡ fault Fault.not_the_owner)
guards_exclude_example = guards_exclude two-Steps
