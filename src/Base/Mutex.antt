-- ===== src/Base/Mutex.antt =====
-- Fish/base/sync/mutex.h: a lock and its guard, used by many threads. Each thread has at most one
-- guard of the lock at a time. The behaviour of a `pthread` mutex is undefined where a thread that
-- does not hold it unlocks it.
pub mod Exclusion
mod Tests
use fish_rpc.Prelude.{◌==◌, if◌then◌else◌, ℕ, ◌≡◌, Bool, true, false, Option, none, some}
use fish_rpc.Prelude.Outcome.{Outcome, ok, Fault, ◌>>=◌, ◌>>◌, check}

-- The thread that holds the lock; `guards` has `isLocked` of the guard of each thread that has one.
pub record World : Type 0 where
  pub owner : Option ℕ
  pub guards : ℕ → Option Bool

abbrev pub set_guard : ℕ → Option Bool → World → World
set_guard t g w = record w { guards = λ s. if t == s then g else w.guards s }

abbrev pub is_owner : ℕ → Option ℕ → Bool
is_owner t none = false
is_owner t (some s) = t == s

-- `Mutex::unlock`, by a thread.
unfoldable pub unlock : ℕ → World → Outcome World
unlock t w = do check (is_owner t w.owner) Fault.not_the_owner; ok (record w { owner = none })

-- `Mutex::lock` by a thread that does not hold the lock; it waits where there is an owner.
unfoldable pub lock : ℕ → World → Option World
lock t w = elim w.owner [ none ↦ some (record w { owner = some t }) | some s ↦ none ]

-- `Mutex::tryLock`: what `pthread_mutex_trylock` returns, 0 where it took the lock, as a bool.
unfoldable pub try_lock : ℕ → World → Bool × World
unfolding lock
try_lock t w = elim (lock t w) [ none ↦ (true, w) | some w' ↦ (false, w') ]

-- `LockGuard::unlock`, where the flag of the guard is `locked`.
unfoldable pub guard_unlock : Bool → ℕ → World → Outcome World
unfolding unlock
guard_unlock false t w = ok w
guard_unlock true t w = do w' ← unlock t w; ok (set_guard t (some false) w')

-- `LockGuard::lock`.
unfoldable pub guard_lock : Bool → ℕ → World → Outcome World
unfolding unlock
guard_lock true t w = ok w
guard_lock false t w = do w' ← unlock t w; ok (set_guard t (some false) w')

-- The destructor.
unfoldable pub guard_end : Bool → ℕ → World → Outcome World
unfolding guard_unlock
guard_end locked t w = do w' ← guard_unlock locked t w; ok (set_guard t none w')

-- What the threads do, one call at a time. The constructor waits until it has the lock.
pub data Step : World → World → Type 0 where
  guard_begins :
      {w w' : World} (t : ℕ)
      → w.guards t ≡ none
      → lock t w ≡ some w'
      → Step w (set_guard t (some true) w')
  unlocks :
      {w w' : World} (t : ℕ) (locked : Bool)
      → w.guards t ≡ some locked
      → guard_unlock locked t w ≡ ok w'
      → Step w w'
  locks :
      {w w' : World} (t : ℕ) (locked : Bool)
      → w.guards t ≡ some locked
      → guard_lock locked t w ≡ ok w'
      → Step w w'
  guard_ends :
      {w w' : World} (t : ℕ) (locked : Bool)
      → w.guards t ≡ some locked
      → guard_end locked t w ≡ ok w'
      → Step w w'

pub data Steps : World → World → Type 0 where
  done : {w : World} → Steps w w
  more : {w w' w'' : World} → Step w w' → Steps w' w'' → Steps w w''

-- A lock that nobody holds and nobody guards.
abbrev pub fresh : World
fresh = record { owner = none; guards = λ t. none }
