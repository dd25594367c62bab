-- ===== src/Base/SafeQueue.antt =====
-- Fish/base/safe_queue.h: a bounded queue that hands out what was pushed last.
use fish_rpc.Prelude.{
  length, ◌==◌, if◌then◌else◌, ℕ, Bool, true, false, Option, none, some, List, [], ◌∷◌, ◌++◌,
}

pub record MyQueue {ℓ} (T : Type ℓ) : Type ℓ where
  pub que : List T
  pub max_size : ℕ

module _ {ℓ} {T : Type ℓ} where
  unfoldable pub construct : ℕ → MyQueue T
  construct size = record { que = []; max_size = size }

  unfoldable pub empty : MyQueue T → Bool
  empty q = length q.que == 0

  -- The elements but for the last one, and the last one.
  unfoldable pub pop_back : List T → Option (List T × T)
  pop_back [] = none
  pop_back (x ∷ xs) = elim (pop_back xs) [
    | none ↦ some ([], x)
    | some (front, last) ↦ some (x ∷ front, last)
  ]

  unfoldable pub try_pop : MyQueue T → Option T × MyQueue T
  unfolding pop_back
  try_pop q = elim (pop_back q.que) [
    | none ↦ (none, q)
    | some (front, last) ↦ (some last, record q { que = front })
  ]

  unfoldable pub push : T → MyQueue T → Bool × MyQueue T
  push element q =
      if length q.que == q.max_size
      then (false, q)
      else (true, record q { que = q.que ++ (element ∷ []) })

  unfoldable pub size : MyQueue T → ℕ
  size q = length q.que
