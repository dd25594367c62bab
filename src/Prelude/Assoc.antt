-- ===== src/Prelude/Assoc.antt =====
-- A map from numbers, as `std::map<int, …>` is used: one entry for a key, the first in the list.
use mathlib.Core.Option.{some_inj}
use fish_rpc.Prelude.{
  inl, inr, ◌==◌, if◌then◌else◌, ℕ, ◌≡◌, refl, Option, none, some, List, [], ◌∷◌, arith, All,
  Bool-cases, subst,
}

module _ {V : Type 0} where
  unfoldable pub lookup : ℕ → List (ℕ × V) → Option V
  lookup k [] = none
  lookup k ((j, v) ∷ m) = if j == k then some v else lookup k m

  -- Sets the entry of `key`.
  unfoldable pub insert : ℕ → V → List (ℕ × V) → List (ℕ × V)
  insert key value [] = (key, value) ∷ []
  insert key value ((old, kept) ∷ rest) =
      if old == key then (key, value) ∷ rest else (old, kept) ∷ insert key value rest

  -- Takes the entries of `k` out.
  unfoldable pub erase : ℕ → List (ℕ × V) → List (ℕ × V)
  erase k [] = []
  erase k ((j, w) ∷ m) = if j == k then erase k m else (j, w) ∷ erase k m

  pub lookup-insert :
      (key other : ℕ) (value : V) (entries : List (ℕ × V))
      → lookup other (insert key value entries)
        ≡ (if key == other then some value else lookup other entries)
  unfolding lookup insert
  lookup-insert key other value [] = refl
  lookup-insert key other value (entry ∷ rest) = ground (arith, lookup-insert key other value rest)

  pub lookup-erase :
      (k j : ℕ) (m : List (ℕ × V)) → lookup j (erase k m) ≡ (if k == j then none else lookup j m)
  unfolding lookup erase
  lookup-erase k j [] = ground arith
  lookup-erase k j ((i, w) ∷ m) = ground (arith, lookup-erase k j m)

  -- What holds of every stored value.
  pub All-insert :
      (P : V → Type 0) (k : ℕ) (v : V) (m : List (ℕ × V))
      → P v
      → All (λ e. P e.1) m
      → All (λ e. P e.1) (insert k v m)
  unfolding insert
  All-insert P k v [] h a = (h, tt)
  All-insert P k v ((j, w) ∷ m) h a = ground (arith, All-insert P k v m h a.1)

  pub All-erase :
      (P : V → Type 0) (k : ℕ) (m : List (ℕ × V))
      → All (λ e. P e.1) m
      → All (λ e. P e.1) (erase k m)
  unfolding erase
  All-erase P k [] a = tt
  All-erase P k ((j, w) ∷ m) a = ground (arith, All-erase P k m a.1)

  pub All-lookup :
      (P : V → Type 0) (k : ℕ) (m : List (ℕ × V)) {v : V}
      → All (λ e. P e.1) m
      → lookup k m ≡ some v
      → P v
  unfolding lookup
  All-lookup P k [] a h = cc
  All-lookup P k ((j, w) ∷ m) a h = elim (Bool-cases (j == k)) [
    | inl e ↦ subst P (some_inj.0 (rw e at h)) a.0
    | inr e ↦ All-lookup P k m a.1 (rw e at h)
  ]

  -- No key has two entries.
  abbrev pub HasDistinctKeys : List (ℕ × V) → Type 0
  HasDistinctKeys [] = Unit {0}
  HasDistinctKeys ((key, value) ∷ rest) = (lookup key rest ≡ none) × HasDistinctKeys rest

  pub insert-HasDistinctKeys :
      (key : ℕ) (value : V) (entries : List (ℕ × V))
      → HasDistinctKeys entries
      → HasDistinctKeys (insert key value entries)
  unfolding insert lookup
  insert-HasDistinctKeys key value [] h = (refl, tt)
  insert-HasDistinctKeys key value ((old, kept) ∷ rest) h =
      ground (arith, lookup-insert key old value rest, insert-HasDistinctKeys key value rest h.1)

  pub erase-HasDistinctKeys :
      (key : ℕ) (entries : List (ℕ × V))
      → HasDistinctKeys entries
      → HasDistinctKeys (erase key entries)
  unfolding erase
  erase-HasDistinctKeys key [] h = tt
  erase-HasDistinctKeys key ((old, kept) ∷ rest) h =
      ground (arith, lookup-erase key old rest, erase-HasDistinctKeys key rest h.1)
