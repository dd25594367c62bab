-- ===== src/Rpc/Containers.antt =====
-- What the templates of Fish/rpc/serializer.h use of the standard containers: insertion into a
-- set or a map, by the order or the equality of the keys.
pub mod Order
use fish_rpc.Prelude.{ℕ, Bool, false, ◌||◌, List, [], ◌∷◌, if◌then◌else◌}
use fish_rpc.Rpc.CppType.{
  CppType, Scalar, Value, ScalarValue, TreeKind, plain, multi, unordered, unordered_multi,
}

-- What lies outside the repository: the order and the equality of the element types, the order in
-- which a hash table iterates over its elements, and what an uninitialised variable holds.
pub record Platform : Type 1 where
  pub less : (t : CppType) → Value t → Value t → Bool
  pub equal : (t : CppType) → Value t → Value t → Bool
  pub arrange : (A : Type 0) → List A → List A
  pub junk : ℕ → ℕ
  pub junk_value : (s : Scalar) → ScalarValue s

module _ {E : Type 0} (before : E → E → Bool) where
  -- At the lower bound, unless an equivalent key stands there.
  unfoldable pub insert_plain : E → List E → List E
  insert_plain x [] = x ∷ []
  insert_plain x (y ∷ ys) =
      if before y x then y ∷ insert_plain x ys else if before x y then x ∷ y ∷ ys else y ∷ ys

  -- At the upper bound.
  unfoldable pub insert_multi : E → List E → List E
  insert_multi x [] = x ∷ []
  insert_multi x (y ∷ ys) = if before x y then x ∷ y ∷ ys else y ∷ insert_multi x ys

-- Is there an element with the key of `x`?
unfoldable pub has_key : {E : Type 0} → (E → E → Bool) → E → List E → Bool
has_key same x [] = false
has_key same x (y ∷ ys) = same x y || has_key same x ys

-- `insert` of each kind of container, over entries that are compared by their keys.
unfoldable pub insert :
    {E : Type 0} → Platform → TreeKind → (E → E → Bool) → (E → E → Bool) → E → List E → List E
unfolding insert_plain insert_multi has_key
insert p plain before same x xs = insert_plain before x xs
insert p multi before same x xs = insert_multi before x xs
insert {E} p unordered before same x xs = if has_key same x xs then xs else p.arrange E (x ∷ xs)
insert {E} p unordered_multi before same x xs = p.arrange E (x ∷ xs)
