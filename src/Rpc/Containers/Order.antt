-- ===== src/Rpc/Containers/Order.antt =====
-- Inserting the elements of a set or a map one after the other, in the order in which the
-- container iterates over them, builds the container again.
use fish_rpc.Prelude.{
  Bool, true, false, ◌≡◌, refl, ◌∙◌, sym, List, [], ◌∷◌, ◌++◌, All, All-append, append_assoc,
  append-nil,
}
use fish_rpc.Rpc.Containers.{insert_plain, insert_multi}

-- The insertion of each element in turn.
unfoldable pub insert_all : {E : Type 0} → (E → List E → List E) → List E → List E → List E
insert_all add [] acc = acc
insert_all add (x ∷ xs) acc = insert_all add xs (add x acc)

module _ {E : Type 0} (before : E → E → Bool) where
  -- What a `std::set` or `std::map` keeps: every element is less than all behind it.
  abbrev pub IsSorted : List E → Type 0
  IsSorted [] = Unit {0}
  IsSorted (x ∷ xs) = All (λ y. before x y ≡ true) xs × IsSorted xs

  -- What a `std::multiset` or `std::multimap` keeps: no element is less than one in front of it.
  abbrev pub IsWeaklySorted : List E → Type 0
  IsWeaklySorted [] = Unit {0}
  IsWeaklySorted (x ∷ xs) = All (λ y. before y x ≡ false) xs × IsWeaklySorted xs

  insert_plain_last :
      (x : E) (ys : List E)
      → All (λ y. before y x ≡ true) ys
      → insert_plain before x ys ≡ ys ++ (x ∷ [])
  unfolding insert_plain
  insert_plain_last x [] h = refl
  insert_plain_last x (y ∷ ys) h = rw (h.0, insert_plain_last x ys h.1)

  insert_multi_last :
      (x : E) (ys : List E)
      → All (λ y. before x y ≡ false) ys
      → insert_multi before x ys ≡ ys ++ (x ∷ [])
  unfolding insert_multi
  insert_multi_last x [] h = refl
  insert_multi_last x (y ∷ ys) h = rw (h.0, insert_multi_last x ys h.1)

  -- Every element of the first list is before every one of the second.
  abbrev Parts : (E → E → Type 0) → List E → List E → Type 0
  Parts R acc xs = All (λ x. All (λ y. R y x) acc) xs

  Parts-step :
      (R : E → E → Type 0) (acc xs : List E) (x : E)
      → Parts R acc xs
      → All (λ y. R x y) xs
      → Parts R (acc ++ (x ∷ [])) xs
  Parts-step R acc [] x h k = tt
  Parts-step R acc (z ∷ zs) x h k =
      (All-append (λ y. R y z) acc (x ∷ []) h.0 (k.0, tt), Parts-step R acc zs x h.1 k.1)

  insert_all-plain_from :
      (xs acc : List E)
      → IsSorted xs
      → Parts (λ y x. before y x ≡ true) acc xs
      → insert_all (insert_plain before) xs acc ≡ acc ++ xs
  unfolding insert_all
  insert_all-plain_from [] acc s h = sym (append-nil acc)
  insert_all-plain_from (x ∷ xs) acc s h = rw (insert_plain_last x acc h.0) (
      insert_all-plain_from xs (acc ++ (x ∷ [])) s.1
        (Parts-step (λ y x. before y x ≡ true) acc xs x h.1 s.0)
      ∙ append_assoc acc (x ∷ []) xs)

  insert_all-multi_from :
      (xs acc : List E)
      → IsWeaklySorted xs
      → Parts (λ y x. before x y ≡ false) acc xs
      → insert_all (insert_multi before) xs acc ≡ acc ++ xs
  unfolding insert_all
  insert_all-multi_from [] acc s h = sym (append-nil acc)
  insert_all-multi_from (x ∷ xs) acc s h = rw (insert_multi_last x acc h.0) (
      insert_all-multi_from xs (acc ++ (x ∷ [])) s.1
        (Parts-step (λ y x. before x y ≡ false) acc xs x h.1 s.0)
      ∙ append_assoc acc (x ∷ []) xs)

Parts-nil : {E : Type 0} (R : E → E → Type 0) (xs : List E) → All (λ x. All (λ y. R y x) []) xs
Parts-nil R [] = tt
Parts-nil R (x ∷ xs) = (tt, Parts-nil R xs)

pub insert_all-plain :
    {E : Type 0} (before : E → E → Bool) (xs : List E)
    → IsSorted before xs
    → insert_all (insert_plain before) xs [] ≡ xs
insert_all-plain before xs s =
    insert_all-plain_from before xs [] s (Parts-nil (λ y x. before y x ≡ true) xs)

pub insert_all-multi :
    {E : Type 0} (before : E → E → Bool) (xs : List E)
    → IsWeaklySorted before xs
    → insert_all (insert_multi before) xs [] ≡ xs
insert_all-multi before xs s =
    insert_all-multi_from before xs [] s (Parts-nil (λ y x. before x y ≡ false) xs)
