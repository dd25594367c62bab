-- ===== src/Prelude/Texts.antt =====
-- The comparison of two texts, as `std::string` and `std::map` compare them for equality.
use fish_rpc.Prelude.{
  ◌==◌, ==→eq, ==_refl, Bool-cases, ℕ, ◌≡◌, refl, ◌≢◌, inl, inr, Bool, true, false, ◌&&◌, List, [],
  ◌∷◌,
}

unfoldable pub same_text : List ℕ → List ℕ → Bool
same_text [] [] = true
same_text [] (y ∷ ys) = false
same_text (x ∷ xs) [] = false
same_text (x ∷ xs) (y ∷ ys) = (x == y) && same_text xs ys

pub same_text_refl : (xs : List ℕ) → same_text xs xs ≡ true
unfolding same_text
same_text_refl [] = refl
same_text_refl (x ∷ xs) = rw (==_refl x, same_text_refl xs)

pub same_text_sound : (xs ys : List ℕ) → same_text xs ys ≡ true → xs ≡ ys
unfolding same_text
same_text_sound [] [] h = refl
same_text_sound [] (y ∷ ys) h = cc
same_text_sound (x ∷ xs) [] h = cc
same_text_sound (x ∷ xs) (y ∷ ys) h = elim (Bool-cases (x == y)) [
  | inl e ↦ rw (==→eq x y e, same_text_sound xs ys (rw e at h))
  | inr e ↦ cc (rw e at h)
]

pub same_text_differs : (xs ys : List ℕ) → xs ≢ ys → same_text xs ys ≡ false
same_text_differs xs ys ne = elim (Bool-cases (same_text xs ys)) [
  | inl e ↦ absurd (ne (same_text_sound xs ys e))
  | inr e ↦ e
]
