-- ===== src/Rpc/Serializer/Loops.antt =====
-- The element loops of the readers in Fish/rpc/serializer.h, over a buffer that holds encoded
-- elements.
use fish_rpc.Prelude.{
  length, All, length-append, set-append, ℕ, zero, suc, ◌+◌, ◌≡◌, refl, sym, ap, ◌∙◌, List, [], ◌∷◌,
  ◌++◌, append-nil, append_assoc, arith,
}
use fish_rpc.Prelude.Outcome.{Outcome, ok}
use fish_rpc.Rpc.SeriBuf.{SeriBuf}
use fish_rpc.Rpc.Containers.Order.{insert_all}
use fish_rpc.Rpc.Serializer.{resize, read_each, read_at, push_back, Outcome}
use fish_rpc.Rpc.Serializer.Format.{concat_map}

-- `read` takes the encoding of `v` off the front of any buffer, and delivers `v`.
abbrev pub Reads : {A : Type 0} → (SeriBuf → Outcome (A × SeriBuf)) → (A → List ℕ) → A → Type 0
Reads read enc v =
    (rest : List ℕ) → read (record { buf = enc v ++ rest }) ≡ ok (v, record { buf = rest })

pub read_each-encoded :
    {A : Type 0} (read : SeriBuf → Outcome (A × SeriBuf)) (enc : A → List ℕ)
    (add : A → List A → List A) (vs acc : List A) (rest : List ℕ)
    → All (Reads read enc) vs
    → read_each read add (length vs) acc (record { buf = concat_map enc vs ++ rest })
      ≡ ok (insert_all add vs acc, record { buf = rest })
unfolding read_each concat_map insert_all
read_each-encoded read enc add [] acc rest h = refl
read_each-encoded read enc add (v ∷ vs) acc rest h =
    rw (append_assoc (enc v) (concat_map enc vs) rest, h.0 (concat_map enc vs ++ rest))
      (read_each-encoded read enc add vs (add v acc) rest h.1)

pub insert_all-push_back : {A : Type 0} (vs acc : List A) → insert_all push_back vs acc ≡ acc ++ vs
unfolding insert_all push_back
insert_all-push_back [] acc = sym (append-nil acc)
insert_all-push_back (v ∷ vs) acc =
    insert_all-push_back vs (acc ++ (v ∷ [])) ∙ append_assoc acc (v ∷ []) vs

-- The loop of the vector's reader fills the slots behind those that it has filled.
read_at_from :
    {A : Type 0} (read : SeriBuf → Outcome (A × SeriBuf)) (enc : A → List ℕ)
    (vs done slots : List A) (i : ℕ) (rest : List ℕ)
    → i ≡ length done
    → length slots ≡ length vs
    → All (Reads read enc) vs
    → read_at read (length vs) i (done ++ slots) (record { buf = concat_map enc vs ++ rest })
      ≡ ok (done ++ vs, record { buf = rest })
unfolding read_at concat_map
read_at_from read enc [] done [] i rest e l h = refl
read_at_from read enc [] done (s ∷ ss) i rest e l h = absurd (omega arith)
read_at_from read enc (v ∷ vs) done [] i rest e l h = absurd (omega arith)
read_at_from read enc (v ∷ vs) done (s ∷ ss) i rest e l h =
    rw
      (
        append_assoc (enc v) (concat_map enc vs) rest,
        h.0 (concat_map enc vs ++ rest),
        e,
        set-append done ss s v,
        ← append_assoc done (v ∷ []) ss,
      )
      (read_at_from read enc vs (done ++ (v ∷ [])) ss (length done + 1) rest
          (omega (arith, length-append done (v ∷ []))) (omega arith) h.1
        ∙ rw (append_assoc done (v ∷ []) vs))

pub length-resize : {A : Type 0} (n : ℕ) (a : A) (xs : List A) → length (resize n a xs) ≡ n
unfolding resize
length-resize zero a xs = refl
length-resize (suc n) a [] = ap suc (length-resize n a [])
length-resize (suc n) a (x ∷ xs) = ap suc (length-resize n a xs)

pub read_at-encoded :
    {A : Type 0} (read : SeriBuf → Outcome (A × SeriBuf)) (enc : A → List ℕ) (vs slots : List A)
    (rest : List ℕ)
    → length slots ≡ length vs
    → All (Reads read enc) vs
    → read_at read (length vs) 0 slots (record { buf = concat_map enc vs ++ rest })
      ≡ ok (vs, record { buf = rest })
read_at-encoded read enc vs slots rest = read_at_from read enc vs [] slots 0 rest refl
