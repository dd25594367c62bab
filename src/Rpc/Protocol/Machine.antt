-- ===== src/Rpc/Protocol/Machine.antt =====
-- One call of `create` in source/rpc/protocol.cpp: what it counts as read, and what makes a message
-- READY.
use fish_rpc.Prelude.{
  ltb, Bool-cases, Option-cases, length, take, drop, length-append, length-take, length-drop, ℕ,
  ◌+◌, ◌^◌, ◌<◌, ◌≡◌, refl, sym, ap, ◌∙◌, subst, ◌≢◌, inl, inr, some, List, [], ◌∷◌, ◌++◌, arith,
}
use fish_rpc.Prelude.Outcome.{ok-injective, ok, >>=-eq-ok}
use fish_rpc.Prelude.Int.{ℤ, pos, negsuc, pos_part, neg_part, ◌≤ℤ◌, to_word, to_word-lt}
use fish_rpc.Rpc.Protocol.{
  Protocol, Msg, View, RpcState, create, create_by, create_free, create_wait, found, take_content,
  df_head_length, df_magic, find, copy_head, missing, read_content_length,
}

pub find-lt : (c : ℕ) (xs : List ℕ) {i : ℕ} → find c xs ≡ some i → i < length xs
unfolding find
find-lt c [] h = cc
find-lt c (x ∷ xs) h = elim (Option-cases (find c xs)) [
  | inl e ↦ ground (arith, e)
  | inr (k, e) ↦ ground (arith, e, find-lt c xs e)
]

-- The bytes that a call counts as read are among those in view.
abbrev Bounded : View → ℤ × Protocol → Type 0
Bounded v r = r.0 ≤ℤ pos (length v.bytes)

found-Bounded :
    (v : View) (p : Protocol) (m : Msg) (i : ℕ)
    → length v.bytes < 2 ^ 31
    → i < length v.bytes
    → Bounded v (found i (drop i v.bytes) p m)
unfolding found
found-Bounded v p m i small h = ground (arith, length-drop i v.bytes)

-- With the whole content in view the count is of what is missing from the grown content, and so is
-- never positive.
take_content-count :
    (v : View) (p : Protocol) (m : Msg)
    → length v.bytes + length p.content < 2 ^ 31
    → m.content_length < 2 ^ 32
    → (take_content v p m).0 ≤ℤ pos 0
unfolding take_content
take_content-count v p m small fits =
    let k = missing m.content_length p.content in
    ground (arith, length-append p.content (take k v.bytes), length-take k v.bytes)

-- The ways in which a call of `create` returns.
pub data Returned (v : View) (p : Protocol) (r : ℤ × Protocol) : Type 0 where
  idle : (n : ℤ) → n ≤ℤ pos 0 → r ≡ (n, p) → Returned v p r
  head :
      (i : ℕ) (m : Msg)
      → p.state ≡ RpcState.free
      → i < length v.bytes
      → r ≡ found i (drop i v.bytes) p m
      → Returned v p r
  body :
      (m : Msg)
      → p.state ≡ RpcState.wait_content
      → m.content_length < 2 ^ 32
      → r ≡ take_content v p m
      → Returned v p r

create_free-Returned :
    (v : View) (p : Protocol) {r : ℤ × Protocol}
    → p.state ≡ RpcState.free
    → create_free v p ≡ ok r
    → Returned v p r
unfolding create_free
create_free-Returned v p st h = elim (Option-cases (find df_magic v.bytes)) [
  | inl e ↦ Returned.idle (negsuc 0) (omega arith) (sym (ok-injective (rw (e, create_free) at h)))
  | inr (i, e) ↦
      let (m, _, q) =
        >>=-eq-ok (copy_head (drop i v.bytes ++ v.behind) p.msg)
          (λ m. ok (found i (drop i v.bytes) p m)) (rw (e, create_free) at h) in
      Returned.head i m st (find-lt df_magic v.bytes e) (sym (ok-injective q))
]

create_wait-Returned :
    (v : View) (p : Protocol) {r : ℤ × Protocol}
    → p.state ≡ RpcState.wait_content
    → create_wait v p ≡ ok r
    → Returned v p r
unfolding create_wait
create_wait-Returned v p st h =
    let (cl, _, q) = >>=-eq-ok (read_content_length p.msg) _ h in
    Returned.body (record p.msg { content_length = to_word (2 ^ 32) cl }) st
      (to_word-lt (2 ^ 32) cl (omega arith)) (sym (ok-injective q))

create_by-Returned :
    (s : RpcState) (v : View) (p : Protocol) {r : ℤ × Protocol}
    → p.state ≡ s
    → create_by s v p ≡ ok r
    → Returned v p r
unfolding create_by
create_by-Returned RpcState.free v p st h = create_free-Returned v p st h
create_by-Returned RpcState.wait_content v p st h = create_wait-Returned v p st h
create_by-Returned _ v p st h = Returned.idle (pos 0) (omega arith) (sym (ok-injective h))

pub create-Returned :
    (v : View) (p : Protocol) {r : ℤ × Protocol} → create v p ≡ ok r → Returned v p r
unfolding create
create-Returned v p h = elim (Bool-cases (ltb (length v.bytes) df_head_length)) [
  | inl e ↦ Returned.idle (negsuc 0) (omega arith) (sym (ok-injective (rw e at h)))
  | inr e ↦ create_by-Returned p.state v p refl (rw e at h)
]

-- Where the bytes in view and the content held are fewer than 2 ^ 31, a call of `create` that
-- returns counts no more bytes as read than there are in view.
pub create-Bounded :
    (v : View) (p : Protocol) {n : ℤ} {p' : Protocol}
    → length v.bytes + length p.content < 2 ^ 31
    → create v p ≡ ok (n, p')
    → n ≤ℤ pos (length v.bytes)
create-Bounded v p small h = elim (create-Returned v p h) [
  | Returned.idle k b e ↦ omega (arith, ap (λ r. pos_part r.0) e, ap (λ r. neg_part r.0) e)
  | Returned.head i m st lt e ↦ rw (ap (λ r. r.0) e) (found-Bounded v p m i (omega arith) lt)
  | Returned.body m st fits e ↦ omega (
    arith,
    ap (λ r. pos_part r.0) e,
    ap (λ r. neg_part r.0) e,
    take_content-count v p m (omega arith) fits,
  )
]

found-not_ready :
    (i : ℕ) (s : List ℕ) (p : Protocol) (m : Msg) → (found i s p m).1.state ≢ RpcState.ready
unfolding found
found-not_ready i s p m = ground arith

-- What a message that has become READY in this call holds, where it held no content before.
abbrev Completed : View → ℤ × Protocol → Type 0
Completed v (n, p') =
    (n ≡ pos 0)
    × (p'.content ≡ take p'.msg.content_length v.bytes)
    × (length p'.content ≡ p'.msg.content_length)

take_content-Completed_empty :
    (v : View) (p : Protocol) (m : Msg)
    → m.content_length < 2 ^ 32
    → (take_content v (record p { content = [] }) m).1.state ≡ RpcState.ready
    → Completed v (take_content v (record p { content = [] }) m)
unfolding take_content
take_content-Completed_empty v p m fits h =
    let k = missing m.content_length [] in
    let e : k ≡ m.content_length = omega arith in ground (arith, length-take k v.bytes, e)

take_content-Completed :
    (v : View) (p : Protocol) (m : Msg)
    → p.content ≡ []
    → m.content_length < 2 ^ 32
    → (take_content v p m).1.state ≡ RpcState.ready
    → Completed v (take_content v p m)
take_content-Completed v p m bare fits h =
    subst
      (λ c.
        (take_content v (record p { content = c }) m).1.state ≡ RpcState.ready
        → Completed v (take_content v (record p { content = c }) m))
      (sym bare) (take_content-Completed_empty v p m fits) h

-- A message without content that is not READY becomes so only from WAITCONTENT, with a content of
-- the announced length taken from the front of the view, and that call returns 0.
pub create_completes :
    (v : View) (p : Protocol) {n : ℤ} {p' : Protocol}
    → p.content ≡ []
    → p.state ≢ RpcState.ready
    → create v p ≡ ok (n, p')
    → p'.state ≡ RpcState.ready
    → (p.state ≡ RpcState.wait_content)
      × (n ≡ pos 0)
      × (p'.content ≡ take p'.msg.content_length v.bytes)
      × (length p'.content ≡ p'.msg.content_length)
create_completes v p {n} {p'} bare fresh h done = elim (create-Returned v p h) [
  | Returned.idle k b e ↦ absurd (fresh (sym (ap (λ r. r.1.state) e) ∙ done))
  | Returned.head i m st lt e ↦
      absurd (found-not_ready i (drop i v.bytes) p m (sym (ap (λ r. r.1.state) e) ∙ done))
  | Returned.body m st fits e ↦
      let whole : Completed v (n, p') =
        subst (Completed v) (sym e)
          (take_content-Completed v p m bare fits (sym (ap (λ r. r.1.state) e) ∙ done)) in
      (st, whole.0, whole.1, whole.2)
]
