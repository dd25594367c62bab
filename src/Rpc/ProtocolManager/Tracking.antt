-- ===== src/Rpc/ProtocolManager/Tracking.antt =====
-- Which messages `readMes` of source/rpc/protocol_manager.cpp stores, returns and forgets.
use fish_rpc.Prelude.{
  if◌then◌else◌, ==_refl, Bool-cases, length, drop, All, ℕ, ◌+◌, ◌^◌, ◌≤◌, ◌<◌, ◌≡◌, refl, sym, ap,
  ◌∙◌, subst, ◌≢◌, ◌⊎◌, inl, inr, Bool, true, false, Option, none, some, List, [], arith,
}
use fish_rpc.Prelude.Outcome.{ok, >>=-eq-ok, ok-injective}
use fish_rpc.Prelude.Int.{ℤ, pos, negsuc, pos_part, ◌≤ℤ◌}
use fish_rpc.Prelude.Assoc.{lookup, lookup-insert, lookup-erase, All-lookup, All-erase, All-insert}
use fish_rpc.Net.Buffer
use fish_rpc.Net.Buffer.{Buffer}
use fish_rpc.Net.Buffer.Queue.{IsValid, erase_data-drops}
use fish_rpc.Rpc.Protocol.{
  Protocol, Msg, View, RpcState, construct, create, state_code, take_content, found,
}
use fish_rpc.Rpc.Protocol.Machine.{create-Bounded, create-Returned, Returned}
use fish_rpc.Rpc.ProtocolManager.{
  ProtocolManager, view_of, is_ready, max_zero, update, current, read_mes,
}

-- The message that the read goes on with.
abbrev pub going_on : Msg → ℕ → ProtocolManager → Protocol
going_on junk fd m = (current junk (lookup fd m.undo_protols)).0

abbrev was_stored : Msg → ℕ → ProtocolManager → Bool
was_stored junk fd m = (current junk (lookup fd m.undo_protols)).1

max_zero-le :
    (n : ℤ) (k : ℕ) → n ≤ℤ pos k → (j : ℕ) × (max_zero n ≡ pos j) × (j ≤ k) × (j ≡ pos_part n)
max_zero-le (pos n) k h = (n, refl, omega arith, refl)
max_zero-le (negsuc n) k h = (0, refl, omega arith, refl)

-- In a valid buffer, and where the bytes in view and the content held are fewer than 2 ^ 31: if
-- `create` returns, `readMes` does. It removes from the buffer exactly the bytes that `create`
-- counted, none if the count is negative, never trips the assertion of `eraseData`, and keeps the
-- buffer valid.
pub read_mes_total :
    (junk : Msg) (fd : ℕ) (m : ProtocolManager) {b : Buffer} {n : ℤ} {p : Protocol}
    → IsValid b
    → length (Buffer.dis_read b) + length (going_on junk fd m).content < 2 ^ 31
    → create (view_of b) (going_on junk fd m) ≡ ok (n, p)
    → (r : Option Protocol) × (m' : ProtocolManager) × (b' : Buffer) × (read_mes junk fd m b
        ≡ ok (r, m', b'))
      × IsValid b'
      × (Buffer.dis_read b' ≡ drop (pos_part n) (Buffer.dis_read b))
unfolding read_mes
read_mes_total junk fd m {b} {n} {p} v small e =
    let bound = create-Bounded (view_of b) (going_on junk fd m) small e in
    let (j, z, le, q) = max_zero-le n (length (Buffer.dis_read b)) bound in
    let (b', er, v', d) = erase_data-drops j v le in
    (
      if is_ready p then some p else none,
      record { undo_protols = update (is_ready p) (was_stored junk fd m) fd p m.undo_protols },
      b',
      rw (e, z, er),
      v',
      d ∙ rw q,
    )

-- A message that may be stored: it is not complete, and holds content only if it is stuck in LACK.
pub record IsPending (p : Protocol) : Type 0 where
  pub unfinished : p.state ≢ RpcState.ready
  pub bare : (p.state ≡ RpcState.lack) ⊎ (p.content ≡ [])

construct-IsPending : (junk : Msg) → IsPending (construct junk)
unfolding construct
construct-IsPending junk = record { unfinished = λ e. cc; bare = inr refl }

found-IsPending :
    (i : ℕ) (s : List ℕ) (p : Protocol) (m : Msg)
    → IsPending p
    → p.state ≡ RpcState.free
    → IsPending (found i s p m).1
unfolding found
found-IsPending i s p m h st = ground arith

take_content-IsPending :
    (v : View) (p : Protocol) (m : Msg)
    → (take_content v p m).1.state ≢ RpcState.ready
    → IsPending (take_content v p m).1
unfolding take_content
take_content-IsPending v p m h = ground arith

create-IsPending :
    (v : View) (p : Protocol) {n : ℤ} {p' : Protocol}
    → IsPending p
    → create v p ≡ ok (n, p')
    → p'.state ≢ RpcState.ready
    → IsPending p'
create-IsPending v p {n} {p'} h e u = elim (create-Returned v p e) [
  | Returned.idle k b q ↦ subst (λ (r : ℤ × Protocol). IsPending r.1) (sym q) h
  | Returned.head i m st lt q ↦
      subst (λ (r : ℤ × Protocol). IsPending r.1) (sym q)
        (found-IsPending i (drop i v.bytes) p m h st)
  | Returned.body m st fits q ↦
      subst (λ (r : ℤ × Protocol). IsPending r.1) (sym q)
        (take_content-IsPending v p m (λ x. u (ap (λ (r : ℤ × Protocol). r.1.state) q ∙ x)))
]

-- Every stored message is pending.
abbrev pub AllPending : ProtocolManager → Type 0
AllPending m = All (λ e. IsPending e.1) m.undo_protols

current-IsPending :
    (junk : Msg) (o : Option Protocol)
    → ((p : Protocol) → o ≡ some p → IsPending p)
    → IsPending (current junk o).0
unfolding current
current-IsPending junk none h = construct-IsPending junk
current-IsPending junk (some p) h = h p refl

pub going_on-IsPending :
    (junk : Msg) (fd : ℕ) (m : ProtocolManager) → AllPending m → IsPending (going_on junk fd m)
going_on-IsPending junk fd m all =
    current-IsPending junk (lookup fd m.undo_protols)
      (λ p e. All-lookup IsPending fd m.undo_protols all e)

-- What a read leaves behind: with a complete message, nothing is stored for the connection; else
-- the pending one is. Other connections keep what they had.
pub record Tracks (fd : ℕ) (undo : List (ℕ × Protocol)) (p : Protocol) (undo' : List (ℕ × Protocol))
    : Type 0 where
  pub own : lookup fd undo' ≡ (if is_ready p then none else some p)
  pub others : (k : ℕ) → k ≢ fd → lookup k undo' ≡ lookup k undo

update-Tracks :
    (ready old : Bool) (fd : ℕ) (undo : List (ℕ × Protocol)) (p : Protocol)
    → is_ready p ≡ ready
    → (old ≡ false → lookup fd undo ≡ none)
    → Tracks fd undo p (update ready old fd p undo)
unfolding update
update-Tracks true true fd undo p e f = record {
  own = rw e (lookup-erase fd fd undo ∙ rw (==_refl fd));
  others = λ k ne. ground (arith, lookup-erase fd k undo);
}
update-Tracks true false fd undo p e f = record { own = rw e (f refl); others = λ k ne. refl }
update-Tracks false true fd undo p e f = record {
  own = rw e (lookup-insert fd fd p undo ∙ rw (==_refl fd));
  others = λ k ne. ground (arith, lookup-insert fd k p undo);
}
update-Tracks false false fd undo p e f = record {
  own = rw e (lookup-insert fd fd p undo ∙ rw (==_refl fd));
  others = λ k ne. ground (arith, lookup-insert fd k p undo);
}

current_not_stored : (junk : Msg) (o : Option Protocol) → (current junk o).1 ≡ false → o ≡ none
unfolding current
current_not_stored junk none h = refl
current_not_stored junk (some p) h = cc

update-AllPending :
    (ready old : Bool) (fd : ℕ) (undo : List (ℕ × Protocol)) (p : Protocol)
    → (ready ≡ false → IsPending p)
    → All (λ e. IsPending e.1) undo
    → All (λ e. IsPending e.1) (update ready old fd p undo)
unfolding update
update-AllPending true true fd undo p h a = All-erase IsPending fd undo a
update-AllPending true false fd undo p h a = a
update-AllPending false true fd undo p h a = All-insert IsPending fd p undo (h refl) a
update-AllPending false false fd undo p h a = All-insert IsPending fd p undo (h refl) a

-- The steps of a read that returns.
pub record Read (junk : Msg) (fd : ℕ) (m : ProtocolManager) (b : Buffer) (r : Option Protocol)
    (m' : ProtocolManager) (b' : Buffer) : Type 0 where
  pub n : ℤ
  pub p : Protocol
  pub created : create (view_of b) (going_on junk fd m) ≡ ok (n, p)
  pub erased : Buffer.erase_data (max_zero n) b ≡ ok b'
  pub result : r ≡ (if is_ready p then some p else none)
  pub stored : m'.undo_protols ≡ update (is_ready p) (was_stored junk fd m) fd p m.undo_protols

pub read_mes-Read :
    (junk : Msg) (fd : ℕ) (m : ProtocolManager) (b : Buffer) {r : Option Protocol}
    {m' : ProtocolManager} {b' : Buffer}
    → read_mes junk fd m b ≡ ok (r, m', b')
    → Read junk fd m b r m' b'
unfolding read_mes
read_mes-Read junk fd m b h =
    let ((n, p), e, k) = >>=-eq-ok (create (view_of b) (going_on junk fd m)) _ h in
    let (b'', er, q) = >>=-eq-ok (Buffer.erase_data (max_zero n) b) _ k in
    let t = ok-injective q in
    record {
      n = n;
      p = p;
      created = e;
      erased = er ∙ ap (λ x. ok x.2) t;
      result = sym (ap (λ x. x.0) t);
      stored = sym (ap (λ x. x.1.undo_protols) t);
    }

Read-IsPending :
    {junk : Msg} {fd : ℕ} {m : ProtocolManager} {b : Buffer} {r : Option Protocol}
    {m' : ProtocolManager} {b' : Buffer}
    → AllPending m
    → (s : Read junk fd m b r m' b') → is_ready s.p ≡ false
    → IsPending s.p
Read-IsPending {junk} {fd} {m} {b} all s u =
    create-IsPending (view_of b) (going_on junk fd m) (going_on-IsPending junk fd m all) s.created
      (λ e. cc (ap state_code e, u))

pub Read-Tracks :
    {junk : Msg} {fd : ℕ} {m : ProtocolManager} {b : Buffer} {r : Option Protocol}
    {m' : ProtocolManager} {b' : Buffer}
    → (s : Read junk fd m b r m' b') → Tracks fd m.undo_protols s.p m'.undo_protols
Read-Tracks {junk} {fd} {m} s = rw s.stored (
    update-Tracks (is_ready s.p) (was_stored junk fd m) fd m.undo_protols s.p refl
      (current_not_stored junk (lookup fd m.undo_protols)))

-- A read that returns, where every stored message is pending, keeps every stored message pending,
-- and does not touch what is stored for another connection.
pub read_mes_keeps :
    (junk : Msg) (fd k : ℕ) (m : ProtocolManager) (b : Buffer) {r : Option Protocol}
    {m' : ProtocolManager} {b' : Buffer}
    → AllPending m
    → k ≢ fd
    → read_mes junk fd m b ≡ ok (r, m', b')
    → AllPending m' × (lookup k m'.undo_protols ≡ lookup k m.undo_protols)
read_mes_keeps junk fd k m b all ne h =
    let s = read_mes-Read junk fd m b h in
    (
      rw s.stored (
          update-AllPending (is_ready s.p) (was_stored junk fd m) fd m.undo_protols s.p
            (Read-IsPending all s) all),
      (Read-Tracks s).others k ne,
    )

-- A read that returns no message, where every stored message is pending, leaves a pending one
-- stored for its connection.
pub read_mes_stores :
    (junk : Msg) (fd : ℕ) (m : ProtocolManager) (b : Buffer) {m' : ProtocolManager} {b' : Buffer}
    → AllPending m
    → read_mes junk fd m b ≡ ok (none, m', b')
    → (p : Protocol) × (lookup fd m'.undo_protols ≡ some p) × IsPending p
read_mes_stores junk fd m b all h =
    let s = read_mes-Read junk fd m b h in
    elim (Bool-cases (is_ready s.p)) [
      | inl e ↦ cc (rw e at s.result)
      | inr e ↦ (s.p, (Read-Tracks s).own ∙ rw e, Read-IsPending all s e)
    ]
