-- ===== src/Rpc/ProtocolManager/Delivery.antt =====
-- What `readMes` of source/rpc/protocol_manager.cpp returns as a complete message.
use fish_rpc.Prelude.{
  ◌==◌, Bool-cases, take, ℕ, ◌≡◌, refl, sym, ap, ◌∙◌, subst, inl, inr, true, Option, none, some, [],
  arith,
}
use fish_rpc.Prelude.Outcome.{ok, ok-injective}
use fish_rpc.Prelude.Int.{ℤ, pos}
use fish_rpc.Prelude.Assoc.{lookup}
use fish_rpc.Net.Buffer
use fish_rpc.Net.Buffer.{Buffer}
use fish_rpc.Net.Buffer.Queue.{IsValid, erase_data-drops}
use fish_rpc.Rpc.Protocol.{Protocol, Msg, View, RpcState, construct, create, state_code}
use fish_rpc.Rpc.Protocol.Machine.{create_completes}
use fish_rpc.Rpc.Protocol.Stuck.{create-idle, IsReading}
use mathlib.Core.Option.{some_inj}
use fish_rpc.Rpc.ProtocolManager.{ProtocolManager, view_of, is_ready, current, read_mes}
use fish_rpc.Rpc.ProtocolManager.Tracking.{
  going_on, IsPending, AllPending, going_on-IsPending, Read, Read-Tracks, read_mes-Read,
}

ready_of_is_ready :
    (s : RpcState) → (state_code s == state_code RpcState.ready) ≡ true → s ≡ RpcState.ready
ready_of_is_ready RpcState.ready h = refl
ready_of_is_ready RpcState.free h = cc
ready_of_is_ready _ h = cc

stored_of_wait :
    (junk : Msg) (o : Option Protocol)
    → (current junk o).0.state ≡ RpcState.wait_content
    → o ≡ some (current junk o).0
unfolding current construct
stored_of_wait junk none h = cc
stored_of_wait junk (some p) h = refl

-- A pending message that a call makes READY held no content.
bare_of_completed :
    (v : View) (p : Protocol) {n : ℤ} {p' : Protocol}
    → IsPending p
    → create v p ≡ ok (n, p')
    → p'.state ≡ RpcState.ready
    → p.content ≡ []
bare_of_completed v p {n} {p'} h e done = elim h.bare [
  | inr none_held ↦ none_held
  | inl stuck ↦
      let (k, q, _) = create-idle v p (λ r. subst IsReading stuck r) in
      let same : p ≡ p' = ap (λ (r : ℤ × Protocol). r.1) (ok-injective (sym q ∙ e)) in
      absurd (h.unfinished (ap (λ (r : Protocol). r.state) same ∙ done))
]

erase_none :
    (b b' : Buffer)
    → IsValid b
    → Buffer.erase_data (pos 0) b ≡ ok b'
    → Buffer.dis_read b' ≡ Buffer.dis_read b
erase_none b b' v h =
    let (c, e, _, d) = erase_data-drops 0 v (omega arith) in
    ap Buffer.dis_read (ok-injective (sym h ∙ e)) ∙ d

-- Where every stored message is pending and the buffer is valid: a read that returns a message
-- found it stored and waiting for its content; the message is READY and no longer stored; its
-- content is the front of the buffer, and the buffer can still be read as before, those bytes
-- included.
pub read_mes_delivers :
    (junk : Msg) (fd : ℕ) (m : ProtocolManager) {b : Buffer} {q : Protocol} {m' : ProtocolManager}
    {b' : Buffer}
    → AllPending m
    → IsValid b
    → read_mes junk fd m b ≡ ok (some q, m', b')
    → (q.state ≡ RpcState.ready)
      × (lookup fd m'.undo_protols ≡ none)
      × (lookup fd m.undo_protols ≡ some (going_on junk fd m))
      × ((going_on junk fd m).state ≡ RpcState.wait_content)
      × (q.content ≡ take q.msg.content_length (Buffer.dis_read b))
      × (Buffer.dis_read b' ≡ Buffer.dis_read b)
read_mes_delivers junk fd m {b} {q} {m'} {b'} all v h =
    let s = read_mes-Read junk fd m b h in
    elim (Bool-cases (is_ready s.p)) [
      | inr e ↦ cc (rw e at s.result)
      | inl e ↦ delivered s e (some_inj.0 (rw e at s.result))
    ]
  where
    delivered :
        (s : Read junk fd m b (some q) m' b')
        → is_ready s.p ≡ true
        → q ≡ s.p
        → (q.state ≡ RpcState.ready)
          × (lookup fd m'.undo_protols ≡ none)
          × (lookup fd m.undo_protols ≡ some (going_on junk fd m))
          × ((going_on junk fd m).state ≡ RpcState.wait_content)
          × (q.content ≡ take q.msg.content_length (Buffer.dis_read b))
          × (Buffer.dis_read b' ≡ Buffer.dis_read b)
    delivered s e same =
        let before = going_on-IsPending junk fd m all in
        let done = ready_of_is_ready s.p.state e in
        let (st, zero_read, text, _) =
          create_completes (view_of b) (going_on junk fd m)
            (bare_of_completed (view_of b) (going_on junk fd m) before s.created done)
            before.unfinished s.created done in
        (
          ap (λ (p : Protocol). p.state) same ∙ done,
          (Read-Tracks s).own ∙ rw e,
          stored_of_wait junk (lookup fd m.undo_protols) st,
          st,
          rw same text,
          erase_none b b' v (rw zero_read at s.erased),
        )
