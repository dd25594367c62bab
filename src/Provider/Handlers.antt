-- ===== src/Provider/Handlers.antt =====
-- Fish/provider/rpc_provider.h and source/provider/rpc_provider.cpp: what a provider does with the
-- messages that it reads. `has_logger` says whether `LogThread::init` has made the logger: a line of
-- an enabled level goes through the pointer to it, and changes nothing else here. LOG_INFO is off.
mod Tests
use fish_rpc.Prelude.{
  Bool, ◌||◌, not, true, false, ltb, leb, ◌==◌, if◌then◌else◌, Bool-cases, length, ℕ, ◌+◌, ◌^◌, ◌≡◌,
  refl, sym, ap, ◌∙◌, subst, inl, inr, Option, none, some, List, [], ◌∷◌,
}
use fish_rpc.Prelude.Outcome.{Outcome, ok, Fault, ◌>>=◌, ◌>>◌, check, >>=-eq-ok, ok-injective}
use fish_rpc.Prelude.Int.{ℤ, to_word}
use fish_rpc.Net.Buffer.{Buffer}
use fish_rpc.Rpc.Protocol.{
  Msg, MsgType, type_code, Protocol, RpcState, View, create, create_wait, take_content,
  read_content_length, df_head_length, result, str_size,
}
use fish_rpc.Rpc.ProtocolManager.{ProtocolManager, read_mes, is_ready, view_of}
use fish_rpc.Net.Buffer.Queue.{IsValid}
use mathlib.Core.Option.{some_inj}
use fish_rpc.Rpc.ProtocolManager.Tracking.{AllPending, going_on, read_mes-Read}
use fish_rpc.Rpc.ProtocolManager.Delivery.{read_mes_delivers}

-- `hanleHealth`: the texts that it sends. No branch of its `switch` gives `responce` a value.
unfoldable pub hanle_health : Bool → Protocol → Outcome (List (List ℕ))
unfolding result
hanle_health has_logger p = do
  check (p.msg.msg_type == type_code MsgType.heartbeat) Fault.assert_failed
  check (p.msg.msg_id == 1 || has_logger) Fault.null_pointer
  let responce : Option Protocol = none
  text ← result p
  ok (elim responce [ none ↦ [] | some _ ↦ text ∷ [] ])

-- What `handleRead` does with a message.
unfoldable pub handle_protocol : Bool → Protocol → Outcome (List (List ℕ))
unfolding hanle_health
handle_protocol has_logger p = do
  check (is_ready p) Fault.assert_failed
  check (not (p.msg.msg_type == type_code MsgType.nonsence) || has_logger) Fault.null_pointer
  if p.msg.msg_type == type_code MsgType.heartbeat then hanle_health has_logger p else ok []

-- `handleRead`: the texts, the map of messages and the read buffer.
unfoldable pub handle_read :
    Bool → Msg → ℕ → ProtocolManager → Buffer → Outcome (List (List ℕ) × ProtocolManager × Buffer)
unfolding handle_protocol
handle_read has_logger junk fd protocols b = do
  (protocol, m, b') ← read_mes junk fd protocols b
  texts ← elim protocol [ none ↦ ok [] | some p ↦ handle_protocol has_logger p ]
  ok (texts, m, b')

length_checked :
    (m : Msg) {c : ℤ} → read_content_length m ≡ ok c → leb m.total_length str_size ≡ true
unfolding read_content_length
length_checked m {c} h = elim (Bool-cases (leb m.total_length str_size)) [
  | inl e ↦ e
  | inr e ↦ elim (Bool-cases (leb 4 m.total_length)) [
    | inl four ↦ cc (rw (four, e) at h)
    | inr few ↦ cc (rw few at h)
  ]
]

take_content-total_length :
    (v : View) (p : Protocol) (m : Msg) → (take_content v p m).1.msg.total_length ≡ m.total_length
unfolding take_content
take_content-total_length v p m =
    elim (Bool-cases (ltb (length v.bytes + length p.content) m.content_length)) [
      | inl e ↦ rw (take_content, e) refl
      | inr e ↦ rw (take_content, e) refl
    ]

-- A message that is completed has a length that was checked.
create-total_length :
    (v : View) (p : Protocol) {n : ℤ} {q : Protocol}
    → p.state ≡ RpcState.wait_content
    → q.state ≡ RpcState.ready
    → create v p ≡ ok (n, q)
    → leb q.msg.total_length str_size ≡ true
unfolding create create_wait
create-total_length v p {n} {q} waits ready h =
    elim (Bool-cases (ltb (length v.bytes) df_head_length)) [
      | inl short ↦
          let same : p ≡ q = ap (λ (x : ℤ × Protocol). x.1) (ok-injective (rw short at h)) in
          cc (ap (λ (x : Protocol). x.state) same, waits, ready)
      | inr long ↦
          let (c, e, rest) = >>=-eq-ok (read_content_length p.msg) _ (rw (long, waits) at h) in
          let taken = ap (λ (x : ℤ × Protocol). x.1.msg.total_length) (ok-injective rest) in
          let same =
            sym (
              take_content-total_length v (record p { state = RpcState.wait_content })
                (record p.msg { content_length = to_word (2 ^ 32) c }))
            ∙ taken in
          subst (λ k. leb k str_size ≡ true) same (length_checked p.msg e)
    ]

or_true : (b : Bool) → (b || true) ≡ true
or_true true = refl
or_true false = refl

handle_protocol-silent :
    (p : Protocol)
    → p.state ≡ RpcState.ready
    → leb p.msg.total_length str_size ≡ true
    → handle_protocol true p ≡ ok []
unfolding handle_protocol hanle_health result
handle_protocol-silent p ready within = elim (Bool-cases (p.msg.msg_type == 1)) [
  | inr other ↦ rw (ready, or_true (not (p.msg.msg_type == 0)), other) refl
  | inl heart ↦
      rw (ready, or_true (not (p.msg.msg_type == 0)), heart, or_true (p.msg.msg_id == 1), within)
        refl
]

-- Where the logger was made, every stored message is pending and the read buffer is valid: if `readMes` returns, so does
-- `handleRead`, with the same messages stored and the same buffer, and none of its assertions
-- fails; it sends nothing, whatever the message is.
pub handle_read-silent :
    (junk : Msg) (fd : ℕ) (protocols : ProtocolManager) {b : Buffer} {o : Option Protocol}
    {m : ProtocolManager} {b' : Buffer}
    → AllPending protocols
    → IsValid b
    → read_mes junk fd protocols b ≡ ok (o, m, b')
    → handle_read true junk fd protocols b ≡ ok ([], m, b')
unfolding handle_read
handle_read-silent junk fd protocols {o = none} all v e = rw e refl
handle_read-silent junk fd protocols {b} {o = some p} {m} all v e =
    let s = read_mes-Read junk fd protocols b e in
    let (ready, removed, found, waits, rest, kept) = read_mes_delivers junk fd protocols all v e in
    let same : p ≡ s.p = elim (Bool-cases (is_ready s.p)) [
      | inl done ↦ some_inj.0 (rw done at s.result)
      | inr other ↦ cc (rw other at s.result)
    ] in
    let within =
      create-total_length (view_of b) (going_on junk fd protocols) waits
        (ap (λ (x : Protocol). x.state) (sym same) ∙ ready) s.created in
    rw
      (
        e,
        handle_protocol-silent p ready
            (subst (λ (x : Protocol). leb x.msg.total_length str_size ≡ true) (sym same) within),
      )
      refl
