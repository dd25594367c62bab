-- ===== src/Registry/Providers.antt =====
-- Registry: which messages register a provider, and how the providers are numbered.
use fish_rpc.Prelude.{
  ◌==◌, if◌then◌else◌, Bool-cases, length, get_elem?, ℕ, zero, suc, ◌+◌, ◌%◌, ◌^◌, ◌≡◌, refl, sym,
  ap, ◌∙◌, subst, inl, inr, Bool, ◌&&◌, ◌||◌, not, Option, none, some, List, [], ◌∷◌, ◌++◌,
  append-nil, arith, true, false, not,
}
use fish_rpc.Prelude.Outcome.{ok, >>=-eq-ok, ok-injective, fault, Fault}
use mathlib.Core.Option.{some_inj}
use fish_rpc.Net.Buffer.{Buffer}
use fish_rpc.Net.Buffer.Queue.{IsValid}
use fish_rpc.Rpc.Protocol.{Protocol, RpcState}
use fish_rpc.Rpc.ProtocolManager.{ProtocolManager, read_mes}
use fish_rpc.Rpc.ProtocolManager.Tracking.{AllPending, read_mes_keeps}
use fish_rpc.Rpc.ProtocolManager.Delivery.{read_mes_delivers}
use fish_rpc.Registry.{
  ProviderMes, RpcRegistry, Call, provider_mes, provider_new, handle_provider, dispatch,
  handle_message,
}

-- A message that announces a provider.
abbrev pub announces : Protocol → Bool
announces p = p.msg.msg_type == 2 && p.msg.msg_id == 1

module _ {Addr : Type 0} where
  -- What a read message adds to the `size` providers there are.
  abbrev pub added : Call Addr → ℕ → ℕ → Option Protocol → List (ProviderMes Addr)
  added call fd size none = []
  added call fd size (some p) = if announces p then provider_mes call fd size ∷ [] else []

  -- The registry after a call that read `o` and left `m`.
  abbrev pub with_added :
      Call Addr → ℕ → Option Protocol → ProtocolManager → RpcRegistry Addr → RpcRegistry Addr
  with_added call fd o m r = record {
    protocols = m;
    providers = r.providers ++ added call fd (length r.providers) o;
  }

  -- A message of type 0 was read, and there is no logger.
  abbrev pub unlogged : Call Addr → Option Protocol → Bool
  unlogged call none = false
  unlogged call (some p) = p.msg.msg_type == 0 && not call.has_logger

  unchanged :
      (m : ProtocolManager) (r : RpcRegistry Addr)
      → ok (record r { protocols = m })
        ≡ ok (record { protocols = m; providers = r.providers ++ [] })
  unchanged m r =
      ap (λ xs. ok (record { protocols = m; providers = xs })) (sym (append-nil r.providers))

  dispatch-added :
      (call : Call Addr) (fd : ℕ) (p : Protocol) (m : ProtocolManager) (r : RpcRegistry Addr)
      → p.state ≡ RpcState.ready
      → unlogged call (some p) ≡ false
      → dispatch call p fd (record r { protocols = m }) ≡ ok (with_added call fd (some p) m r)
  unfolding dispatch handle_provider provider_new
  dispatch-added call fd p m r ready logged =
      let passes : (not (p.msg.msg_type == 0) || call.has_logger) ≡ true = ground (arith, logged) in
      elim (Bool-cases (p.msg.msg_type == 2)) [
        | inr other ↦ rw (ready, passes, other) (unchanged m r)
        | inl provider ↦ elim (Bool-cases (p.msg.msg_id == 1)) [
          | inl new ↦ rw (ready, passes, provider, new) refl
          | inr old ↦ rw (ready, passes, provider, old) (unchanged m r)
        ]
      ]

  dispatch-unlogged :
      (call : Call Addr) (fd : ℕ) (p : Protocol) (r : RpcRegistry Addr)
      → p.state ≡ RpcState.ready
      → unlogged call (some p) ≡ true
      → dispatch call p fd r ≡ fault Fault.null_pointer
  unfolding dispatch
  dispatch-unlogged call fd p r ready bad =
      let stops : (not (p.msg.msg_type == 0) || call.has_logger) ≡ false = ground (arith, bad) in
      rw (ready, stops) refl

  pub handle_message-registers :
      (call : Call Addr) (fd : ℕ) (r : RpcRegistry Addr) {b : Buffer} {o : Option Protocol}
      {m : ProtocolManager} {b' : Buffer}
      → AllPending r.protocols
      → IsValid b
      → read_mes call.junk fd r.protocols b ≡ ok (o, m, b')
      → handle_message call fd r b
        ≡ (if unlogged call o then fault Fault.null_pointer else ok (with_added call fd o m r, b'))
  unfolding handle_message
  handle_message-registers call fd r {o = none} {m} {b'} all v e =
      rw e (ap (λ (x : RpcRegistry Addr). ok (x, b')) (ok-injective (unchanged m r)))
  handle_message-registers call fd r {o = some p} {m} all v e =
      let ready = (read_mes_delivers call.junk fd r.protocols all v e).0 in
      elim (Bool-cases (unlogged call (some p))) [
        | inl bad ↦
            rw (e, bad, dispatch-unlogged call fd p (record r { protocols = m }) ready bad) refl
        | inr good ↦ rw (e, good, dispatch-added call fd p m r ready good) refl
      ]

  -- The numbers from position `n` on.
  abbrev IsNumbered : ℕ → List (ProviderMes Addr) → Type 0
  IsNumbered n [] = Unit
  IsNumbered n (x ∷ xs) = (x.id ≡ n % 2 ^ 16) × IsNumbered (n + 1) xs

  append-IsNumbered :
      (n : ℕ) (xs : List (ProviderMes Addr)) (x : ProviderMes Addr)
      → IsNumbered n xs
      → x.id ≡ (n + length xs) % 2 ^ 16
      → IsNumbered n (xs ++ (x ∷ []))
  append-IsNumbered n [] x h e = (e ∙ omega arith, tt)
  append-IsNumbered n (y ∷ xs) x h e = (h.0, append-IsNumbered (n + 1) xs x h.1 (e ∙ omega arith))

  numbered-get_elem? :
      (n : ℕ) (xs : List (ProviderMes Addr)) (i : ℕ) {x : ProviderMes Addr}
      → IsNumbered n xs
      → get_elem? xs i ≡ some x
      → x.id ≡ (n + i) % 2 ^ 16
  numbered-get_elem? n [] i h e = cc
  numbered-get_elem? n (y ∷ xs) zero {x} h e =
      ap (λ z. z.id) (sym (some_inj.0 e)) ∙ h.0 ∙ omega arith
  numbered-get_elem? n (y ∷ xs) (suc i) h e = numbered-get_elem? (n + 1) xs i h.1 e ∙ omega arith

  added-IsNumbered :
      (call : Call Addr) (fd : ℕ) (o : Option Protocol) (xs : List (ProviderMes Addr))
      → IsNumbered 0 xs
      → IsNumbered 0 (xs ++ added call fd (length xs) o)
  added-IsNumbered call fd none xs h = rw (append-nil xs) h
  added-IsNumbered call fd (some p) xs h = elim (Bool-cases (announces p)) [
    | inl e ↦ rw e (append-IsNumbered 0 xs (provider_mes call fd (length xs)) h (omega arith))
    | inr e ↦ rw (e, append-nil xs) h
  ]

  -- A message arrives in the buffer of some channel.
  pub data Step (r r' : RpcRegistry Addr) : Type 0 where
    receives :
        (call : Call Addr) (fd : ℕ) (b b' : Buffer)
        → IsValid b
        → handle_message call fd r b ≡ ok (r', b')
        → Step r r'

  pub data Reach (r : RpcRegistry Addr) : RpcRegistry Addr → Type 0 where
    here : Reach r r
    next : {s t : RpcRegistry Addr} → Reach r s → Step s t → Reach r t

  abbrev pub start : RpcRegistry Addr
  start = record { protocols = record { undo_protols = [] }; providers = [] }

  abbrev IsSound : RpcRegistry Addr → Type 0
  IsSound r = AllPending r.protocols × IsNumbered 0 r.providers

  Step-IsSound : {r s : RpcRegistry Addr} → IsSound r → Step r s → IsSound s
  unfolding handle_message
  Step-IsSound {r} {s} (all, numbered) (receives call fd b b' v h) =
      let ((o, m, c), e, rest) = >>=-eq-ok (read_mes call.junk fd r.protocols b) _ h in
      let both = sym (handle_message-registers call fd r all v e) ∙ h in
      let (kept, others) =
        read_mes_keeps call.junk fd (fd + 1) r.protocols b all (λ q. omega (arith, q)) e in
      elim (Bool-cases (unlogged call o)) [
        | inl bad ↦ cc (rw bad at both)
        | inr good ↦
            subst IsSound (ap (λ x. x.0) (ok-injective (rw good at both)))
              (kept, added-IsNumbered call fd o r.providers numbered)
      ]

  Reach-IsSound : {r s : RpcRegistry Addr} → IsSound r → Reach r s → IsSound s
  Reach-IsSound h here = h
  Reach-IsSound h (next reach step) = Step-IsSound (Reach-IsSound h reach) step

  -- In every registry that messages from any channels lead to from an empty one, the provider at
  -- position `i` of the list has the id `i` modulo 2 ^ 16.
  pub provider_ids :
      {r : RpcRegistry Addr} (i : ℕ) {x : ProviderMes Addr}
      → Reach start r
      → get_elem? r.providers i ≡ some x
      → x.id ≡ i % 2 ^ 16
  provider_ids {r} i reach e =
      numbered-get_elem? 0 r.providers i (Reach-IsSound (tt, tt) reach).1 e ∙ omega arith
