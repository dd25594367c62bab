-- ===== src/Provider/Calls.antt =====
-- What a caller of the methods in Fish/provider/rpc_provider.h gets back.
use fish_rpc.Prelude.Texts.{same_text_refl, same_text_differs}
use fish_rpc.Prelude.{
  Option-cases, ℕ, ◌≡◌, sym, ap, ◌∙◌, subst, ◌≢◌, inl, inr, Option, none, some, List, [],
  append-nil,
}
use fish_rpc.Prelude.Outcome.{Outcome, ok, fault, Fault, ◌>>=◌, Outcome-cases}
use fish_rpc.Rpc.SeriBuf
use fish_rpc.Rpc.SeriBuf.{SeriBuf}
use fish_rpc.Rpc.CppType.{CppType, Types, Value, Values}
use fish_rpc.Rpc.Containers.{Platform}
use fish_rpc.Rpc.Serializer.{shl, shr, blank}
use fish_rpc.Rpc.Serializer.Format.{appended}
use fish_rpc.Rpc.Serializer.RoundTrip.{Sendable, shr-shl}
use fish_rpc.Provider.{
  RpcProvider, assign, Returns, write_return, run_method, register_method, subscript, apply, run,
}

-- What a run leaves in the two serialisers.
abbrev pub answer : Outcome (RpcProvider × SeriBuf × SeriBuf) → Outcome (SeriBuf × SeriBuf)
answer o = o >>= λ x. ok (x.1, x.2)

answer-run :
    (name : List ℕ) (arg ret : SeriBuf) (r : RpcProvider)
    → answer (run name arg ret r) ≡ apply (subscript name r).0 arg ret
unfolding run
answer-run name arg ret r = elim (Outcome-cases (apply (subscript name r).0 arg ret)) [
  | inl (x, e) ↦ rw (e, run)
  | inr (x, e) ↦ rw (e, run)
]

appended-nil : (b : SeriBuf) → appended b [] ≡ b
appended-nil b = rw (append-nil b.buf)

module _ (p : Platform) (args : Types) (returns : Option CppType)
    (function : Values args → Outcome (Returns returns)) where
  subscript-register_method :
      (name : List ℕ) (r : RpcProvider)
      → subscript name (register_method p args returns function name r) ≡ (
        some (run_method p args returns function),
        register_method p args returns function name r,
      )
  unfolding subscript register_method assign
  subscript-register_method name r = rw (subscript, same_text_refl name)

  run_method-shl :
      (values : Values args) (rest : List ℕ) (ret : SeriBuf)
      → Sendable p (CppType.tuple args) values
      → run_method p args returns function
          (appended (shl (CppType.tuple args) values SeriBuf.empty) rest)
          ret
        ≡ (function values >>= λ rt. ok (record { buf = rest }, write_return returns rt ret))
  unfolding run_method
  run_method-shl values rest ret h = rw (shr-shl p (CppType.tuple args) values rest h)

  -- A registered method that is run on its serialised arguments, which are `Sendable`, calls the
  -- function on just these arguments and takes exactly their bytes. Where the function faults, so
  -- does the run; else its result is written behind what the result's serialiser holds, and the
  -- table stays as it is.
  pub run-register_method :
      (name : List ℕ) (r : RpcProvider) (values : Values args) (rest : List ℕ) (ret : SeriBuf)
      → Sendable p (CppType.tuple args) values
      → run name
          (appended (shl (CppType.tuple args) values SeriBuf.empty) rest)
          ret
          (register_method p args returns function name r)
        ≡ (function values >>= λ rt. ok (
          register_method p args returns function name r,
          record { buf = rest },
          write_return returns rt ret,
        ))
  unfolding run apply
  run-register_method name r values rest ret h =
      rw (subscript-register_method name r, run_method-shl values rest ret h)
        (elim (Outcome-cases (function values)) [ inl (rt, e) ↦ rw e | inr (f, e) ↦ rw e ])

  subscript-other :
      (name other : List ℕ) (r : RpcProvider)
      → name ≢ other
      → (subscript other (register_method p args returns function name r)).0 ≡ (subscript other r).0
  unfolding subscript register_method assign
  subscript-other name other r ne =
      rw (subscript, same_text_differs name other ne)
        (elim (Option-cases (r.methods other)) [
          | inl e ↦ rw (subscript, e)
          | inr (f, e) ↦ rw (subscript, e)
        ])

  -- What a run of one name leaves in the two serialisers is the same before and after the
  -- registration of another name.
  pub run-register_method_other :
      (name other : List ℕ) (r : RpcProvider) (arg ret : SeriBuf)
      → name ≢ other
      → answer (run other arg ret (register_method p args returns function name r))
        ≡ answer (run other arg ret r)
  run-register_method_other name other r arg ret ne =
      answer-run other arg ret (register_method p args returns function name r)
      ∙ ap (λ f. apply f arg ret) (subscript-other name other r ne)
      ∙ sym (answer-run other arg ret r)

-- A run of a name that the table has no entry for throws, and the lookup leaves an empty entry
-- under that name.
pub run-missing :
    (name : List ℕ) (r : RpcProvider) (arg ret : SeriBuf)
    → r.methods name ≡ none
    → (run name arg ret r ≡ fault Fault.bad_function_call)
      × ((subscript name r).1.methods name ≡ some none)
unfolding run subscript apply assign
run-missing name r arg ret h = (rw (h, subscript), rw (h, subscript, same_text_refl name))

-- From end to end: where the arguments are `Sendable` and the function of a registered method
-- returns a `Sendable` value on them, a run on the serialised arguments and an empty result takes
-- all bytes of the arguments, and the caller reads that value from the serialiser of the result,
-- with nothing left in it.
pub run-answers :
    (p : Platform) (args : Types) (t : CppType) (function : Values args → Outcome (Value t))
    (name : List ℕ) (r : RpcProvider) (values : Values args) {result : Value t}
    → Sendable p (CppType.tuple args) values
    → function values ≡ ok result
    → Sendable p t result
    → (r' : RpcProvider) × (ret : SeriBuf) × (run name
          (shl (CppType.tuple args) values SeriBuf.empty)
          SeriBuf.empty
          (register_method p args (some t) function name r)
        ≡ ok (r', SeriBuf.empty, ret))
      × (shr p t (blank p t) ret ≡ ok (result, SeriBuf.empty))
unfolding SeriBuf.empty write_return
run-answers p args t function name r values {result} h e k = (
  register_method p args (some t) function name r,
  shl t result SeriBuf.empty,
  subst
      (λ b.
        run name b SeriBuf.empty (register_method p args (some t) function name r)
        ≡ ok (
          register_method p args (some t) function name r,
          SeriBuf.empty,
          shl t result SeriBuf.empty,
        ))
      (appended-nil (shl (CppType.tuple args) values SeriBuf.empty))
      (run-register_method p args (some t) function name r values [] SeriBuf.empty h ∙ rw e),
  subst (λ b. shr p t (blank p t) b ≡ ok (result, SeriBuf.empty))
      (appended-nil (shl t result SeriBuf.empty)) (shr-shl p t result [] k),
)
