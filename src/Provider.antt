-- ===== src/Provider.antt =====
-- Fish/provider/rpc_provider.h: the table of methods of a provider, and how one is run on
-- serialised arguments. A serialiser is its buffer. A C++ function is a parameter: a function of
-- its arguments that may fault.
pub mod Calls
pub mod Handlers
pub mod Server
pub mod Serving
mod Tests
use fish_rpc.Prelude.Texts.{same_text}
use fish_rpc.Prelude.{if◌then◌else◌, ℕ, Option, none, some, List}
use fish_rpc.Prelude.Outcome.{Outcome, ok, fault, Fault, ◌>>=◌, ◌>>◌}
use fish_rpc.Rpc.SeriBuf.{SeriBuf}
use fish_rpc.Rpc.CppType.{CppType, Types, Value, Values}
use fish_rpc.Rpc.Containers.{Platform}
use fish_rpc.Rpc.Serializer.{shl, shr, blank}

-- `MethodType`: it changes the serialisers of the arguments and of the result.
abbrev pub MethodType : Type 0
MethodType = SeriBuf → SeriBuf → Outcome (SeriBuf × SeriBuf)

-- The table, by the bytes of a name. An entry may hold an empty `std::function`, which is `none`.
pub record RpcProvider : Type 0 where
  pub methods : List ℕ → Option (Option MethodType)

-- The entry of `name` becomes `f`.
unfoldable pub assign : List ℕ → Option MethodType → RpcProvider → RpcProvider
assign name f r = record {
  methods = λ other. if same_text name other then some f else r.methods other;
}

-- The return type of a function, where `none` is `void`.
abbrev pub Returns : Option CppType → Type 0
Returns none = Unit {0}
Returns (some t) = Value t

-- `ret_ser << rt`, unless the function returns nothing.
unfoldable pub write_return : (r : Option CppType) → Returns r → SeriBuf → SeriBuf
write_return none rt ret = ret
write_return (some t) rt ret = shl t rt ret

module _ (p : Platform) (args : Types) (returns : Option CppType)
    (function : Values args → Outcome (Returns returns)) where
  -- `runMethod`.
  unfoldable pub run_method : MethodType
  unfolding write_return
  run_method arg_ser ret_ser = do
    (values, arg_ser') ← shr p (CppType.tuple args) (blank p (CppType.tuple args)) arg_ser
    rt ← function values
    ok (arg_ser', write_return returns rt ret_ser)

  -- `registerMethod`.
  unfoldable pub register_method : List ℕ → RpcProvider → RpcProvider
  unfolding assign
  register_method name r = assign name (some run_method) r

-- `methods_[name]`, which makes an empty entry where there is none.
unfoldable pub subscript : List ℕ → RpcProvider → Option MethodType × RpcProvider
unfolding assign
subscript name r = elim (r.methods name) [ none ↦ (none, assign name none r) | some f ↦ (f, r) ]

-- `fun(arg, ret)`: an empty `std::function` throws.
unfoldable pub apply : Option MethodType → SeriBuf → SeriBuf → Outcome (SeriBuf × SeriBuf)
apply none arg ret = fault Fault.bad_function_call
apply (some f) arg ret = f arg ret

-- `run`.
unfoldable pub run :
    List ℕ → SeriBuf → SeriBuf → RpcProvider → Outcome (RpcProvider × SeriBuf × SeriBuf)
unfolding subscript apply
run name arg ret r = do
  let (fun, r') = subscript name r
  (arg', ret') ← apply fun arg ret
  ok (r', arg', ret')
