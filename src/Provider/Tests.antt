-- ===== src/Provider/Tests.antt =====
-- Fish/provider/rpc_provider.h with a method that adds two bytes.
use fish_rpc.Prelude.{ℕ, ◌+◌, ◌%◌, ◌≡◌, refl, false, none, some, List, [], ◌∷◌, arith}
use fish_rpc.Prelude.Outcome.{Outcome, ok}
use fish_rpc.Prelude.Int.{pos}
use fish_rpc.Rpc.SeriBuf
use fish_rpc.Rpc.SeriBuf.{SeriBuf}
use fish_rpc.Rpc.CppType.{CppType, Types, Scalar, Value, Values, ScalarValue}
use fish_rpc.Rpc.Containers.{Platform}
use fish_rpc.Rpc.Serializer.{shl, shr, blank}
use fish_rpc.Provider.{RpcProvider, register_method, run}
use fish_rpc.Provider.Calls.{run-answers}

abbrev zeros : (s : Scalar) → ScalarValue s
zeros Scalar.bool = false
zeros Scalar.int8 = pos 0
zeros Scalar.uint8 = 0
zeros Scalar.int16 = pos 0
zeros Scalar.uint16 = 0
zeros Scalar.int32 = pos 0
zeros Scalar.uint32 = 0
zeros Scalar.int64 = pos 0
zeros Scalar.uint64 = 0
zeros Scalar.float = 0
zeros Scalar.double = 0
zeros Scalar.c_str = []
zeros Scalar.string = []
zeros Scalar.string_view = []

abbrev bare_platform : Platform
bare_platform = record {
  less = λ t x y. false;
  equal = λ t x y. false;
  arrange = λ A xs. xs;
  junk = λ w. 0;
  junk_value = zeros;
}

abbrev u8 : CppType
u8 = CppType.scalar Scalar.uint8

abbrev two_bytes : Types
two_bytes = Types.cons u8 (Types.cons u8 Types.nil)

abbrev add_bytes : Values two_bytes → Outcome (Value u8)
add_bytes v = ok ((v.0 + v.1.0) % 256)

abbrev no_methods : RpcProvider
no_methods = record { methods = λ name. none }

abbrev three_four : Values two_bytes
three_four = (3, (4, tt))

abbrev add_name : List ℕ
add_name = 97 ∷ 100 ∷ 100 ∷ []

abbrev sub_name : List ℕ
sub_name = 115 ∷ 117 ∷ 98 ∷ []

run-answers_example :
    (r' : RpcProvider) × (ret : SeriBuf) × (run add_name
        (shl (CppType.tuple two_bytes) three_four SeriBuf.empty)
        SeriBuf.empty
        (register_method bare_platform two_bytes (some u8) add_bytes add_name no_methods)
      ≡ ok (r', SeriBuf.empty, ret))
    × (shr bare_platform u8 (blank bare_platform u8) ret ≡ ok (7, SeriBuf.empty))
run-answers_example =
    run-answers bare_platform two_bytes u8 add_bytes add_name no_methods three_four
      (omega arith, (omega arith, tt)) refl (omega arith)
