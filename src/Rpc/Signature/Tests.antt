-- ===== src/Rpc/Signature/Tests.antt =====
-- `findType` of Fish/rpc/rpc.h at concrete types.
use fish_rpc.Prelude.{◌≡◌, refl, [], ◌∷◌, arith}
use fish_rpc.Rpc.CppType.{CppType, Scalar, SeqKind}
use fish_rpc.Rpc.Signature.{scalar_code}
use fish_rpc.Rpc.Signature.Injective.{find_type-injective}

abbrev ints : CppType
ints = CppType.seq SeqKind.vector (CppType.scalar Scalar.int32)

find_type-injective_example : ints ≡ ints
unfolding scalar_code
find_type-injective_example =
    find_type-injective ints ints (5 ∷ []) (omega arith) (omega arith) refl
