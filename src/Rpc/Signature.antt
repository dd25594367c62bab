-- ===== src/Rpc/Signature.antt =====
-- Fish/rpc/rpc.h: the type codes (`TypeId`, `findtype`) and `findType`, which spells a type as a
-- sequence of codes.
pub mod Injective
mod Tests
use fish_rpc.Prelude.{◌==◌, if◌then◌else◌, set, ℕ, Option, none, some, List, [], ◌∷◌, ◌++◌, map}
use fish_rpc.Rpc.CppType.{CppType, Types, Scalar, SeqKind, TreeKind}

-- `findtype<T>::type` of a simple type; 0 is the general template's.
unfoldable pub scalar_code : Scalar → ℕ
scalar_code Scalar.bool = 0
scalar_code Scalar.int8 = 64
scalar_code Scalar.int16 = 65
scalar_code Scalar.int32 = 66
scalar_code Scalar.int64 = 67
scalar_code Scalar.uint8 = 68
scalar_code Scalar.uint16 = 69
scalar_code Scalar.uint32 = 70
scalar_code Scalar.uint64 = 71
scalar_code Scalar.float = 72
scalar_code Scalar.double = 73
scalar_code Scalar.string = 74
scalar_code Scalar.c_str = 0
scalar_code Scalar.string_view = 0

unfoldable pub seq_code : SeqKind → ℕ
seq_code SeqKind.vector = 1
seq_code SeqKind.list = 2
seq_code SeqKind.deque = 3

unfoldable pub set_code : TreeKind → ℕ
set_code TreeKind.plain = 4
set_code TreeKind.multi = 5
set_code TreeKind.unordered = 6
set_code TreeKind.unordered_multi = 7

unfoldable pub map_code : TreeKind → ℕ
map_code TreeKind.plain = 9
map_code TreeKind.multi = 10
map_code TreeKind.unordered = 11
map_code TreeKind.unordered_multi = 12

unfoldable pub type_code : CppType → ℕ
unfolding scalar_code seq_code set_code map_code
type_code (CppType.scalar s) = scalar_code s
type_code (CppType.seq k t) = seq_code k
type_code (CppType.set k t) = set_code k
type_code (CppType.pair k t) = 8
type_code (CppType.map m k t) = map_code m
type_code (CppType.tuple ts) = 13

-- A simple type pushes its code; the template has no instance where there is none.
abbrev simple : ℕ → List ℕ → Option (List ℕ)
simple code mes = if code == 0 then none else some (mes ++ (code ∷ []))

-- `findType`, which appends to `paraMes`. `none`: the template has no instance at the type. The
-- second variable of a pair or a map is declared with the key's type too. A tuple, whose code is
-- neither below 13 nor a simple type's, pushes nothing.
unfoldable pub find_type : CppType → List ℕ → Option (List ℕ)
unfolding type_code
find_type (CppType.scalar s) mes = simple (scalar_code s) mes
find_type (CppType.seq k t) mes = find_type t (mes ++ (seq_code k ∷ []))
find_type (CppType.set k t) mes = find_type t (mes ++ (set_code k ∷ []))
find_type (CppType.pair k t) mes = elim (find_type k (mes ++ (8 ∷ []))) [
  | none ↦ none
  | some mes' ↦ find_type k mes'
]
find_type (CppType.map m k t) mes = elim (find_type k (mes ++ (map_code m ∷ []))) [
  | none ↦ none
  | some mes' ↦ find_type k mes'
]
find_type (CppType.tuple ts) mes = some mes
