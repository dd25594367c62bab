-- ===== src/Rpc/CppType.antt =====
-- The C++ types that the templates of Fish/rpc/serializer.h and Fish/rpc/rpc.h are instantiated at,
-- with the values of each. A template over T becomes a function by recursion on a `CppType`.
use fish_rpc.Prelude.{ℕ, Bool, List}
use fish_rpc.Prelude.Int.{ℤ}

pub data Scalar : Type 0 where
  bool int8 uint8 int16 uint16 int32 uint32 int64 uint64 float double : Scalar
  c_str string string_view : Scalar

pub data SeqKind : Type 0 where
  vector list deque : SeqKind

-- The two data types below serve for sets and for maps: `std::set` and `std::map` are `plain`.
pub data TreeKind : Type 0 where
  plain multi unordered unordered_multi : TreeKind

mutual
  pub data CppType : Type 0 where
    scalar : Scalar → CppType
    seq : SeqKind → CppType → CppType
    set : TreeKind → CppType → CppType
    pair : CppType → CppType → CppType
    map : TreeKind → CppType → CppType → CppType
    tuple : Types → CppType

  pub data Types : Type 0 where
    nil : Types
    cons : CppType → Types → Types

-- A float or a double is the number that its object bytes spell. A text is its bytes, and a
-- `char *` the bytes from the pointer on.
abbrev pub ScalarValue : Scalar → Type 0
ScalarValue bool = Bool
ScalarValue int8 = ℤ
ScalarValue uint8 = ℕ
ScalarValue int16 = ℤ
ScalarValue uint16 = ℕ
ScalarValue int32 = ℤ
ScalarValue uint32 = ℕ
ScalarValue int64 = ℤ
ScalarValue uint64 = ℕ
ScalarValue float = ℕ
ScalarValue double = ℕ
ScalarValue c_str = List ℕ
ScalarValue string = List ℕ
ScalarValue string_view = List ℕ

-- A container is the sequence of its elements in the order of iteration.
abbrev mutual
  pub Value : CppType → Type 0
  Value (scalar s) = ScalarValue s
  Value (seq k t) = List (Value t)
  Value (set k t) = List (Value t)
  Value (pair k v) = Value k × Value v
  Value (map m k v) = List (Value k × Value v)
  Value (tuple ts) = Values ts

  pub Values : Types → Type 0
  Values nil = Unit {0}
  Values (cons t ts) = Value t × Values ts
