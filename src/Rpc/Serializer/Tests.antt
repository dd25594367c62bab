-- ===== src/Rpc/Serializer/Tests.antt =====
-- Fish/rpc/serializer.h at concrete values.
use fish_rpc.Prelude.{ltb, ◌==◌, replicate, ◌≡◌, refl, Bool, false, [], ◌∷◌, arith}
use fish_rpc.Prelude.Outcome.{ok}
use fish_rpc.Prelude.Int.{pos, negsuc}
use fish_rpc.Prelude.Bytes.{to_bytes}
use fish_rpc.Rpc.SeriBuf
use fish_rpc.Rpc.SeriBuf.{SeriBuf}
use fish_rpc.Rpc.CppType.{CppType, Types, Scalar, SeqKind, TreeKind, Value, ScalarValue}
use fish_rpc.Rpc.Containers.{Platform, insert}
use fish_rpc.Rpc.Containers.Order.{insert_all}
use fish_rpc.Rpc.Serializer.{blank, shl, shr}
use fish_rpc.Rpc.Serializer.Format.{concat_map, encoding, shl-appends, appended, scalar_bytes}
use fish_rpc.Rpc.Serializer.RoundTrip.{shr-shl, Sendable}
use fish_rpc.Rpc.Serializer.Sets.{shr-shl_lost}

-- A platform that compares unsigned numbers, keeps the order of insertion and clears its memory.
abbrev zeros : (s : Scalar) → ScalarValue s
zeros Scalar.bool = false
zeros Scalar.int8 = pos 0
zeros Scalar.uint8 = 0
zeros Scalar.int16 = pos 0
zeros Scalar.uint16 = 0
zeros Scalar.int32 = pos 0
zeros Scalar.uint32 = 0
zeros Scalar.int64 = pos 0
zeros Scalar.uint64 = 0
zeros Scalar.float = 0
zeros Scalar.double = 0
zeros Scalar.c_str = []
zeros Scalar.string = []
zeros Scalar.string_view = []

abbrev before : (t : CppType) → Value t → Value t → Bool
before (CppType.scalar Scalar.uint8) x y = ltb x y
before _ x y = false

abbrev same : (t : CppType) → Value t → Value t → Bool
same (CppType.scalar Scalar.uint8) x y = x == y
same _ x y = false

abbrev plain_platform : Platform
plain_platform = record {
  less = before;
  equal = same;
  arrange = λ A xs. xs;
  junk = λ w. 0;
  junk_value = zeros;
}

abbrev u8 : CppType
u8 = CppType.scalar Scalar.uint8

-- `std::tuple<std::map<uint8_t, std::vector<int16_t>>, std::set<uint8_t>>`.
abbrev mixed : CppType
mixed = CppType.tuple (
    Types.cons
      (CppType.map TreeKind.plain u8 (CppType.seq SeqKind.vector (CppType.scalar Scalar.int16)))
      (Types.cons (CppType.set TreeKind.plain u8) Types.nil))

abbrev mixed_value : Value mixed
mixed_value = ((3, pos 1 ∷ negsuc 0 ∷ []) ∷ (5, []) ∷ [], (1 ∷ 2 ∷ [], tt))

mixed_value-Sendable : Sendable plain_platform mixed mixed_value
mixed_value-Sendable = (
  (
    omega arith,
    ((refl, tt), (tt, tt)),
    (
      (omega arith, (omega arith, (omega arith, (omega arith, tt)))),
      ((omega arith, (omega arith, tt)), tt),
    ),
  ),
  ((omega arith, ((refl, tt), (tt, tt)), (omega arith, (omega arith, tt))), tt),
)

shr-shl_example :
    shr plain_platform mixed
      (blank plain_platform mixed)
      (appended (shl mixed mixed_value SeriBuf.empty) (7 ∷ []))
    ≡ ok (mixed_value, record { buf = 7 ∷ [] })
shr-shl_example = shr-shl plain_platform mixed mixed_value (7 ∷ []) mixed_value-Sendable

shl-appends_example :
    shl (CppType.seq SeqKind.list u8) (4 ∷ 5 ∷ []) (record { buf = 9 ∷ [] })
    ≡ appended (record { buf = 9 ∷ [] }) (encoding (CppType.seq SeqKind.list u8) (4 ∷ 5 ∷ []))
shl-appends_example =
    shl-appends (CppType.seq SeqKind.list u8) (4 ∷ 5 ∷ []) (record { buf = 9 ∷ [] })

abbrev pairs : CppType
pairs = CppType.pair u8 u8

shr-shl_lost_example :
    shr plain_platform
      (CppType.set TreeKind.multi pairs)
      []
      (appended (shl (CppType.set TreeKind.multi pairs) ((1, 2) ∷ []) SeriBuf.empty) (7 ∷ []))
    ≡ ok (
      insert_all
          (insert plain_platform TreeKind.multi (before pairs) (same pairs))
          (replicate 1 (blank plain_platform pairs))
          [],
      record { buf = 1 ∷ 2 ∷ 7 ∷ [] },
    )
unfolding encoding concat_map scalar_bytes to_bytes
shr-shl_lost_example =
    shr-shl_lost plain_platform TreeKind.multi pairs ((1, 2) ∷ []) (7 ∷ []) refl (omega arith)
