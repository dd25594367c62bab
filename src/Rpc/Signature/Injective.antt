-- ===== src/Rpc/Signature/Injective.antt =====
-- Which types `findType` of Fish/rpc/rpc.h tells apart.
use fish_rpc.Prelude.{
  ◌==◌, if◌then◌else◌, ℕ, ◌<◌, ◌≡◌, refl, sym, ap, ◌∙◌, Option, none, some, List, [], ◌∷◌, ◌++◌,
  append_assoc, arith,
}
use mathlib.Core.List.{append_cancel_left}
use mathlib.Core.Option
use mathlib.Core.Option.{some_inj}
use fish_rpc.Rpc.CppType.{CppType, Scalar, SeqKind, TreeKind}
use fish_rpc.Rpc.Signature.{scalar_code, seq_code, set_code, type_code, find_type, map_code}

-- The simple types with a code, under any number of sequences and sets.
abbrev pub IsLinear : CppType → Type 0
IsLinear (CppType.scalar s) = 0 < scalar_code s
IsLinear (CppType.seq k t) = IsLinear t
IsLinear (CppType.set k t) = IsLinear t
IsLinear (CppType.pair k t) = ⊥
IsLinear (CppType.map m k t) = ⊥
IsLinear (CppType.tuple ts) = ⊥

-- A reader of signatures, by code.
abbrev shape : ℕ → Option (CppType → CppType)
shape c =
    if c == 1
    then some (CppType.seq SeqKind.vector)
    else if c == 2
    then some (CppType.seq SeqKind.list)
    else if c == 3
    then some (CppType.seq SeqKind.deque)
    else if c == 4
    then some (CppType.set TreeKind.plain)
    else if c == 5
    then some (CppType.set TreeKind.multi)
    else if c == 6
    then some (CppType.set TreeKind.unordered)
    else if c == 7
    then some (CppType.set TreeKind.unordered_multi)
    else none

abbrev simple_type : ℕ → Option CppType
simple_type c =
    if c == 64
    then some (CppType.scalar Scalar.int8)
    else if c == 65
    then some (CppType.scalar Scalar.int16)
    else if c == 66
    then some (CppType.scalar Scalar.int32)
    else if c == 67
    then some (CppType.scalar Scalar.int64)
    else if c == 68
    then some (CppType.scalar Scalar.uint8)
    else if c == 69
    then some (CppType.scalar Scalar.uint16)
    else if c == 70
    then some (CppType.scalar Scalar.uint32)
    else if c == 71
    then some (CppType.scalar Scalar.uint64)
    else if c == 72
    then some (CppType.scalar Scalar.float)
    else if c == 73
    then some (CppType.scalar Scalar.double)
    else if c == 74
    then some (CppType.scalar Scalar.string)
    else none

pub read_type : List ℕ → Option CppType
read_type [] = none
read_type (c ∷ cs) = elim (shape c) [
  | none ↦ simple_type c
  | some wrap ↦ Option.map wrap (read_type cs)
]

-- The codes of a linear type, outermost first.
unfoldable pub signature : CppType → List ℕ
signature (CppType.scalar s) = scalar_code s ∷ []
signature (CppType.seq k t) = seq_code k ∷ signature t
signature (CppType.set k t) = set_code k ∷ signature t
signature (CppType.pair k t) = []
signature (CppType.map m k t) = []
signature (CppType.tuple ts) = []

find_type-eq-signature :
    (t : CppType) (mes : List ℕ) → IsLinear t → find_type t mes ≡ some (mes ++ signature t)
unfolding find_type signature
find_type-eq-signature (CppType.scalar s) mes h = ground arith
find_type-eq-signature (CppType.seq k t) mes h =
    find_type-eq-signature t (mes ++ (seq_code k ∷ [])) h
    ∙ rw (append_assoc mes (seq_code k ∷ []) (signature t))
find_type-eq-signature (CppType.set k t) mes h =
    find_type-eq-signature t (mes ++ (set_code k ∷ [])) h
    ∙ rw (append_assoc mes (set_code k ∷ []) (signature t))
find_type-eq-signature (CppType.pair k t) mes h = absurd h
find_type-eq-signature (CppType.map m k t) mes h = absurd h
find_type-eq-signature (CppType.tuple ts) mes h = absurd h

read_type-signature : (t : CppType) → IsLinear t → read_type (signature t) ≡ some t
unfolding read_type signature scalar_code seq_code set_code
read_type-signature (CppType.scalar s) h = scalar-case s h
  where
    scalar-case :
        (s : Scalar) → 0 < scalar_code s → read_type (scalar_code s ∷ []) ≡ some (CppType.scalar s)
    scalar-case Scalar.bool h = absurd (omega arith)
    scalar-case Scalar.c_str h = absurd (omega arith)
    scalar-case Scalar.string_view h = absurd (omega arith)
    scalar-case _ h = refl
read_type-signature (CppType.seq SeqKind.vector t) h = rw (read_type-signature t h)
read_type-signature (CppType.seq SeqKind.list t) h = rw (read_type-signature t h)
read_type-signature (CppType.seq SeqKind.deque t) h = rw (read_type-signature t h)
read_type-signature (CppType.set TreeKind.plain t) h = rw (read_type-signature t h)
read_type-signature (CppType.set TreeKind.multi t) h = rw (read_type-signature t h)
read_type-signature (CppType.set TreeKind.unordered t) h = rw (read_type-signature t h)
read_type-signature (CppType.set TreeKind.unordered_multi t) h = rw (read_type-signature t h)
read_type-signature (CppType.pair k t) h = absurd h
read_type-signature (CppType.map m k t) h = absurd h
read_type-signature (CppType.tuple ts) h = absurd h

-- `findType` tells apart any two types built from simple types by sequences and sets: if it appends
-- the same codes for both, they are one type.
pub find_type-injective :
    (t u : CppType) (mes : List ℕ)
    → IsLinear t
    → IsLinear u
    → find_type t mes ≡ find_type u mes
    → t ≡ u
find_type-injective t u mes h k e =
    let same : mes ++ signature t ≡ mes ++ signature u =
      some_inj.0 (sym (find_type-eq-signature t mes h) ∙ e ∙ find_type-eq-signature u mes k) in
    some_inj.0 (
      sym (read_type-signature t h)
      ∙ ap read_type (append_cancel_left mes (signature t) (signature u) same)
      ∙ read_type-signature u k)

-- `findType` never looks at the mapped type of a map or the second type of a pair: where the key's
-- type is built from simple types by sequences and sets, the codes are the container's and twice
-- the key's, whatever the other type is.
pub find_type_blind :
    (m : TreeKind) (k t : CppType) (mes : List ℕ)
    → IsLinear k
    → (find_type (CppType.map m k t) mes
        ≡ some (((mes ++ (type_code (CppType.map m k t) ∷ [])) ++ signature k) ++ signature k))
      × (find_type (CppType.pair k t) mes
          ≡ some (((mes ++ (type_code (CppType.pair k t) ∷ [])) ++ signature k) ++ signature k))
unfolding find_type
find_type_blind m k t mes h = (
  rw (find_type-eq-signature k (mes ++ (map_code m ∷ [])) h) (find_type-eq-signature k _ h),
  rw (find_type-eq-signature k (mes ++ (8 ∷ [])) h) (find_type-eq-signature k _ h),
)
