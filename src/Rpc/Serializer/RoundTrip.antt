-- ===== src/Rpc/Serializer/RoundTrip.antt =====
-- `operator>>` of Fish/rpc/serializer.h reads back what `operator<<` wrote.
use fish_rpc.Prelude.{
  length, All, All-map, ℕ, ◌^◌, ◌<◌, ◌≡◌, refl, Bool, true, false, List, [], ◌++◌, append_assoc,
  arith,
}
use fish_rpc.Prelude.Outcome.{Outcome, ok, ◌>>=◌}
use fish_rpc.Prelude.Int.{InRange}
use fish_rpc.Prelude.Bytes.{to_bytes}
use fish_rpc.Rpc.SeriBuf
use fish_rpc.Rpc.SeriBuf.{SeriBuf}
use fish_rpc.Rpc.SeriBuf.Laws.{output_word-to_bytes, output_signed-to_bytes}
use fish_rpc.Rpc.CppType.{CppType, Types, Scalar, SeqKind, TreeKind, Value, Values, ScalarValue}
use fish_rpc.Rpc.Containers.{Platform, insert}
use fish_rpc.Rpc.Containers.Order.{
  IsSorted, IsWeaklySorted, insert_all, insert_all-plain, insert_all-multi,
}
use fish_rpc.Rpc.Serializer.{
  of_bool, to_bool, size_t, output_scalar, output, read_size, read_output, read_pair, blank, blanks,
  push_back, read_each, resize, shl, shr, shr_all,
}
use fish_rpc.Rpc.Serializer.Format.{
  scalar_bytes, concat_map, with_size, encoding, encodings, shl-appends, appended,
}
use fish_rpc.Rpc.Serializer.Loops.{
  Reads, read_each-encoded, insert_all-push_back, length-resize, read_at-encoded,
}

-- The values that a scalar type has in C++; no kind of text is among the types that can be read.
abbrev pub ScalarFits : (s : Scalar) → ScalarValue s → Type 0
ScalarFits Scalar.bool v = Unit {0}
ScalarFits Scalar.int8 v = InRange (2 ^ 7) v
ScalarFits Scalar.uint8 v = v < 2 ^ 8
ScalarFits Scalar.int16 v = InRange (2 ^ 15) v
ScalarFits Scalar.uint16 v = v < 2 ^ 16
ScalarFits Scalar.int32 v = InRange (2 ^ 31) v
ScalarFits Scalar.uint32 v = v < 2 ^ 32
ScalarFits Scalar.int64 v = InRange (2 ^ 63) v
ScalarFits Scalar.uint64 v = v < 2 ^ 64
ScalarFits Scalar.float v = v < 2 ^ 32
ScalarFits Scalar.double v = v < 2 ^ 64
ScalarFits Scalar.c_str v = ⊥
ScalarFits Scalar.string v = ⊥
ScalarFits Scalar.string_view v = ⊥

-- An element of a set: the readers of the sets read scalars only.
abbrev pub ElementFits : (t : CppType) → Value t → Type 0
ElementFits (CppType.scalar s) v = ScalarFits s v
ElementFits (CppType.seq k t) v = ⊥
ElementFits (CppType.set k t) v = ⊥
ElementFits (CppType.pair k t) v = ⊥
ElementFits (CppType.map m k t) v = ⊥
ElementFits (CppType.tuple ts) v = ⊥

-- The order that the container keeps; the order of a hash table is not kept.
abbrev pub InOrder : {E : Type 0} → TreeKind → (E → E → Bool) → List E → Type 0
InOrder TreeKind.plain before xs = IsSorted before xs
InOrder TreeKind.multi before xs = IsWeaklySorted before xs
InOrder TreeKind.unordered before xs = ⊥
InOrder TreeKind.unordered_multi before xs = ⊥

abbrev pub SizeFits : {A : Type 0} → List A → Type 0
SizeFits xs = length xs < 256 ^ 8

module _ (p : Platform) where
  -- The values that survive: numbers in range, sizes that a `size_t` holds, ordered containers in
  -- their order, no text, and sets of scalars only.
  abbrev mutual
    pub Sendable : (t : CppType) → Value t → Type 0
    Sendable (CppType.scalar s) v = ScalarFits s v
    Sendable (CppType.seq k t) v = SizeFits v × All (Sendable t) v
    Sendable (CppType.set k t) v = SizeFits v × InOrder k (p.less t) v × All (ElementFits t) v
    Sendable (CppType.pair k t) v = Sendable k v.0 × Sendable t v.1
    Sendable (CppType.map m k t) v =
        SizeFits v
        × InOrder m (λ x y. p.less k x.0 y.0) v
        × All (λ e. Sendable k e.0 × Sendable t e.1) v
    Sendable (CppType.tuple ts) v = SendableAll ts v

    pub SendableAll : (ts : Types) → Values ts → Type 0
    SendableAll Types.nil v = Unit {0}
    SendableAll (Types.cons t ts) v = Sendable t v.0 × SendableAll ts v.1

  to_bool-of_bool : (v : Bool) → to_bool (of_bool v) ≡ v
  to_bool-of_bool true = refl
  to_bool-of_bool false = refl

  of_bool-InRange : (v : Bool) → InRange (2 ^ 7) (of_bool v)
  of_bool-InRange true = omega arith
  of_bool-InRange false = omega arith

  -- A scalar at the front of the buffer is read back, whatever the variable held.
  output_scalar-encoded :
      (s : Scalar) (v old : ScalarValue s) (rest : List ℕ)
      → ScalarFits s v
      → output_scalar p s old (record { buf = scalar_bytes s v ++ rest })
        ≡ ok (true, v, record { buf = rest })
  unfolding output_scalar scalar_bytes SeriBuf.output_int8 SeriBuf.output_uint8 SeriBuf.output_int16
      SeriBuf.output_uint16 SeriBuf.output_int32 SeriBuf.output_uint32 SeriBuf.output_int64
      SeriBuf.output_uint64 SeriBuf.output_float SeriBuf.output_double
  output_scalar-encoded Scalar.bool v old rest h = rw (
    output_signed-to_bytes 1 (2 ^ 7) (p.junk 1) (of_bool v) rest refl (of_bool-InRange v),
    to_bool-of_bool v,
  )
  output_scalar-encoded Scalar.int8 v old rest h =
      rw (output_signed-to_bytes 1 (2 ^ 7) (p.junk 1) v rest refl h)
  output_scalar-encoded Scalar.uint8 v old rest h = rw (output_word-to_bytes 1 v (p.junk 1) rest h)
  output_scalar-encoded Scalar.int16 v old rest h =
      rw (output_signed-to_bytes 2 (2 ^ 15) (p.junk 2) v rest refl h)
  output_scalar-encoded Scalar.uint16 v old rest h = rw (output_word-to_bytes 2 v (p.junk 2) rest h)
  output_scalar-encoded Scalar.int32 v old rest h =
      rw (output_signed-to_bytes 4 (2 ^ 31) (p.junk 4) v rest refl h)
  output_scalar-encoded Scalar.uint32 v old rest h = rw (output_word-to_bytes 4 v (p.junk 4) rest h)
  output_scalar-encoded Scalar.int64 v old rest h =
      rw (output_signed-to_bytes 8 (2 ^ 63) (p.junk 8) v rest refl h)
  output_scalar-encoded Scalar.uint64 v old rest h = rw (output_word-to_bytes 8 v (p.junk 8) rest h)
  output_scalar-encoded Scalar.float v old rest h = rw (output_word-to_bytes 4 v (p.junk 4) rest h)
  output_scalar-encoded Scalar.double v old rest h = rw (output_word-to_bytes 8 v (p.junk 8) rest h)
  output_scalar-encoded Scalar.c_str v old rest h = absurd h
  output_scalar-encoded Scalar.string v old rest h = absurd h
  output_scalar-encoded Scalar.string_view v old rest h = absurd h

  pub read_size-encoded :
      {A : Type 0} (xs : List A) (rest : List ℕ)
      → SizeFits xs
      → read_size p (record { buf = to_bytes 8 (length xs) ++ rest })
        ≡ ok (length xs, record { buf = rest })
  unfolding read_size scalar_bytes
  read_size-encoded xs rest h =
      let lt : length xs < 2 ^ 64 = h in
      rw (output_scalar-encoded size_t (length xs) (p.junk_value size_t) rest lt)

  insert_all-InOrder :
      {E : Type 0} (k : TreeKind) (before same : E → E → Bool) (xs : List E)
      → InOrder k before xs
      → insert_all (insert p k before same) xs [] ≡ xs
  unfolding insert
  insert_all-InOrder TreeKind.plain before same xs h = insert_all-plain before xs h
  insert_all-InOrder TreeKind.multi before same xs h = insert_all-multi before xs h
  insert_all-InOrder TreeKind.unordered before same xs h = absurd h
  insert_all-InOrder TreeKind.unordered_multi before same xs h = absurd h

  -- An element of a set at the front of the buffer.
  read_output-encoded :
      (t : CppType) (v : Value t) → ElementFits t v → Reads (read_output p t) (encoding t) v
  unfolding read_output output encoding blank
  read_output-encoded (CppType.scalar s) v h rest =
      rw (output_scalar-encoded s v (p.junk_value s) rest h)
  read_output-encoded (CppType.seq k t) v h rest = absurd h
  read_output-encoded (CppType.set k t) v h rest = absurd h
  read_output-encoded (CppType.pair k t) v h rest = absurd h
  read_output-encoded (CppType.map m k t) v h rest = absurd h
  read_output-encoded (CppType.tuple ts) v h rest = absurd h

  -- The readers of the containers that insert element by element.
  container-encoded :
      {A : Type 0} (read : SeriBuf → Outcome (A × SeriBuf)) (enc : A → List ℕ)
      (add : A → List A → List A) (vs : List A) (rest : List ℕ)
      → SizeFits vs
      → insert_all add vs [] ≡ vs
      → All (Reads read enc) vs
      → (read_size p (record { buf = with_size enc vs ++ rest }) >>= λ x.
          read_each read add x.0 [] x.1)
        ≡ ok (vs, record { buf = rest })
  container-encoded read enc add vs rest h e r = rw (
    append_assoc (to_bytes 8 (length vs)) (concat_map enc vs) rest,
    read_size-encoded vs (concat_map enc vs ++ rest) h,
    read_each-encoded read enc add vs [] rest r,
    e,
  )

  pair-encoded :
      {A B : Type 0} (first : SeriBuf → Outcome (A × SeriBuf))
      (second : SeriBuf → Outcome (B × SeriBuf)) (f : A → List ℕ) (g : B → List ℕ) (x : A) (y : B)
      → Reads first f x
      → Reads second g y
      → Reads (read_pair first second) (λ e. f e.0 ++ g e.1) (x, y)
  unfolding read_pair
  pair-encoded first second f g x y h k rest =
      rw (append_assoc (f x) (g y) rest, h (g y ++ rest), k rest)

  mutual
    unfolding encoding shr blank output

    shr-encoding :
        (t : CppType) (v : Value t) → Sendable t v → Reads (shr p t (blank p t)) (encoding t) v
    shr-encoding (CppType.scalar s) v h rest =
        rw (output_scalar-encoded s v (p.junk_value s) rest h)
    shr-encoding (CppType.seq SeqKind.vector t) v h rest =
        rw
          (
            append_assoc (to_bytes 8 (length v)) (concat_map (encoding t) v) rest,
            read_size-encoded v (concat_map (encoding t) v ++ rest) h.0,
          )
          (read_at-encoded (shr p t (blank p t)) (encoding t) v (resize (length v) (blank p t) [])
            rest (length-resize (length v) (blank p t) []) (All-map (shr-encoding t) v h.1))
    shr-encoding (CppType.seq SeqKind.list t) v h rest =
        container-encoded (shr p t (blank p t)) (encoding t) push_back v rest h.0
          (insert_all-push_back v []) (All-map (shr-encoding t) v h.1)
    shr-encoding (CppType.seq SeqKind.deque t) v h rest =
        container-encoded (shr p t (blank p t)) (encoding t) push_back v rest h.0
          (insert_all-push_back v []) (All-map (shr-encoding t) v h.1)
    shr-encoding (CppType.set k t) v h rest =
        container-encoded (read_output p t) (encoding t) (insert p k (p.less t) (p.equal t)) v rest
          h.0 (insert_all-InOrder k (p.less t) (p.equal t) v h.1)
          (All-map (read_output-encoded t) v h.2)
    shr-encoding (CppType.pair k t) v h rest =
        pair-encoded (shr p k (blank p k)) (shr p t (blank p t)) (encoding k) (encoding t) v.0 v.1
          (shr-encoding k v.0 h.0) (shr-encoding t v.1 h.1) rest
    shr-encoding (CppType.map m k t) v h rest =
        container-encoded (read_pair (shr p k (blank p k)) (shr p t (blank p t)))
          (λ e. encoding k e.0 ++ encoding t e.1)
          (insert p m (λ x y. p.less k x.0 y.0) (λ x y. p.equal k x.0 y.0)) v rest h.0
          (insert_all-InOrder m (λ x y. p.less k x.0 y.0) (λ x y. p.equal k x.0 y.0) v h.1)
          (All-map
            (λ e d.
              pair-encoded (shr p k (blank p k)) (shr p t (blank p t)) (encoding k) (encoding t) e.0
                e.1 (shr-encoding k e.0 d.0) (shr-encoding t e.1 d.1))
            v h.2)
    shr-encoding (CppType.tuple ts) v h rest = shr_all-encodings ts v h rest

    shr_all-encodings :
        (ts : Types) (v : Values ts)
        → SendableAll ts v
        → Reads (shr_all p ts (blanks p ts)) (encodings ts) v
    shr_all-encodings Types.nil v h rest = refl
    shr_all-encodings (Types.cons t ts) v h rest = rw (
      append_assoc (encoding t v.0) (encodings ts v.1) rest,
      shr-encoding t v.0 h.0 (encodings ts v.1 ++ rest),
      shr_all-encodings ts v.1 h.1 rest,
    )

  -- `operator>>` into a fresh variable gives back the value that `operator<<` wrote and takes
  -- exactly its bytes, whatever follows them, at every type built from numbers, bools, sequences,
  -- pairs, maps, tuples and sets of scalars, for every value that is `Sendable`: numbers in range,
  -- sizes that a `size_t` holds, ordered containers in their order, no text and no hashed
  -- container.
  pub shr-shl :
      (t : CppType) (v : Value t) (rest : List ℕ)
      → Sendable t v
      → shr p t (blank p t) (appended (shl t v SeriBuf.empty) rest) ≡ ok (v, record { buf = rest })
  unfolding SeriBuf.empty
  shr-shl t v rest h = rw (shl-appends t v SeriBuf.empty) (shr-encoding t v h rest)
