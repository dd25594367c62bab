-- ===== src/Rpc/Serializer.antt =====
-- Fish/rpc/serializer.h: `input`, `output`, `operator<<` and `operator>>` at every type. The
-- overload that C++ picks for a type is the clause of that type; a serialiser is its buffer. For a
-- vector of bools `operator<<` has a clause as well, though its overload cannot be compiled in C++.
pub mod Format
pub mod Loops
pub mod RoundTrip
pub mod Sets
mod Tests
use fish_rpc.Prelude.{ℕ, zero, suc, ◌+◌, Bool, true, false, List, [], ◌∷◌, ◌++◌, length, set}
use fish_rpc.Prelude.Int.{ℤ, pos, negsuc}
use fish_rpc.Prelude.Outcome.{Outcome, ok, ◌>>=◌}
use fish_rpc.Rpc.SeriBuf
use fish_rpc.Rpc.SeriBuf.{SeriBuf}
use fish_rpc.Rpc.CppType.{CppType, Types, Scalar, SeqKind, Value, Values, ScalarValue}
use fish_rpc.Rpc.Containers.{Platform, insert}

-- `input_int8(t)` of a bool.
abbrev of_bool : Bool → ℤ
of_bool true = pos 1
of_bool false = pos 0

abbrev to_bool : ℤ → Bool
to_bool (pos zero) = false
to_bool (pos (suc n)) = true
to_bool (negsuc n) = true

-- The branches of `input`, by type.
unfoldable pub input_scalar : (s : Scalar) → ScalarValue s → SeriBuf → SeriBuf
input_scalar Scalar.bool t = SeriBuf.input_int8 (of_bool t)
input_scalar Scalar.int8 t = SeriBuf.input_int8 t
input_scalar Scalar.uint8 t = SeriBuf.input_uint8 t
input_scalar Scalar.int16 t = SeriBuf.input_int16 t
input_scalar Scalar.uint16 t = SeriBuf.input_uint16 t
input_scalar Scalar.int32 t = SeriBuf.input_int32 t
input_scalar Scalar.uint32 t = SeriBuf.input_uint32 t
input_scalar Scalar.int64 t = SeriBuf.input_int64 t
input_scalar Scalar.uint64 t = SeriBuf.input_uint64 t
input_scalar Scalar.float t = SeriBuf.input_float t
input_scalar Scalar.double t = SeriBuf.input_double t
input_scalar Scalar.c_str t = SeriBuf.input_str t
input_scalar Scalar.string t = SeriBuf.input_string t
input_scalar Scalar.string_view t = SeriBuf.input_string_view t

-- `input`: false, and nothing written, at a type that is none of those.
unfoldable pub input : (t : CppType) → Value t → SeriBuf → Bool × SeriBuf
unfolding input_scalar
input (CppType.scalar s) v b = (true, input_scalar s v b)
input _ v b = (false, b)

abbrev pub size_t : Scalar
size_t = Scalar.uint64

-- `input(v.size())`, at `size_t`.
abbrev pub write_size : {A : Type 0} → List A → SeriBuf → SeriBuf
write_size xs = input_scalar size_t (length xs)

-- `for (auto &t : v) *this << t;`
unfoldable pub write_each : {A : Type 0} → (A → SeriBuf → SeriBuf) → List A → SeriBuf → SeriBuf
write_each shl [] b = b
write_each shl (t ∷ ts) b = write_each shl ts (shl t b)

-- `operator<<`.
unfoldable mutual
  unfolding input write_each

  pub shl : (t : CppType) → Value t → SeriBuf → SeriBuf
  shl (CppType.scalar s) v b = (input (CppType.scalar s) v b).1
  shl (CppType.seq k t) v b = write_each (shl t) v (write_size v b)
  shl (CppType.set k t) v b = write_each (shl t) v (write_size v b)
  shl (CppType.pair k t) v b = shl t v.1 (shl k v.0 b)
  shl (CppType.map m k t) v b = write_each (λ e c. shl t e.1 (shl k e.0 c)) v (write_size v b)
  shl (CppType.tuple ts) v b = shl_all ts v b

  pub shl_all : (ts : Types) → Values ts → SeriBuf → SeriBuf
  shl_all Types.nil v b = b
  shl_all (Types.cons t ts) v b = shl_all ts v.1 (shl t v.0 b)

module _ (p : Platform) where
  -- What a variable of the type holds when it is declared with no initialiser.
  unfoldable mutual
    pub blank : (t : CppType) → Value t
    blank (CppType.scalar s) = p.junk_value s
    blank (CppType.seq k t) = []
    blank (CppType.set k t) = []
    blank (CppType.pair k t) = (blank k, blank t)
    blank (CppType.map m k t) = []
    blank (CppType.tuple ts) = blanks ts

    pub blanks : (ts : Types) → Values ts
    blanks Types.nil = tt
    blanks (Types.cons t ts) = (blank t, blanks ts)

  -- The branches of `output`, by type. There is none for the two kinds of borrowed text.
  unfoldable pub output_scalar :
      (s : Scalar) → ScalarValue s → SeriBuf → Outcome (Bool × ScalarValue s × SeriBuf)
  output_scalar Scalar.bool t b = do
    (v, b') ← SeriBuf.output_int8 (p.junk 1) b
    ok (true, to_bool v, b')
  output_scalar Scalar.int8 t b = do (v, b') ← SeriBuf.output_int8 (p.junk 1) b; ok (true, v, b')
  output_scalar Scalar.uint8 t b = do (v, b') ← SeriBuf.output_uint8 (p.junk 1) b; ok (true, v, b')
  output_scalar Scalar.int16 t b = do (v, b') ← SeriBuf.output_int16 (p.junk 2) b; ok (true, v, b')
  output_scalar Scalar.uint16 t b = do
    (v, b') ← SeriBuf.output_uint16 (p.junk 2) b
    ok (true, v, b')
  output_scalar Scalar.int32 t b = do (v, b') ← SeriBuf.output_int32 (p.junk 4) b; ok (true, v, b')
  output_scalar Scalar.uint32 t b = do
    (v, b') ← SeriBuf.output_uint32 (p.junk 4) b
    ok (true, v, b')
  output_scalar Scalar.int64 t b = do (v, b') ← SeriBuf.output_int64 (p.junk 8) b; ok (true, v, b')
  output_scalar Scalar.uint64 t b = do
    (v, b') ← SeriBuf.output_uint64 (p.junk 8) b
    ok (true, v, b')
  output_scalar Scalar.float t b = do (v, b') ← SeriBuf.output_float (p.junk 4) b; ok (true, v, b')
  output_scalar Scalar.double t b = do
    (v, b') ← SeriBuf.output_double (p.junk 8) b
    ok (true, v, b')
  output_scalar Scalar.c_str t b = ok (false, t, b)
  output_scalar Scalar.string t b = do
    (v, b') ← SeriBuf.output_string (p.junk 8) b
    ok (true, v, b')
  output_scalar Scalar.string_view t b = ok (false, t, b)

  -- `output`: false, and nothing read, at a type that is none of those.
  unfoldable pub output : (t : CppType) → Value t → SeriBuf → Outcome (Bool × Value t × SeriBuf)
  unfolding output_scalar
  output (CppType.scalar s) v b = output_scalar s v b
  output _ v b = ok (false, v, b)

  -- `size_t size; output(size);`
  unfoldable pub read_size : SeriBuf → Outcome (ℕ × SeriBuf)
  unfolding output_scalar
  read_size b = do (_, size, b') ← output_scalar size_t (p.junk_value size_t) b; ok (size, b')

-- `v.resize(size)`.
unfoldable pub resize : {A : Type 0} → ℕ → A → List A → List A
resize zero a xs = []
resize (suc n) a [] = a ∷ resize n a []
resize (suc n) a (x ∷ xs) = x ∷ resize n a xs

-- The loops of the readers run `n` more rounds. Each round reads an element by `read`; `add` puts it
-- into the container.
unfoldable pub read_each :
    {A : Type 0}
    → (SeriBuf → Outcome (A × SeriBuf))
    → (A → List A → List A)
    → ℕ
    → List A
    → SeriBuf
    → Outcome (List A × SeriBuf)
read_each read add zero v b = ok (v, b)
read_each read add (suc n) v b = do (t, b') ← read b; read_each read add n (add t v) b'

-- The loop of the vector's reader, from index `i` on: `v[i] = t`.
unfoldable pub read_at :
    {A : Type 0}
    → (SeriBuf → Outcome (A × SeriBuf))
    → ℕ
    → ℕ
    → List A
    → SeriBuf
    → Outcome (List A × SeriBuf)
read_at read zero i v b = ok (v, b)
read_at read (suc n) i v b = do (t, b') ← read b; read_at read n (i + 1) (set v i t) b'

-- `operator>>` of a pair, by the readers of its two parts.
unfoldable pub read_pair :
    {A B : Type 0}
    → (SeriBuf → Outcome (A × SeriBuf))
    → (SeriBuf → Outcome (B × SeriBuf))
    → SeriBuf
    → Outcome ((A × B) × SeriBuf)
read_pair first second b = do (x, b') ← first b; (y, b'') ← second b'; ok ((x, y), b'')

unfoldable pub push_back : {A : Type 0} → A → List A → List A
push_back t v = v ++ (t ∷ [])

module _ (p : Platform) where
  -- `T t; output(t);`, by which the readers of the sets read an element.
  unfoldable pub read_output : (t : CppType) → SeriBuf → Outcome (Value t × SeriBuf)
  read_output t b = do (_, v, b') ← output p t (blank p t) b; ok (v, b')

  -- `operator>>`.
  unfoldable mutual
    unfolding output read_size read_pair read_each read_at push_back insert resize read_output

    pub shr : (t : CppType) → Value t → SeriBuf → Outcome (Value t × SeriBuf)
    shr (CppType.scalar s) v b = do (_, v', b') ← output p (CppType.scalar s) v b; ok (v', b')
    shr (CppType.seq SeqKind.vector t) v b = do
      (size, b') ← read_size p b
      read_at (shr t (blank p t)) size 0 (resize size (blank p t) v) b'
    shr (CppType.seq SeqKind.list t) v b = do
      (size, b') ← read_size p b
      read_each (shr t (blank p t)) push_back size v b'
    shr (CppType.seq SeqKind.deque t) v b = do
      (size, b') ← read_size p b
      read_each (shr t (blank p t)) push_back size v b'
    shr (CppType.set k t) v b = do
      (size, b') ← read_size p b
      read_each (read_output t) (insert p k (p.less t) (p.equal t)) size v b'
    shr (CppType.pair k t) v b = read_pair (shr k v.0) (shr t v.1) b
    shr (CppType.map m k t) v b = do
      (size, b') ← read_size p b
      read_each (read_pair (shr k (blank p k)) (shr t (blank p t)))
          (insert p m (λ x y. p.less k x.0 y.0) (λ x y. p.equal k x.0 y.0)) size v b'
    shr (CppType.tuple ts) v b = shr_all ts v b

    pub shr_all : (ts : Types) → Values ts → SeriBuf → Outcome (Values ts × SeriBuf)
    shr_all Types.nil v b = ok (tt, b)
    shr_all (Types.cons t ts) v b = do
      (x, b') ← shr t v.0 b
      (xs, b'') ← shr_all ts v.1 b'
      ok ((x, xs), b'')
