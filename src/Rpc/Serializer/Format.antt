-- ===== src/Rpc/Serializer/Format.antt =====
-- The wire format, written on its own: the bytes of a value, with no buffer. `operator<<` appends
-- exactly these.
use fish_rpc.Prelude.{ℕ, ◌^◌, ◌≡◌, refl, ◌∙◌, List, [], ◌∷◌, ◌++◌, length, append_assoc, append-nil}
use fish_rpc.Prelude.Int.{to_word}
use fish_rpc.Prelude.Bytes.{to_bytes}
use fish_rpc.Rpc.SeriBuf
use fish_rpc.Rpc.SeriBuf.{SeriBuf}
use fish_rpc.Rpc.CppType.{CppType, Types, Scalar, Value, Values, ScalarValue}
use fish_rpc.Rpc.Serializer.{
  of_bool, input_scalar, input, write_size, write_each, shl, shl_all, size_t,
}

-- A word little-endian; a text with its length in front of it.
unfoldable pub scalar_bytes : (s : Scalar) → ScalarValue s → List ℕ
scalar_bytes Scalar.bool t = to_bytes 1 (to_word 256 (of_bool t))
scalar_bytes Scalar.int8 t = to_bytes 1 (to_word (256 ^ 1) t)
scalar_bytes Scalar.uint8 t = to_bytes 1 t
scalar_bytes Scalar.int16 t = to_bytes 2 (to_word (256 ^ 2) t)
scalar_bytes Scalar.uint16 t = to_bytes 2 t
scalar_bytes Scalar.int32 t = to_bytes 4 (to_word (256 ^ 4) t)
scalar_bytes Scalar.uint32 t = to_bytes 4 t
scalar_bytes Scalar.int64 t = to_bytes 8 (to_word (256 ^ 8) t)
scalar_bytes Scalar.uint64 t = to_bytes 8 t
scalar_bytes Scalar.float t = to_bytes 4 t
scalar_bytes Scalar.double t = to_bytes 8 t
scalar_bytes Scalar.c_str t = let s = SeriBuf.until_nul t in to_bytes 8 (length s) ++ s
scalar_bytes Scalar.string t = to_bytes 8 (length t) ++ t
scalar_bytes Scalar.string_view t = to_bytes 8 (length t) ++ t

unfoldable pub concat_map {ℓ} : {A : Type ℓ} → (A → List ℕ) → List A → List ℕ
concat_map f [] = []
concat_map f (x ∷ xs) = f x ++ concat_map f xs

abbrev pub with_size : {A : Type 0} → (A → List ℕ) → List A → List ℕ
with_size f xs = to_bytes 8 (length xs) ++ concat_map f xs

-- A container is its element count and its elements, a pair or a tuple its parts.
unfoldable mutual
  pub encoding : (t : CppType) → Value t → List ℕ
  encoding (CppType.scalar s) v = scalar_bytes s v
  encoding (CppType.seq k t) v = with_size (encoding t) v
  encoding (CppType.set k t) v = with_size (encoding t) v
  encoding (CppType.pair k t) v = encoding k v.0 ++ encoding t v.1
  encoding (CppType.map m k t) v = with_size (λ e. encoding k e.0 ++ encoding t e.1) v
  encoding (CppType.tuple ts) v = encodings ts v

  pub encodings : (ts : Types) → Values ts → List ℕ
  encodings Types.nil v = []
  encodings (Types.cons t ts) v = encoding t v.0 ++ encodings ts v.1

abbrev pub appended : SeriBuf → List ℕ → SeriBuf
appended b bytes = record { buf = b.buf ++ bytes }

input_scalar-appends :
    (s : Scalar) (v : ScalarValue s) (b : SeriBuf)
    → input_scalar s v b ≡ appended b (scalar_bytes s v)
unfolding input_scalar scalar_bytes SeriBuf.input_int8 SeriBuf.input_uint8 SeriBuf.input_int16
    SeriBuf.input_uint16 SeriBuf.input_int32 SeriBuf.input_uint32 SeriBuf.input_int64
    SeriBuf.input_uint64 SeriBuf.input_float SeriBuf.input_double SeriBuf.input_str
    SeriBuf.input_string SeriBuf.input_string_view
input_scalar-appends Scalar.bool v b = refl
input_scalar-appends Scalar.c_str v b = rw append_assoc
input_scalar-appends Scalar.string v b = rw append_assoc
input_scalar-appends Scalar.string_view v b = rw append_assoc
input_scalar-appends _ v b = refl

-- A loop of writers appends what each appends, in order.
write_each-appends :
    {A : Type 0} (f : A → SeriBuf → SeriBuf) (g : A → List ℕ)
    → ((x : A) (b : SeriBuf) → f x b ≡ appended b (g x))
    → (xs : List A) (b : SeriBuf) → write_each f xs b ≡ appended b (concat_map g xs)
unfolding write_each concat_map
write_each-appends f g h [] b = rw append-nil
write_each-appends f g h (x ∷ xs) b = write_each-appends f g h xs (f x b) ∙ rw (h x b, append_assoc)

write_sized :
    {A : Type 0} (f : A → SeriBuf → SeriBuf) (g : A → List ℕ)
    → ((x : A) (b : SeriBuf) → f x b ≡ appended b (g x))
    → (xs : List A) (b : SeriBuf) → write_each f xs (write_size xs b) ≡ appended b (with_size g xs)
unfolding scalar_bytes
write_sized f g h xs b =
    write_each-appends f g h xs (write_size xs b)
    ∙ rw (input_scalar-appends size_t (length xs) b, append_assoc)

mutual
  unfolding encoding shl input

  shl-go : (t : CppType) (v : Value t) (b : SeriBuf) → shl t v b ≡ appended b (encoding t v)
  shl-go (CppType.scalar s) v b = input_scalar-appends s v b
  shl-go (CppType.seq k t) v b = write_sized (shl t) (encoding t) (shl-go t) v b
  shl-go (CppType.set k t) v b = write_sized (shl t) (encoding t) (shl-go t) v b
  shl-go (CppType.pair k t) v b = shl-go t v.1 (shl k v.0 b) ∙ rw (shl-go k v.0 b, append_assoc)
  shl-go (CppType.map m k t) v b =
      write_sized (λ e c. shl t e.1 (shl k e.0 c)) (λ e. encoding k e.0 ++ encoding t e.1)
        (λ e c. shl-go t e.1 (shl k e.0 c) ∙ rw (shl-go k e.0 c, append_assoc)) v b
  shl-go (CppType.tuple ts) v b = shl_all-go ts v b

  shl_all-go :
      (ts : Types) (v : Values ts) (b : SeriBuf) → shl_all ts v b ≡ appended b (encodings ts v)
  shl_all-go Types.nil v b = rw append-nil
  shl_all-go (Types.cons t ts) v b =
      shl_all-go ts v.1 (shl t v.0 b) ∙ rw (shl-go t v.0 b, append_assoc)

-- `operator<<` appends the encoding of the value to the buffer, at every type, and changes nothing
-- else.
pub shl-appends : (t : CppType) (v : Value t) (b : SeriBuf) → shl t v b ≡ appended b (encoding t v)
shl-appends = shl-go
