-- ===== src/Rpc/Serializer/Sets.antt =====
-- The readers of the sets in Fish/rpc/serializer.h call `output` where their writers call
-- `operator<<`: what becomes of a set whose elements are no scalars.
use fish_rpc.Prelude.{
  length, replicate, ℕ, zero, suc, ◌≡◌, refl, Bool, true, false, List, [], ◌++◌, append_assoc,
}
use fish_rpc.Prelude.Outcome.{ok}
use fish_rpc.Prelude.Bytes.{to_bytes}
use fish_rpc.Rpc.SeriBuf
use fish_rpc.Rpc.SeriBuf.{SeriBuf}
use fish_rpc.Rpc.CppType.{CppType, TreeKind, Value}
use fish_rpc.Rpc.Containers.{Platform, insert}
use fish_rpc.Rpc.Containers.Order.{insert_all}
use fish_rpc.Rpc.Serializer.{output, read_output, blank, read_each, shl, shr}
use fish_rpc.Rpc.Serializer.Format.{concat_map, encoding, shl-appends, appended}
use fish_rpc.Rpc.Serializer.RoundTrip.{SizeFits, read_size-encoded}

abbrev pub is_scalar : CppType → Bool
is_scalar (CppType.scalar s) = true
is_scalar (CppType.seq k t) = false
is_scalar (CppType.set k t) = false
is_scalar (CppType.pair k t) = false
is_scalar (CppType.map m k t) = false
is_scalar (CppType.tuple ts) = false

module _ (p : Platform) where
  read_output-skips :
      (t : CppType) (b : SeriBuf) → is_scalar t ≡ false → read_output p t b ≡ ok (blank p t, b)
  unfolding read_output output blank
  read_output-skips (CppType.scalar s) b h = cc
  read_output-skips (CppType.seq k t) b h = refl
  read_output-skips (CppType.set k t) b h = refl
  read_output-skips (CppType.pair k t) b h = refl
  read_output-skips (CppType.map m k t) b h = refl
  read_output-skips (CppType.tuple ts) b h = refl

  read_each-skips :
      (t : CppType) (add : Value t → List (Value t) → List (Value t)) (n : ℕ) (acc : List (Value t))
      (b : SeriBuf)
      → is_scalar t ≡ false
      → read_each (read_output p t) add n acc b
        ≡ ok (insert_all add (replicate n (blank p t)) acc, b)
  unfolding read_each insert_all
  read_each-skips t add zero acc b h = refl
  read_each-skips t add (suc n) acc b h =
      rw (read_output-skips t b h) (read_each-skips t add n (add (blank p t) acc) b h)

  -- A set of elements that are no scalars, with a size that a `size_t` holds, is not read back: its
  -- reader takes the element count only, inserts that many fresh elements, and leaves the bytes of
  -- the real ones in the buffer, in front of what follows.
  pub shr-shl_lost :
      (k : TreeKind) (t : CppType) (v : List (Value t)) (rest : List ℕ)
      → is_scalar t ≡ false
      → SizeFits v
      → shr p (CppType.set k t) [] (appended (shl (CppType.set k t) v SeriBuf.empty) rest)
        ≡ ok (
          insert_all (insert p k (p.less t) (p.equal t)) (replicate (length v) (blank p t)) [],
          record { buf = concat_map (encoding t) v ++ rest },
        )
  unfolding SeriBuf.empty shr encoding
  shr-shl_lost k t v rest h fits = rw (
    shl-appends (CppType.set k t) v SeriBuf.empty,
    append_assoc (to_bytes 8 (length v)) (concat_map (encoding t) v) rest,
    read_size-encoded p v (concat_map (encoding t) v ++ rest) fits,
    read_each-skips t (insert p k (p.less t) (p.equal t)) (length v) []
        (record { buf = concat_map (encoding t) v ++ rest }) h,
  )
