-- ===== src/Rpc/SeriBuf.antt =====
-- Fish/rpc/serialize_buf.h and source/rpc/serialize_buf.cpp: the byte queue that values are
-- written to and read from. Words are copied as they lie in memory, least byte first; a float or
-- a double is the number that its object bytes spell.
pub mod Laws
mod Tests
use fish_rpc.Prelude.{
  ℕ, ◌^◌, List, [], ◌∷◌, ◌++◌, length, take, drop, leb, ltb, if◌then◌else◌, ◌==◌,
}
use fish_rpc.Prelude.Int.{ℤ, to_word, signed}
use fish_rpc.Prelude.Outcome.{Outcome, ok, Fault, ◌>>=◌, ◌>>◌, check}
use fish_rpc.Prelude.Bytes.{to_bytes, from_bytes}

pub record SeriBuf : Type 0 where
  pub buf : List ℕ

unfoldable pub empty : SeriBuf
empty = record { buf = [] }

-- `SeriBuf(const std::string &)`.
unfoldable pub of_string : List ℕ → SeriBuf
of_string str = record { buf = str }

unfoldable pub clear : SeriBuf → SeriBuf
clear b = record b { buf = [] }

-- `bufToStr`.
unfoldable pub buf_to_str : SeriBuf → List ℕ
buf_to_str b = b.buf

-- The list is the `len` bytes at `buf`.
unfoldable pub input : List ℕ → SeriBuf → SeriBuf
input bytes b = record b { buf = b.buf ++ bytes }

-- The length that is really taken out of a queue of `size` bytes.
unfoldable pub clip : ℕ → ℕ → ℕ
clip len size = if ltb size len then size else len

-- `dst` is the memory that the caller owns at `buf`; a copy past its end is a fault. What the copy
-- does not reach keeps its former bytes.
unfoldable pub output : List ℕ → ℕ → SeriBuf → Outcome (List ℕ × SeriBuf)
unfolding clip
output dst len b = do
  let n = clip len (length b.buf)
  check (leb n (length dst)) Fault.out_of_bounds
  ok (take n b.buf ++ drop n dst, record b { buf = drop n b.buf })

-- `sizeof(value)` bytes of an integer.
abbrev input_signed : ℕ → ℤ → SeriBuf → SeriBuf
input_signed w value = input (to_bytes w (to_word (256 ^ w) value))

unfoldable pub input_int8 : ℤ → SeriBuf → SeriBuf
unfolding input
input_int8 = input_signed 1

unfoldable pub input_int16 : ℤ → SeriBuf → SeriBuf
unfolding input
input_int16 = input_signed 2

unfoldable pub input_int32 : ℤ → SeriBuf → SeriBuf
unfolding input
input_int32 = input_signed 4

unfoldable pub input_int64 : ℤ → SeriBuf → SeriBuf
unfolding input
input_int64 = input_signed 8

unfoldable pub input_uint8 : ℕ → SeriBuf → SeriBuf
unfolding input
input_uint8 value = input (to_bytes 1 value)

unfoldable pub input_uint16 : ℕ → SeriBuf → SeriBuf
unfolding input
input_uint16 value = input (to_bytes 2 value)

unfoldable pub input_uint32 : ℕ → SeriBuf → SeriBuf
unfolding input
input_uint32 value = input (to_bytes 4 value)

unfoldable pub input_uint64 : ℕ → SeriBuf → SeriBuf
unfolding input
input_uint64 value = input (to_bytes 8 value)

unfoldable pub input_float : ℕ → SeriBuf → SeriBuf
unfolding input
input_float value = input (to_bytes 4 value)

unfoldable pub input_double : ℕ → SeriBuf → SeriBuf
unfolding input
input_double value = input (to_bytes 8 value)

-- `::strlen`: the bytes before the first NUL.
unfoldable pub until_nul : List ℕ → List ℕ
until_nul [] = []
until_nul (c ∷ cs) = let rest = c ∷ until_nul cs in if c == 0 then [] else rest

-- `input_string`, and `input_string_view`, whose body is the same.
unfoldable pub input_string : List ℕ → SeriBuf → SeriBuf
unfolding input
input_string value b = input value (input (to_bytes 8 (length value)) b)

unfoldable pub input_string_view : List ℕ → SeriBuf → SeriBuf
unfolding input
input_string_view value b = input value (input (to_bytes 8 (length value)) b)

-- The list is the memory from the pointer on.
unfoldable pub input_str : List ℕ → SeriBuf → SeriBuf
unfolding input until_nul
input_str value b = let text = until_nul value in input text (input (to_bytes 8 (length text)) b)

-- `result` is what the uninitialised local of `output_…` happens to hold.
unfoldable pub output_word : ℕ → ℕ → SeriBuf → Outcome (ℕ × SeriBuf)
unfolding output
output_word w result b = do (bytes, b') ← output (to_bytes w result) w b; ok (from_bytes bytes, b')

abbrev output_signed : ℕ → ℕ → ℕ → SeriBuf → Outcome (ℤ × SeriBuf)
output_signed w half result b = do (word, b') ← output_word w result b; ok (signed half word, b')

unfoldable pub output_int8 : ℕ → SeriBuf → Outcome (ℤ × SeriBuf)
unfolding output_word
output_int8 = output_signed 1 (2 ^ 7)

unfoldable pub output_int16 : ℕ → SeriBuf → Outcome (ℤ × SeriBuf)
unfolding output_word
output_int16 = output_signed 2 (2 ^ 15)

unfoldable pub output_int32 : ℕ → SeriBuf → Outcome (ℤ × SeriBuf)
unfolding output_word
output_int32 = output_signed 4 (2 ^ 31)

unfoldable pub output_int64 : ℕ → SeriBuf → Outcome (ℤ × SeriBuf)
unfolding output_word
output_int64 = output_signed 8 (2 ^ 63)

unfoldable pub output_uint8 : ℕ → SeriBuf → Outcome (ℕ × SeriBuf)
unfolding output_word
output_uint8 = output_word 1

unfoldable pub output_uint16 : ℕ → SeriBuf → Outcome (ℕ × SeriBuf)
unfolding output_word
output_uint16 = output_word 2

unfoldable pub output_uint32 : ℕ → SeriBuf → Outcome (ℕ × SeriBuf)
unfolding output_word
output_uint32 = output_word 4

unfoldable pub output_uint64 : ℕ → SeriBuf → Outcome (ℕ × SeriBuf)
unfolding output_word
output_uint64 = output_word 8

unfoldable pub output_float : ℕ → SeriBuf → Outcome (ℕ × SeriBuf)
unfolding output_word
output_float = output_word 4

unfoldable pub output_double : ℕ → SeriBuf → Outcome (ℕ × SeriBuf)
unfolding output_word
output_double = output_word 8

-- `result` is an empty string when its first byte's address is handed to `output`: it owns no byte
-- that may be written, and it stays empty.
unfoldable pub output_string : ℕ → SeriBuf → Outcome (List ℕ × SeriBuf)
unfolding output_word
output_string junk b = do
  (size, b') ← output_word 8 junk b
  (result, b'') ← output [] size b'
  ok (result, b'')
