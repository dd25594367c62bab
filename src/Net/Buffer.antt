-- ===== src/Net/Buffer.antt =====
-- Fish/net/buffer.h and source/net/buffer.cpp: the byte buffer of a connection, a vector with a
-- read and a write index. An index is an `int`, kept as the number below 2 ^ 32 of its bit pattern;
-- it is not negative in a valid buffer.
pub mod Queue
mod Tests
use fish_rpc.Prelude.{
  ltb, leb, if◌then◌else◌, length, take, drop, replicate, ℕ, ◌+◌, ◌-◌, ◌%◌, ◌^◌, not, List, ◌++◌,
}
use fish_rpc.Prelude.Outcome.{Outcome, ok, Fault, ◌>>=◌, ◌>>◌, check}
use fish_rpc.Prelude.Int.{ℤ, pos, ◌+ℤ◌, ltb_ℤ, eq_ℤ, to_word}

pub record Buffer : Type 0 where
  pub buf : List ℕ
  pub write_index : ℕ
  pub read_index : ℕ

-- `Buffer(size)`: a vector of zeros.
unfoldable pub create : ℕ → Buffer
create size = record { buf = replicate size 0; write_index = 0; read_index = 0 }

-- The bytes from index `i` up to `j`.
unfoldable pub slice : {A : Type 0} → ℕ → ℕ → List A → List A
slice i j xs = take (j - i) (drop i xs)

-- `std::copy(view.data(), view.data() + view.size(), &buf[at])`: a fault past the end of `buf`.
unfoldable pub copy_in : List ℕ → ℕ → List ℕ → Outcome (List ℕ)
copy_in view at buf = do
  check (leb (at + length view) (length buf)) Fault.out_of_bounds
  ok (take at buf ++ view ++ drop (at + length view) buf)

-- The vector that `input` grows into: as long as what is stored and the view together, with the
-- stored bytes at the front. The write index is set to its length.
unfoldable pub grow : List ℕ → Buffer → Buffer
unfolding slice
grow view b =
    let stored = slice b.read_index b.write_index b.buf in
    let temp = stored ++ replicate (length view) 0 in
    record { buf = temp; write_index = length temp; read_index = 0 }

-- `buf_.size() - writeIndex_`, in `size_t`.
unfoldable pub room : Buffer → ℕ
room b = (length b.buf + 2 ^ 64 - b.write_index) % 2 ^ 64

-- `input(view)`.
unfoldable pub input : List ℕ → Buffer → Outcome Buffer
unfolding grow copy_in room
input view b = do
  let c = if ltb (room b) (length view) then grow view b else b
  buf' ← copy_in view c.write_index c.buf
  ok (record c { buf = buf'; write_index = (c.write_index + length view) % 2 ^ 32 })

-- `disRead`: the bytes that can be read.
unfoldable pub dis_read : Buffer → List ℕ
unfolding slice
dis_read b = slice b.read_index b.write_index b.buf

-- The size of the view that `disWrite` returns, in `size_t`. (Its assertion says that an unsigned
-- number is not negative.)
unfoldable pub dis_write_size : Buffer → ℕ
unfolding room
dis_write_size b = (room b + 2 ^ 64 - 1) % 2 ^ 64

-- `eraseData`, by the int that its argument is cast to.
unfoldable pub erase_data : ℤ → Buffer → Outcome Buffer
erase_data len b = do
  let after = pos b.read_index +ℤ len
  check (not (ltb_ℤ (pos b.write_index) after)) Fault.assert_failed
  ok (
      if eq_ℤ after (pos b.write_index)
      then record b { read_index = 0; write_index = 0 }
      else record b { read_index = to_word (2 ^ 32) after })

-- `already`. An index that has wrapped to a negative int fails the assertion as well, so long as
-- the vector is shorter than 2 ^ 31.
unfoldable pub already : ℕ → Buffer → Outcome Buffer
already len b = do
  let w = (b.write_index + len) % 2 ^ 32
  check (ltb w (length b.buf)) Fault.assert_failed
  ok (record b { write_index = w })

-- What `already` reports: bytes that the kernel has put into the view that `disWrite` returned.
unfoldable pub receive : List ℕ → Buffer → Outcome Buffer
unfolding copy_in already
receive bytes b = do
  buf' ← copy_in bytes b.write_index b.buf
  already (length bytes) (record b { buf = buf' })

unfoldable pub clear : Buffer → Buffer
clear b = record b { write_index = 0; read_index = 0 }
