-- ===== src/Log/Buffer.antt =====
-- Fish/base/log/log_buffer.h and source/base/log/log_buffer.cpp, and how `operator<<` and `end` of
-- Fish/base/log/log_stream.h and source/base/log/log_stream.cpp use it. The array and its index
-- belong to the thread; one thread is modelled.
pub mod Flow
pub mod Lines
mod Tests
use fish_rpc.Prelude.{
  ltb, leb, if◌then◌else◌, length, take, ℕ, ◌+◌, ◌%◌, ◌^◌, Bool, true, false, List, [], ◌∷◌, ◌++◌,
}
use fish_rpc.Prelude.Outcome.{Outcome, ok, ◌>>=◌, ◌>>◌}
use fish_rpc.Net.Buffer.{copy_in}

abbrev pub buffer_size : ℕ
buffer_size = 10240

abbrev pub head_level : ℕ
head_level = 10237

abbrev pub low_level : ℕ
low_level = 9984

pub record LogBuffer : Type 0 where
  pub bytes : List ℕ
  pub write_index : ℕ

-- `writeIn`, by the bytes at `line`. The sum is one of unsigned ints.
unfoldable pub write_in : List ℕ → LogBuffer → Outcome (Bool × LogBuffer)
unfolding copy_in
write_in line b =
    if ltb head_level ((b.write_index + length line) % 2 ^ 32) then ok (false, b) else do
      bytes ← copy_in line b.write_index b.bytes
      ok (true, record { bytes = bytes; write_index = b.write_index + length line })

-- `writeEnd`.
unfoldable pub write_end : LogBuffer → Outcome (Bool × LogBuffer)
unfolding copy_in
write_end b = do
  bytes ← copy_in (13 ∷ 10 ∷ []) b.write_index b.bytes
  let w = b.write_index + 2
  ok (leb low_level w, record { bytes = bytes; write_index = w })

-- `updateMes`: the bytes in use.
unfoldable pub update_mes : LogBuffer → List ℕ
update_mes b = take b.write_index b.bytes

unfoldable pub refresh : LogBuffer → LogBuffer
refresh b = record b { write_index = 0 }

-- A stream, with what its callback has been given so far.
pub record LogStream : Type 0 where
  pub buf : LogBuffer
  pub handed : List ℕ

-- `operator<<` of a text, whose size is passed on as an unsigned int. It ignores whether the text
-- was written.
unfoldable pub put : List ℕ → LogStream → Outcome LogStream
unfolding write_in
put str s = do (_, b) ← write_in (take (length str % 2 ^ 32) str) s.buf; ok (record s { buf = b })

-- What `end` does once the line is ended: it hands the bytes over when there are many.
unfoldable pub hand_over : Bool → LogBuffer → LogStream → LogStream
unfolding update_mes refresh
hand_over true b s = record { buf = refresh b; handed = s.handed ++ update_mes b }
hand_over false b s = record s { buf = b }

-- `end`, with the callback set.
unfoldable pub end : LogStream → Outcome LogStream
unfolding write_end hand_over
end s = do (flag, b) ← write_end s.buf; ok (hand_over flag b s)
