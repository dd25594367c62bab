-- ===== src/Log/LogFile.antt =====
-- Fish/base/log/log_file.h and source/base/log/log_file.cpp: the file that the logger writes, and
-- the change to a new one. `fwrite_unlocked` and `ferror` are a parameter: at the `i`th call, with
-- so many bytes to write, how many are written, and whether the file is in error. So is `fopen`, by
-- the names that it opens, and the text of the time in a file's name.
pub mod Writing
mod Tests
use fish_rpc.Prelude.{
  ltb, ◌==◌, if◌then◌else◌, length, take, ℕ, zero, suc, ◌+◌, ◌-◌, Bool, ◌||◌, not, Option, none,
  some, List, [], ◌∷◌, ◌++◌, map,
}
use fish_rpc.Prelude.Outcome.{Fault, check, Outcome, ok, ◌>>=◌, ◌>>◌}
use mathlib.Core.Option
use fish_rpc.Log.Decimal.{get_num}

abbrev pub max_size_pre_file : ℕ
max_size_pre_file = 104857600

abbrev pub Answers : Type 0
Answers = ℕ → ℕ → ℕ × Bool

-- `closed` are the files so far with their names, the newest last; `content` is what was written to
-- the open one.
pub record LogFile : Type 0 where
  pub write_bytes : ℕ
  pub file_count : ℕ
  pub name : List ℕ
  pub content : List ℕ
  pub closed : List (List ℕ × List ℕ)

-- `time.toLogFileName()`, and the number behind it.
unfoldable pub next_name : List ℕ → ℕ → Outcome (List ℕ)
unfolding get_num
next_name time file_count = do num ← get_num file_count; ok (time ++ num)

-- The constructor.
unfoldable pub construct : (List ℕ → Bool) → List ℕ → Outcome LogFile
unfolding next_name
construct fopen time = do
  name ← next_name time 1
  check (fopen name) Fault.assert_failed
  ok (record { write_bytes = 0; file_count = 2; name = name; content = []; closed = [] })

-- `changeFile`.
unfoldable pub change_file : (List ℕ → Bool) → List ℕ → LogFile → Outcome LogFile
unfolding next_name
change_file fopen time l = do
  name ← next_name time l.file_count
  check (fopen name) Fault.assert_failed
  ok (record {
    write_bytes = 0;
    file_count = l.file_count + 1;
    name = name;
    content = [];
    closed = l.closed ++ ((l.name, l.content) ∷ []);
  })

-- The loop of `writeMessage`, for so many passes at most, if it ends: how much it has counted, and
-- how many bytes are in the file. What a call wrote before it failed is not counted.
unfoldable pub write_loop : Answers → ℕ → ℕ → ℕ → ℕ → Option (ℕ × ℕ)
write_loop answers zero i len written = if written == len then some (written, written) else none
write_loop answers (suc passes) i len written =
    let n = (answers i (len - written)).0 in
    let rest = write_loop answers passes (i + 1) len (written + n) in
    if written == len
    then some (written, written)
    else if n == len - written || not (answers i (len - written)).1
    then rest
    else some (written, written + n)

-- What `writeMessage` does once its loop has ended.
unfoldable pub after_write : (List ℕ → Bool) → List ℕ → List ℕ → ℕ × ℕ → LogFile → Outcome LogFile
unfolding change_file
after_write fopen time message (written, in_file) l =
    let l' : LogFile = record l {
      write_bytes = l.write_bytes + written;
      content = l.content ++ take in_file message;
    } in
    if ltb max_size_pre_file l'.write_bytes then change_file fopen time l' else ok l'

-- `writeMessage`, for so many passes of its loop at most; `none` if it has not ended by then.
unfoldable pub write_message :
    Answers → (List ℕ → Bool) → List ℕ → ℕ → List ℕ → LogFile → Option (Outcome LogFile)
unfolding write_loop after_write
write_message answers fopen time passes message l =
    Option.map (λ counts. after_write fopen time message counts l)
      (write_loop answers passes 0 (length message) 0)
