-- ===== src/Base/FileRead.antt =====
-- Fish/base/file_read.h and source/base/file_read.cpp: a file that is read by lines or at once. What
-- the system knows of a path is a parameter.
use fish_rpc.Prelude.{
  ◌==◌, if◌then◌else◌, length, ℕ, zero, suc, Bool, true, false, ◌||◌, not, List, [], ◌∷◌,
}
use fish_rpc.Prelude.Outcome.{Outcome, ok, Fault, ◌>>◌, check}
use fish_rpc.Net.TcpAddr.{c_str}

-- What a path leads to; `content` is what can be read of it.
pub record PathEntry : Type 0 where
  pub exists : Bool
  pub is_regular_file : Bool
  pub can_open : Bool
  pub content : List ℕ

-- An `ifstream`: what was not read yet, and two of its flags.
pub record Stream : Type 0 where
  pub rest : List ℕ
  pub eof : Bool
  pub fail : Bool

pub record FileRead : Type 0 where
  pub size : ℕ
  pub is_open : Bool
  pub file : Stream
  pub path : List ℕ

-- The constructor. `file_size` throws where nothing exists.
unfoldable pub construct : PathEntry → List ℕ → Outcome FileRead
construct entry path = do
  check entry.exists Fault.runtime_error
  ok (record {
    size = length entry.content;
    is_open = entry.can_open;
    file = record { rest = entry.content; eof = false; fail = not entry.can_open };
    path = path;
  })

-- What `getline` takes from a text, with room for so many bytes: the line, and what is left.
unfoldable pub take_line : ℕ → List ℕ → List ℕ × Stream
take_line room [] = ([], record { rest = []; eof = true; fail = false })
take_line zero (c ∷ cs) =
    if c == 10
    then ([], record { rest = cs; eof = false; fail = false })
    else ([], record { rest = c ∷ cs; eof = false; fail = true })
take_line (suc room) (c ∷ cs) =
    let (line, s) = take_line room cs in
    if c == 10 then ([], record { rest = cs; eof = false; fail = false }) else (c ∷ line, s)

-- `getline` into an array of `n + 1` bytes. Where it takes nothing, it fails.
unfoldable pub getline : ℕ → Stream → List ℕ × Stream
unfolding take_line
getline n s =
    if s.eof || s.fail
    then ([], record s { fail = true })
    else let (line, s') = take_line n s.rest in
      (line, record s' { fail = s'.fail || length s.rest == 0 })

-- `readLine`: whether there is more, and the line.
unfoldable pub read_line : FileRead → Bool × List ℕ × FileRead
unfolding getline c_str
read_line f = let (line, s) = getline 1023 f.file in (not s.eof, c_str line, record f { file = s })

-- `closeFile`, of the destructor too.
unfoldable pub close_file : FileRead → FileRead
close_file f = record f { is_open = false }

-- `read`, which takes what the stream's buffer still has, whatever its flags; `buf` is what it was.
unfoldable pub read : List ℕ → FileRead → List ℕ × FileRead
unfolding close_file
read buf f =
    if not f.is_open
    then (buf, f)
    else (f.file.rest, close_file (record f { file = record f.file { rest = [] } }))
