-- ===== src/Base/LocalMessage.antt =====
-- Fish/base/local_message.h and source/base/local_message.cpp: the configuration, which is read from
-- a file of lines "key: value".
pub mod Printed
pub mod Parsed
mod Tests
use fish_rpc.Prelude.{
  leb, ◌==◌, if◌then◌else◌, length, drop, ℕ, zero, suc, ◌+◌, ◌||◌, not, Option, none, some, List,
  [], ◌∷◌,
}
use fish_rpc.Prelude.Outcome.{Outcome, ok, Fault, ◌>>=◌, ◌>>◌, check}
use fish_rpc.Prelude.Texts.{same_text}
use fish_rpc.Base.FileRead
use fish_rpc.Base.FileRead.{FileRead, PathEntry, read_line}

-- `std::map<std::string, std::string>`.
abbrev pub ConfMap : Type 0
ConfMap = List (List ℕ × List ℕ)

unfoldable pub find : List ℕ → ConfMap → Option (List ℕ)
find key [] = none
find key ((k, v) ∷ m) = let rest = find key m in if same_text k key then some v else rest

-- `confMap_[key] = value`.
unfoldable pub assign : List ℕ → List ℕ → ConfMap → ConfMap
assign key value [] = (key, value) ∷ []
assign key value ((k, v) ∷ m) =
    let rest = assign key value m in if same_text k key then (k, value) ∷ m else (k, v) ∷ rest

pub record LocalMassage : Type 0 where
  pub file : FileRead
  pub config_file : List ℕ
  pub conf_map : ConfMap

-- `std::find` of the colon: the key, and what begins at the colon.
unfoldable pub split_line : List ℕ → List ℕ × List ℕ
split_line [] = ([], [])
split_line (c ∷ cs) =
    let (key, rest) = split_line cs in if c == 58 then ([], c ∷ cs) else (c ∷ key, rest)

-- The text from `iter + 2` on, where that is not behind the end.
unfoldable pub value_of : List ℕ → Outcome (List ℕ)
value_of rest = do check (leb 2 (length rest)) Fault.out_of_bounds; ok (drop 2 rest)

-- The body of the loop, for a line that is not empty.
unfoldable pub add_line : List ℕ → ConfMap → Outcome ConfMap
unfolding split_line value_of assign
add_line mes m = do let (key, rest) = split_line mes; value ← value_of rest; ok (assign key value m)

-- The loop of the constructor, for at most so many lines.
unfoldable pub read_lines : ℕ → FileRead → ConfMap → Outcome (FileRead × ConfMap)
read_lines zero f m = ok (f, m)
read_lines (suc n) f m =
    let (more, mes, f') = read_line f in
    if not more || length mes == 0 then ok (f', m) else (do m' ← add_line mes m; read_lines n f' m')

-- The constructor. A pass of the loop that does not end it takes a byte, so the size of the file is
-- enough.
unfoldable pub construct : PathEntry → List ℕ → Outcome LocalMassage
unfolding FileRead.construct
construct entry config_file = do
  f ← FileRead.construct entry config_file
  check entry.is_regular_file Fault.assert_failed
  (f', m) ← read_lines (length entry.content + 1) f []
  ok (record { file = f'; config_file = config_file; conf_map = m })

-- `readConfig`, by the single instance, which is made once.
unfoldable pub read_config : Option LocalMassage → PathEntry → List ℕ → Outcome LocalMassage
unfolding construct
read_config (some entity) entry path = ok entity
read_config none entry path = construct entry path

-- What a missing key reads as.
abbrev pub value_or : Option (List ℕ) → List ℕ
value_or none = []
value_or (some value) = value

-- `configRead`, of both kinds of text.
unfoldable pub config_read : List ℕ → LocalMassage → List ℕ
unfolding find
config_read str l = value_or (find str l.conf_map)
