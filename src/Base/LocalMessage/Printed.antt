-- ===== src/Base/LocalMessage/Printed.antt =====
-- Lines "key: value" as they are printed, and what reads one of them.
use fish_rpc.Prelude.{
  ◌==◌, if◌then◌else◌, Bool-cases, length, All, length-append, ℕ, zero, suc, ◌≤◌, ◌≡◌, refl, sym,
  ap, ◌∙◌, inl, inr, true, false, Option, some, List, [], ◌∷◌, ◌++◌, arith,
}
use fish_rpc.Prelude.Texts.{same_text, same_text_refl, same_text_sound}
use fish_rpc.Net.TcpAddr.{c_str}
use fish_rpc.Base.FileRead.{FileRead, take_line, getline, read_line}
use fish_rpc.Base.LocalMessage.{ConfMap, find, assign}

-- A line of the file, without its end.
abbrev pub line_of : List ℕ × List ℕ → List ℕ
line_of (key, value) = key ++ (58 ∷ 32 ∷ value)

abbrev pub printed : List (List ℕ × List ℕ) → List ℕ
printed [] = []
printed (entry ∷ entries) = line_of entry ++ (10 ∷ printed entries)

abbrev pub IsLine : List ℕ → Type 0
IsLine line = All (λ c. (c == 10) ≡ false) line × (length line ≤ 1023)

-- A key without a colon, and a line that is short, on one line, and a C string.
abbrev pub IsEntry : List ℕ × List ℕ → Type 0
IsEntry (key, value) =
    All (λ c. (c == 58) ≡ false) key
    × IsLine (line_of (key, value))
    × All (λ c. (c == 0) ≡ false) (line_of (key, value))

-- What may follow the entries: an empty line and anything, or a line that the file breaks off.
pub data IsEnd : List ℕ → Type 0 where
  empty_line : (more : List ℕ) → IsEnd (10 ∷ more)
  broken_off : (line : List ℕ) → IsLine line → IsEnd line

-- The last value of a key.
abbrev pub last_value : List ℕ → List (List ℕ × List ℕ) → Option (List ℕ) → Option (List ℕ)
last_value key [] found = found
last_value key ((k, v) ∷ entries) found =
    last_value key entries (if same_text k key then some v else found)

abbrev pub assign_all : List (List ℕ × List ℕ) → ConfMap → ConfMap
assign_all [] m = m
assign_all ((k, v) ∷ entries) m = assign_all entries (assign k v m)

same_text-other :
    (j k key : List ℕ) → same_text j k ≡ false → same_text j key ≡ true → same_text k key ≡ false
same_text-other j k key ne e = elim (Bool-cases (same_text k key)) [
  | inr other ↦ other
  | inl also ↦
      let equal : j ≡ k = same_text_sound j key e ∙ sym (same_text_sound k key also) in
      cc (ne, ap (same_text j) (sym equal), same_text_refl j)
]

find-assign :
    (key k v : List ℕ) (m : ConfMap)
    → find key (assign k v m) ≡ (if same_text k key then some v else find key m)
unfolding find assign
find-assign key k v [] = refl
find-assign key k v ((j, w) ∷ m) = elim (Bool-cases (same_text j k)) [
  | inl e ↦
      let same : same_text j key ≡ same_text k key =
        ap (λ t. same_text t key) (same_text_sound j k e) in
      rw (e, same) (ground arith)
  | inr ne ↦ elim (Bool-cases (same_text j key)) [
    | inl e ↦ rw (ne, e, same_text-other j k key ne e) refl
    | inr other ↦ rw (ne, other) (find-assign key k v m)
  ]
]

pub find-assign_all :
    (key : List ℕ) (entries : List (List ℕ × List ℕ)) (m : ConfMap)
    → find key (assign_all entries m) ≡ last_value key entries (find key m)
find-assign_all key [] m = refl
find-assign_all key ((k, v) ∷ entries) m =
    find-assign_all key entries (assign k v m) ∙ ap (last_value key entries) (find-assign key k v m)

take_line-ended :
    (room : ℕ) (line more : List ℕ)
    → All (λ c. (c == 10) ≡ false) line
    → length line ≤ room
    → take_line room (line ++ (10 ∷ more))
      ≡ (line, record { rest = more; eof = false; fail = false })
unfolding take_line
take_line-ended zero [] more h l = refl
take_line-ended (suc room) [] more h l = refl
take_line-ended zero (c ∷ cs) more h l = absurd (omega arith)
take_line-ended (suc room) (c ∷ cs) more (p, h) l =
    rw (p, take_line-ended room cs more h (omega arith)) refl

take_line-broken_off :
    (room : ℕ) (line : List ℕ)
    → All (λ c. (c == 10) ≡ false) line
    → length line ≤ room
    → take_line room line ≡ (line, record { rest = []; eof = true; fail = false })
unfolding take_line
take_line-broken_off zero [] h l = refl
take_line-broken_off (suc room) [] h l = refl
take_line-broken_off zero (c ∷ cs) h l = absurd (omega arith)
take_line-broken_off (suc room) (c ∷ cs) (p, h) l =
    rw (p, take_line-broken_off room cs h (omega arith)) refl

-- The stream at the start of a text.
abbrev pub at : FileRead → List ℕ → FileRead
at f text = record f { file = record { rest = text; eof = false; fail = false } }

c_str_solid : (text : List ℕ) → All (λ c. (c == 0) ≡ false) text → c_str text ≡ text
unfolding c_str
c_str_solid [] h = refl
c_str_solid (c ∷ cs) (p, h) = rw (p, c_str_solid cs h) refl

length-ended : (line more : List ℕ) → (length (line ++ (10 ∷ more)) == 0) ≡ false
length-ended line more = ground (arith, length-append line (10 ∷ more))

pub read_line-ended :
    (f : FileRead) (line more : List ℕ)
    → IsLine line
    → All (λ c. (c == 0) ≡ false) line
    → read_line (at f (line ++ (10 ∷ more))) ≡ (true, line, at f more)
unfolding read_line getline
read_line-ended f line more (one, short) solid =
    rw (take_line-ended 1023 line more one short, c_str_solid line solid, length-ended line more)
      refl

pub read_line-broken_off :
    (f : FileRead) (line : List ℕ)
    → IsLine line
    → (mes : List ℕ) × (f' : FileRead) × (read_line (at f line) ≡ (false, mes, f'))
unfolding read_line getline
read_line-broken_off f line (one, short) = (
  c_str line,
  record f { file = record { rest = []; eof = true; fail = length line == 0 } },
  rw (take_line-broken_off 1023 line one short) refl,
)
