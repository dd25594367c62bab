-- ===== src/Log/Logger/Statements.antt =====
-- What a statement is, and the texts in front of its message.
use fish_rpc.Prelude.{
  leb, ◌==◌, length, drop, All, length-append, length-drop, ℕ, ◌+◌, ◌^◌, ◌≤◌, ◌<◌, ◌≡◌, refl, sym,
  ap, ◌∙◌, inl, inr, true, false, List, [], ◌∷◌, ◌++◌, append_assoc, arith,
}
use fish_rpc.Prelude.Outcome.{Outcome, ok, fault, ◌>>=◌, Outcome-cases}
use fish_rpc.Prelude.Int.{ℤ, pos, negsuc, pos_part, neg_part, eq_ℤ, InRange}
use fish_rpc.Log.Buffer.{LogStream, put}
use fish_rpc.Log.Buffer.Lines.{puts, joined}
use fish_rpc.Log.Decimal.{put_number, convert, max_num_size}
use fish_rpc.Log.Decimal.Digits.{convert-read_decimal}
use fish_rpc.Log.Logger.{Logger, Statement, LogLevel, write_front}
use fish_rpc.Log.Logger.Names.{fixed, length-fixed}

-- "Debug: ", the label of every statement, whatever its level.
abbrev pub label : List ℕ
label = 68 ∷ 101 ∷ 98 ∷ 117 ∷ 103 ∷ 58 ∷ 32 ∷ []

-- A statement in the file `base` of a directory.
pub record Site : Type 0 where
  pub directory : List ℕ
  pub base : List ℕ
  pub level : LogLevel
  pub time : ℕ
  pub tid : ℤ
  pub line : ℤ
  pub fun : List ℕ
  pub message : List (List ℕ)

abbrev pub statement : Site → Statement
statement site = record {
  level = site.level;
  time = site.time;
  tid = site.tid;
  file = site.directory ++ (47 ∷ site.base);
  line = site.line;
  fun = site.fun;
  message = site.message;
}

-- Names that a C string can hold, and a message of at most 105 bytes.
pub record IsLoggable (site : Site) : Type 0 where
  pub one_name : All (λ c. (c == 47) ≡ false) site.base
  pub solid_base : All (λ c. (c == 0) ≡ false) site.base
  pub solid_fun : All (λ c. (c == 0) ≡ false) site.fun
  pub few_lines : InRange (2 ^ 31) site.line
  pub short : length (joined site.message) ≤ 105

-- A thread whose buffers were resized, and that has its id.
pub record IsReady (l : Logger) : Type 0 where
  pub file_sized : length l.file_n ≡ 25
  pub fun_sized : length l.fun_n ≡ 25
  pub few_threads : InRange (2 ^ 31) l.thread_tid
  pub has_id : eq_ℤ l.thread_tid (pos 0) ≡ false

-- The text of an int.
abbrev text_in : Outcome (List ℕ) → List ℕ
text_in (ok text) = text
text_in (fault e) = []

abbrev decimal : ℤ → List ℕ
decimal z = text_in (convert z)

-- The texts in front of a message.
abbrev pub front : List ℕ → ℤ → List ℕ → ℤ → List ℕ → List (List ℕ)
front stamp tid base line fun =
    stamp
    ∷ (9 ∷ [])
    ∷ decimal tid
    ∷ (9 ∷ [])
    ∷ base
    ∷ (9 ∷ [])
    ∷ decimal line
    ∷ (9 ∷ [])
    ∷ fun
    ∷ (9 ∷ [])
    ∷ label
    ∷ []

small_int : (z : ℤ) → InRange (2 ^ 31) z → pos_part z + neg_part z < 2 ^ 64
small_int (pos n) h = omega arith
small_int (negsuc n) h = omega arith

le→leb : (a b : ℕ) → a ≤ b → leb a b ≡ true
le→leb a b h = ground arith

convert-decimal :
    (z : ℤ) → InRange (2 ^ 31) z → (convert z ≡ ok (decimal z)) × (length (decimal z) ≤ 21)
convert-decimal z h =
    let (text, e, form, read, short) = convert-read_decimal z (small_int z h) in
    (e ∙ ap ok (sym (ap text_in e)), omega (arith, short, ap (λ m. length (text_in m)) e))

-- An operator on an integer puts its text.
put_number-decimal :
    (z : ℤ) (s : LogStream) → InRange (2 ^ 31) z → put_number z s ≡ put (decimal z) s
unfolding put_number
put_number-decimal z s h =
    let (e, short) = convert-decimal z h in
    let fits : leb (length (decimal z)) max_num_size ≡ true =
      le→leb (length (decimal z)) max_num_size (omega (arith, short)) in
    rw (e, fits) refl

pub write_front-puts :
    (stamp base fun : List ℕ) (tid line : ℤ) (s : LogStream)
    → InRange (2 ^ 31) tid
    → InRange (2 ^ 31) line
    → write_front stamp tid base line fun s ≡ puts (front stamp tid base line fun) s
unfolding write_front puts
write_front-puts stamp base fun tid line s few small =
    ap
      (λ (number : (LogStream → Outcome LogStream) × (LogStream → Outcome LogStream)). do
        s ← put stamp s
        s ← put (9 ∷ []) s
        s ← number.0 s
        s ← put (9 ∷ []) s
        s ← put base s
        s ← put (9 ∷ []) s
        s ← number.1 s
        s ← put (9 ∷ []) s
        s ← put fun s
        s ← put (9 ∷ []) s
        s ← put label s
        ok s)
      (λ i. (λ s. put_number-decimal tid s few i, λ s. put_number-decimal line s small i))

pub length-front :
    (stamp base fun : List ℕ) (tid line : ℤ)
    → length stamp ≡ 64
    → length base ≡ 15
    → length fun ≡ 15
    → InRange (2 ^ 31) tid
    → InRange (2 ^ 31) line
    → length (joined (front stamp tid base line fun)) ≤ 148
length-front stamp base fun tid line s b f few small = omega (
  arith,
  s,
  b,
  f,
  (convert-decimal tid few).1,
  (convert-decimal line small).1,
  length-append stamp (
      joined (
        (9 ∷ [])
        ∷ decimal tid
        ∷ (9 ∷ [])
        ∷ base
        ∷ (9 ∷ [])
        ∷ decimal line
        ∷ (9 ∷ [])
        ∷ fun
        ∷ (9 ∷ [])
        ∷ label
        ∷ [])),
  length-append (decimal tid)
      (joined ((9 ∷ []) ∷ base ∷ (9 ∷ []) ∷ decimal line ∷ (9 ∷ []) ∷ fun ∷ (9 ∷ []) ∷ label ∷ [])),
  length-append base (joined ((9 ∷ []) ∷ decimal line ∷ (9 ∷ []) ∷ fun ∷ (9 ∷ []) ∷ label ∷ [])),
  length-append (decimal line) (joined ((9 ∷ []) ∷ fun ∷ (9 ∷ []) ∷ label ∷ [])),
  length-append fun (joined ((9 ∷ []) ∷ label ∷ [])),
)

pub puts-append :
    (xs ys : List (List ℕ)) (s : LogStream) → puts (xs ++ ys) s ≡ (puts xs s >>= puts ys)
unfolding puts
puts-append [] ys s = refl
puts-append (x ∷ xs) ys s = elim (Outcome-cases (put x s)) [
  | inl (s', e) ↦ rw e (puts-append xs ys s')
  | inr (f, e) ↦ rw e refl
]

pub joined-append : (xs ys : List (List ℕ)) → joined (xs ++ ys) ≡ joined xs ++ joined ys
joined-append [] ys = refl
joined-append (x ∷ xs) ys =
    ap (λ t. x ++ t) (joined-append xs ys) ∙ sym (append_assoc x (joined xs) (joined ys))

pub length-buffer :
    (str buf : List ℕ) → length buf ≡ 25 → length (fixed str ++ (0 ∷ drop 16 buf)) ≡ 25
length-buffer str buf h =
    omega
      (arith, h, length-append (fixed str) (0 ∷ drop 16 buf), length-fixed str, length-drop 16 buf)
