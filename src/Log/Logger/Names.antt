-- ===== src/Log/Logger/Names.antt =====
-- The names in the front of a line: what `findFileName` finds and `dealLogStr` makes of it.
use fish_rpc.Prelude.{
  ltb, leb, ◌==◌, Bool-cases, length, take, drop, replicate, All, length-append, length-take,
  length-drop, length-replicate, take-append, drop-append, take_all, drop-drop, All-append, ℕ, zero,
  suc, ◌+◌, ◌-◌, ◌≤◌, min, ◌≡◌, refl, sym, ap, ◌∙◌, inl, inr, true, false, none, some, List, [],
  ◌∷◌, ◌++◌, append-nil, append_assoc, arith,
}
use fish_rpc.Prelude.Outcome.{ok}
use fish_rpc.Net.Buffer.{copy_in}
use fish_rpc.Net.TcpAddr.{c_str}
use fish_rpc.Base.TimePoint.Texts.{copy_in-front}
use fish_rpc.Log.Logger.{last_slash, find_file_name, fill_name, deal_log_str}

-- A name of a fixed width: cut, or filled up with spaces.
abbrev pub fixed : List ℕ → List ℕ
fixed str = take 15 str ++ replicate (15 - length str) 32

last_slash-none : (base : List ℕ) → All (λ c. (c == 47) ≡ false) base → last_slash base ≡ none
unfolding last_slash
last_slash-none [] h = refl
last_slash-none (c ∷ cs) (p, h) = rw (last_slash-none cs h, p) refl

last_slash-append :
    (directory base : List ℕ)
    → All (λ c. (c == 47) ≡ false) base
    → last_slash (directory ++ (47 ∷ base)) ≡ some (length directory)
unfolding last_slash
last_slash-append [] base h = rw (last_slash-none base h) refl
last_slash-append (c ∷ cs) base h = rw (last_slash-append cs base h) refl

pub length-fixed : (str : List ℕ) → length (fixed str) ≡ 15
length-fixed str = omega (
  arith,
  length-append (take 15 str) (replicate (15 - length str) 32),
  length-take 15 str,
  length-replicate {A = ℕ} (15 - length str) 32,
)

-- A copy behind a first part overwrites the start of what follows it.
copy_in-behind :
    (view front rest : List ℕ)
    → length view ≤ length rest
    → copy_in view (length front) (front ++ rest) ≡ ok (front ++ view ++ drop (length view) rest)
unfolding copy_in
copy_in-behind view front rest h =
    let inside : leb (length front + length view) (length (front ++ rest)) ≡ true =
      ground (arith, length-append front rest) in
    let behind : drop (length front + length view) (front ++ rest) ≡ drop (length view) rest =
      sym (drop-drop (length view) (length front) (front ++ rest))
      ∙ ap (drop (length view)) (drop-append front rest) in
    rw (inside, take-append front rest, behind) refl

-- The two copies of `dealLogStr` fill the first 15 bytes.
fill_name-fixed :
    (str buf : List ℕ) → 15 ≤ length buf → fill_name 15 str buf ≡ ok (fixed str ++ drop 15 buf)
unfolding fill_name
fill_name-fixed str buf h = elim (Bool-cases (ltb (length str) 15)) [
  | inl short ↦
      let all : min (length str) 15 ≡ length str = ground (arith, short) in
      let whole : take (length str) str ≡ str = take_all (length str) str (omega arith) in
      let most : take 15 str ≡ str = take_all 15 str (ground (arith, short)) in
      let spaces : List ℕ = replicate (15 - length str) 32 in
      let width : length spaces ≡ 15 - length str = length-replicate {A = ℕ} (15 - length str) 32 in
      let fits : 15 - length str ≤ length (drop (length str) buf) =
        omega (arith, length-drop (length str) buf) in
      let behind : drop (length spaces) (drop (length str) buf) ≡ drop 15 buf =
        drop-drop (length spaces) (length str) buf
        ∙ ap (λ k. drop k buf)
            (let e : length str + length spaces ≡ 15 = ground (arith, width, short) in e) in
      rw
        (
          all,
          short,
          whole,
          copy_in-front str buf (ground (arith, short)),
          copy_in-behind spaces str (drop (length str) buf) (omega (arith, width, fits)),
          most,
          behind,
        )
        refl
  | inr long ↦
      let cap : min (length str) 15 ≡ 15 = ground (arith, long) in
      let width : length (take 15 str) ≡ 15 = length-take 15 str ∙ ground (arith, long) in
      let nothing : 15 - length str ≡ 0 = ground (arith, long) in
      rw
        (
          cap,
          copy_in-front (take 15 str) buf (omega (arith, width)),
          width,
          nothing,
          append-nil (take 15 str),
        )
        refl
]

-- For a buffer of at least 16 bytes, `dealLogStr` writes the name at its fixed width and a zero.
pub deal_log_str-fixed :
    (str buf : List ℕ)
    → 16 ≤ length buf
    → deal_log_str str buf ≡ ok (fixed str ++ (0 ∷ drop 16 buf))
unfolding deal_log_str
deal_log_str-fixed str buf h =
    let one : 1 ≤ length (drop 15 buf) = omega (arith, length-drop 15 buf) in
    rw (fill_name-fixed str buf (omega arith)) (
      ap (λ at. copy_in (0 ∷ []) at (fixed str ++ drop 15 buf)) (sym (length-fixed str))
      ∙ copy_in-behind (0 ∷ []) (fixed str) (drop 15 buf) one
      ∙ ap ok (append_assoc (fixed str) (0 ∷ []) (drop 1 (drop 15 buf)))
      ∙ ap (λ t. ok (fixed str ++ (0 ∷ t))) (drop-drop 1 15 buf))

c_str-append :
    (text rest : List ℕ) → All (λ c. (c == 0) ≡ false) text → c_str (text ++ (0 ∷ rest)) ≡ text
unfolding c_str
c_str-append [] rest h = refl
c_str-append (c ∷ cs) rest (p, h) = rw (p, c_str-append cs rest h) refl

All-take : (P : ℕ → Type 0) (n : ℕ) (xs : List ℕ) → All P xs → All P (take n xs)
All-take P zero xs h = tt
All-take P (suc n) [] h = tt
All-take P (suc n) (x ∷ xs) (p, h) = (p, All-take P n xs h)

spaces-solid : (k : ℕ) → All (λ (c : ℕ). (c == 0) ≡ false) (replicate k 32)
spaces-solid zero = tt
spaces-solid (suc k) = (refl, spaces-solid k)

-- What `receive` writes of the buffer that `dealLogStr` leaves.
pub c_str-fixed :
    (str rest : List ℕ)
    → All (λ c. (c == 0) ≡ false) str
    → c_str (fixed str ++ (0 ∷ rest)) ≡ fixed str
c_str-fixed str rest h = c_str-append (fixed str) rest (
    All-append (λ c. (c == 0) ≡ false) (take 15 str) (replicate (15 - length str) 32)
      (All-take (λ c. (c == 0) ≡ false) 15 str h) (spaces-solid (15 - length str)))

-- `findFileName` finds the part behind the last '/'.
pub find_file_name-base :
    (directory base : List ℕ)
    → All (λ c. (c == 47) ≡ false) base
    → (slash : ℕ) × (find_file_name (directory ++ (47 ∷ base)) ≡ ok slash)
      × (drop slash (directory ++ (47 ∷ base)) ≡ base)
unfolding find_file_name
find_file_name-base directory base h = (
  length directory + 1,
  rw (find_file_name, last_slash-append directory base h) refl,
  sym (drop-drop 1 (length directory) (directory ++ (47 ∷ base)))
      ∙ ap (drop 1) (drop-append directory (47 ∷ base)),
)
