-- ===== src/Log/Decimal/Digits.antt =====
-- Log/Decimal: the texts spell their numbers.
use fish_rpc.Prelude.{
  ◌⊎◌, ltb, leb, ◌==◌, if◌then◌else◌, lt→ltb, ==→eq, Bool-cases, length, All, length-append, ℕ,
  zero, suc, ◌+◌, ◌-◌, ◌*◌, ◌/◌, ◌%◌, ◌^◌, ◌≤◌, ◌<◌, ◌≡◌, refl, sym, ap, ◌∙◌, inl, inr, true, false,
  List, [], ◌∷◌, ◌++◌, append-nil, arith, last-cases, All-front, All-append,
}
use fish_rpc.Prelude.Outcome.{ok}
use fish_rpc.Prelude.Int.{ℤ, pos, negsuc, pos_part, neg_part, sub_ℕ, ltb_ℤ, eq_ℤ, quot, rem}
use mathlib.Core.List.{reverse, reverse-append, reverse-reverse, reverse-cons}
use native.Mathlib.Nat.{pow-suc}
use fish_rpc.Log.Decimal.{zero_at, digits_of, convert, num_digits, end_text, get_num, max_num_size}

-- The number that digits spell, the least one first, up to a '.'.
abbrev pub value_of : List ℕ → ℕ
value_of [] = 0
value_of (d ∷ ds) = if d == 46 then 0 else d - 48 + 10 * value_of ds

-- The number that a decimal text spells.
abbrev pub read_decimal : List ℕ → ℤ
read_decimal [] = pos 0
read_decimal (c ∷ cs) =
    if c == 45 then sub_ℕ 0 (value_of (reverse cs)) else pos (value_of (reverse (c ∷ cs)))

-- The number in the name of a log file.
abbrev pub read_num : List ℕ → ℕ
read_num [] = 0
read_num (c ∷ cs) = value_of cs

abbrev pub magnitude : ℤ → ℕ
magnitude z = pos_part z + neg_part z

abbrev pub IsDigit : ℕ → Type 0
IsDigit d = (48 ≤ d) × (d ≤ 57)

pub value_of-digit : (d : ℕ) (ds : List ℕ) → 48 ≤ d → value_of (d ∷ ds) ≡ d - 48 + 10 * value_of ds
value_of-digit d ds h = ground arith

num_digits-value :
    (room k n : ℕ) (rest : List ℕ)
    → n < 10 ^ k
    → k ≤ room
    → (ds : List ℕ) × (num_digits room n ≡ ok ds)
      × (value_of (ds ++ (46 ∷ rest)) ≡ n)
      × (length ds ≤ k)
unfolding num_digits
num_digits-value zero zero n rest h l = ([], ground arith, omega arith, omega arith)
num_digits-value zero (suc k) n rest h l = absurd (omega arith)
num_digits-value (suc room) zero n rest h l =
    let nothing : n == 0 ≡ true = ground arith in
    ([], rw nothing refl, omega (arith, ==→eq n 0 nothing), omega arith)
num_digits-value (suc room) (suc k) n rest h l =
    let shorter : n / 10 < 10 ^ k = omega (arith, pow-suc 10 k) in
    let (ds, e, value, short) = num_digits-value room k (n / 10) rest shorter (omega arith) in
    elim (Bool-cases (n == 0)) [
      | inl nothing ↦ ([], rw nothing refl, omega (arith, ==→eq n 0 nothing), omega arith)
      | inr something ↦ (
        (n % 10 + 48) ∷ ds,
        rw (something, e) refl,
        value_of-digit (n % 10 + 48) (ds ++ (46 ∷ rest)) (omega arith) ∙ omega (arith, value),
        omega arith,
      )
    ]

zero_at-pos : (k : ℕ) → k < 10 → zero_at (pos k) ≡ 48 + k
unfolding zero_at
zero_at-pos zero h = refl
zero_at-pos (suc zero) h = refl
zero_at-pos (suc (suc zero)) h = refl
zero_at-pos (suc (suc (suc zero))) h = refl
zero_at-pos (suc (suc (suc (suc zero)))) h = refl
zero_at-pos (suc (suc (suc (suc (suc zero))))) h = refl
zero_at-pos (suc (suc (suc (suc (suc (suc zero)))))) h = refl
zero_at-pos (suc (suc (suc (suc (suc (suc (suc zero))))))) h = refl
zero_at-pos (suc (suc (suc (suc (suc (suc (suc (suc zero)))))))) h = refl
zero_at-pos (suc (suc (suc (suc (suc (suc (suc (suc (suc zero))))))))) h = refl
zero_at-pos (suc (suc (suc (suc (suc (suc (suc (suc (suc (suc k)))))))))) h = absurd (omega arith)

zero_at-neg : (k : ℕ) → k < 10 → zero_at (sub_ℕ 0 k) ≡ 48 + k
unfolding zero_at
zero_at-neg zero h = refl
zero_at-neg (suc zero) h = refl
zero_at-neg (suc (suc zero)) h = refl
zero_at-neg (suc (suc (suc zero))) h = refl
zero_at-neg (suc (suc (suc (suc zero)))) h = refl
zero_at-neg (suc (suc (suc (suc (suc zero))))) h = refl
zero_at-neg (suc (suc (suc (suc (suc (suc zero)))))) h = refl
zero_at-neg (suc (suc (suc (suc (suc (suc (suc zero))))))) h = refl
zero_at-neg (suc (suc (suc (suc (suc (suc (suc (suc zero)))))))) h = refl
zero_at-neg (suc (suc (suc (suc (suc (suc (suc (suc (suc zero))))))))) h = refl
zero_at-neg (suc (suc (suc (suc (suc (suc (suc (suc (suc (suc k)))))))))) h = absurd (omega arith)

zero_at-rem : (z : ℤ) → zero_at (rem z 10) ≡ 48 + magnitude z % 10
zero_at-rem (pos n) = zero_at-pos (n % 10) (omega arith) ∙ omega arith
zero_at-rem (negsuc n) = zero_at-neg (suc n % 10) (omega arith) ∙ omega arith

magnitude-quot : (z : ℤ) → magnitude (quot z 10) ≡ magnitude z / 10
magnitude-quot (pos n) = omega arith
magnitude-quot (negsuc n) = grind arith

quot-zero : (z : ℤ) → eq_ℤ z (pos 0) ≡ (magnitude z == 0)
quot-zero (pos n) = ground arith
quot-zero (negsuc n) = ground arith

left_room : (room n : ℕ) → n < 10 ^ room → n == 0 ≡ false → 0 < room
left_room zero n h more = absurd (ground (arith, more))
left_room (suc room) n h more = omega arith

pub digits_of-value :
    (room k : ℕ) (z : ℤ)
    → magnitude z < 10 ^ k
    → 0 < k
    → k ≤ room
    → (ds : List ℕ) × (digits_of room z ≡ ok ds)
      × (value_of ds ≡ magnitude z)
      × (length ds ≤ k)
      × All IsDigit ds
      × (0 < length ds)
unfolding digits_of
digits_of-value zero k z h some_room l = absurd (omega arith)
digits_of-value (suc room) zero z h some_room l = absurd (omega arith)
digits_of-value (suc room) (suc k) z h some_room l =
    let d : ℕ = 48 + magnitude z % 10 in
    elim (Bool-cases (magnitude (quot z 10) == 0)) [
      | inl last ↦ (
        d ∷ [],
        rw (quot-zero (quot z 10), last, zero_at-rem z) refl,
        value_of-digit d [] (omega arith)
            ∙ omega (arith, ==→eq (magnitude (quot z 10)) 0 last, magnitude-quot z),
        omega arith,
        ((omega arith, omega arith), tt),
        omega arith,
      )
      | inr more ↦
          let shorter : magnitude (quot z 10) < 10 ^ k =
            omega (arith, pow-suc 10 k, magnitude-quot z) in
          let some_left : 0 < k = left_room k (magnitude (quot z 10)) shorter more in
          let (ds, e, value, short, all, some_digit) =
            digits_of-value room k (quot z 10) shorter some_left (omega arith) in
          (
            d ∷ ds,
            rw (quot-zero (quot z 10), more, zero_at-rem z, e) refl,
            value_of-digit d ds (omega arith) ∙ omega (arith, value, magnitude-quot z),
            omega arith,
            ((omega arith, omega arith), all),
            omega arith,
          )
    ]

-- A text of decimal digits, behind a '-' or not; there is a digit.
abbrev pub IsDecimal : List ℕ → Type 0
IsDecimal [] = ⊥
IsDecimal (c ∷ cs) = (IsDigit c ⊎ ((c ≡ 45) × (0 < length cs))) × All IsDigit cs

All-reverse : (ds : List ℕ) → All IsDigit ds → All IsDigit (reverse ds)
All-reverse [] h = tt
All-reverse (d ∷ ds) (p, h) =
    rw (reverse-cons d ds) (All-append IsDigit (reverse ds) (d ∷ []) (All-reverse ds h) (p, tt))

digits-IsDecimal : (ds : List ℕ) → All IsDigit ds → 0 < length ds → IsDecimal ds
digits-IsDecimal [] h some_digit = absurd (omega arith)
digits-IsDecimal (d ∷ ds) (p, h) some_digit = (inl p, h)

read_decimal-reverse :
    (ds : List ℕ) → All IsDigit ds → read_decimal (reverse ds) ≡ pos (value_of ds)
read_decimal-reverse ds all = elim (last-cases ds) [
  | inl e ↦ rw e refl
  | inr (front, x, e) ↦
      let (before, digit) = All-front IsDigit front x (rw e at all) in
      let no_sign : x == 45 ≡ false = ground (arith, digit.0) in
      let first : reverse ds ≡ x ∷ reverse front = ap reverse e ∙ reverse-append front (x ∷ []) in
      let back : reverse (x ∷ reverse front) ≡ ds = ap reverse (sym first) ∙ reverse-reverse ds in
      rw (first, no_sign, back) refl
]

pub length-reverse : (xs : List ℕ) → length (reverse xs) ≡ length xs
length-reverse [] = refl
length-reverse (x ∷ xs) =
    ap length (reverse-cons x xs)
    ∙ omega (arith, length-append (reverse xs) (x ∷ []), length-reverse xs)

end_text-read_decimal :
    (value : ℤ) (ds : List ℕ)
    → All IsDigit ds
    → value_of ds ≡ magnitude value
    → length ds ≤ 20
    → 0 < length ds
    → (text : List ℕ) × (end_text value ds ≡ ok text)
      × IsDecimal text
      × (read_decimal text ≡ value)
      × (length text ≤ 21)
unfolding end_text
end_text-read_decimal (pos n) ds all spelled short some_digit =
    let positive : ltb_ℤ (pos n) (pos 0) ≡ false = ground arith in
    let fits : ltb (length ds) max_num_size ≡ true =
      lt→ltb (length ds) max_num_size (omega arith) in
    (
      reverse ds,
      rw (positive, append-nil ds, fits) refl,
      digits-IsDecimal (reverse ds) (All-reverse ds all) (omega (arith, length-reverse ds)),
      read_decimal-reverse ds all ∙ ap pos (omega (arith, spelled)),
      omega (arith, length-reverse ds),
    )
end_text-read_decimal (negsuc n) ds all spelled short some_digit =
    let negative : ltb_ℤ (negsuc n) (pos 0) ≡ true = ground arith in
    let size : length (ds ++ (45 ∷ [])) ≡ length ds + 1 = length-append ds (45 ∷ []) in
    let fits : ltb (length ds + 1) max_num_size ≡ true =
      lt→ltb (length ds + 1) max_num_size (omega arith) in
    (
      45 ∷ reverse ds,
      rw (negative, size, fits, reverse-append ds (45 ∷ [])) refl,
      (inr (refl, omega (arith, length-reverse ds)), All-reverse ds all),
      rw (reverse-reverse ds, spelled) (ground arith),
      omega (arith, length-reverse ds),
    )

-- For every integer of magnitude below 2 ^ 64, the text that `convert` makes is one of decimal
-- digits, at least one, behind a '-' or not, and spells the integer; it has at most 21 bytes, and
-- nothing is written behind the array.
pub convert-read_decimal :
    (value : ℤ)
    → pos_part value + neg_part value < 2 ^ 64
    → (text : List ℕ) × (convert value ≡ ok text)
      × IsDecimal text
      × (read_decimal text ≡ value)
      × (length text ≤ 21)
unfolding convert
convert-read_decimal value small =
    let (ds, e, spelled, short, all, some_digit) =
      digits_of-value max_num_size 20 value (omega arith) (omega arith) (omega arith) in
    let (text, f, form, read, size) = end_text-read_decimal value ds all spelled short some_digit in
    (text, rw (e, f) refl, form, read, size)

-- For every file count below 2 ^ 31, the number can be read back from what `getNum` makes of it,
-- the least digit first; the text has at most 15 bytes, and nothing is written behind the array.
pub get_num-read_num :
    (file_count : ℕ)
    → file_count < 2 ^ 31
    → (name : List ℕ) × (get_num file_count ≡ ok name)
      × (read_num name ≡ file_count)
      × (length name ≤ 15)
unfolding get_num
get_num-read_num file_count small =
    let (ds, e, spelled, short) =
      num_digits-value 15 10 file_count (108 ∷ 111 ∷ 103 ∷ []) (omega arith) (omega arith) in
    let within : leb (length ds + 5) 16 ≡ true = ground arith in
    (
      95 ∷ ds ++ (46 ∷ 108 ∷ 111 ∷ 103 ∷ []),
      rw (e, within) refl,
      spelled,
      omega (arith, length-append ds (46 ∷ 108 ∷ 111 ∷ 103 ∷ [])),
    )
