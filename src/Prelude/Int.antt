-- ===== src/Prelude/Int.antt =====
-- Signed integers over the native numbers, under the library's names (its ℤ stands on another ℕ),
-- and the conversions between them and words of w bytes.
use native.Mathlib.Nat.{mod-eq_of_lt, mod-lt}
use fish_rpc.Prelude.{
  ℕ, suc, ◌+◌, ◌-◌, ◌*◌, ◌/◌, ◌%◌, ◌^◌, ◌≤◌, ◌<◌, ◌≡◌, Bool, arith, ltb, leb, if◌then◌else◌, ◌==◌,
  false,
}

-- `negsuc n` is -(n + 1).
pub data ℤ : Type 0 where
  pos : ℕ → ℤ
  negsuc : ℕ → ℤ

abbrev pub pos_part : ℤ → ℕ
pos_part (pos n) = n
pos_part (negsuc n) = 0

abbrev pub neg_part : ℤ → ℕ
neg_part (pos n) = 0
neg_part (negsuc n) = suc n

-- a - b, as an integer.
abbrev pub sub_ℕ : ℕ → ℕ → ℤ
sub_ℕ a b = if leb b a then pos (a - b) else negsuc (b - a - 1)

infixl 65 ◌+ℤ◌ ◌-ℤ◌
infix 50 ◌≤ℤ◌
abbrev pub ◌+ℤ◌ : ℤ → ℤ → ℤ
a +ℤ b = sub_ℕ (pos_part a + pos_part b) (neg_part a + neg_part b)

abbrev pub ◌-ℤ◌ : ℤ → ℤ → ℤ
a -ℤ b = sub_ℕ (pos_part a + neg_part b) (neg_part a + pos_part b)

abbrev pub ◌≤ℤ◌ : ℤ → ℤ → Type 0
a ≤ℤ b = pos_part a + neg_part b ≤ pos_part b + neg_part a

abbrev pub ltb_ℤ : ℤ → ℤ → Bool
ltb_ℤ a b = ltb (pos_part a + neg_part b) (pos_part b + neg_part a)

abbrev pub eq_ℤ : ℤ → ℤ → Bool
eq_ℤ (pos m) (pos n) = m == n
eq_ℤ (pos m) (negsuc n) = false
eq_ℤ (negsuc m) (pos n) = false
eq_ℤ (negsuc m) (negsuc n) = m == n

-- Division as in C++, towards 0, and its remainder, which has the sign of the first argument.
abbrev pub quot : ℤ → ℕ → ℤ
quot (pos n) d = pos (n / d)
quot (negsuc n) d = sub_ℕ 0 (suc n / d)

abbrev pub rem : ℤ → ℕ → ℤ
rem (pos n) d = pos (n % d)
rem (negsuc n) d = sub_ℕ 0 (suc n % d)

-- The conversion of an integer to an unsigned word with `m` values.
abbrev pub to_word : ℕ → ℤ → ℕ
to_word m (pos n) = n % m
to_word m (negsuc n) = m - 1 - n % m

-- The integer that a word with `2 * h` values stands for in two's complement.
abbrev pub signed : ℕ → ℕ → ℤ
signed h x = if ltb x h then pos x else negsuc (2 * h - 1 - x)

-- A size_t returned as an int, and as a negated int.
abbrev pub to_int32 : ℕ → ℤ
to_int32 n = signed (2 ^ 31) (n % 2 ^ 32)

-- The range of a signed word with `2 * h` values.
abbrev pub InRange : ℕ → ℤ → Type 0
InRange h (pos n) = n < h
InRange h (negsuc n) = n < h

pub signed-to_word : (h : ℕ) (z : ℤ) → InRange h z → signed h (to_word (2 * h) z) ≡ z
signed-to_word h (pos n) r =
    let e : n % (2 * h) ≡ n = mod-eq_of_lt (omega arith) in rw e (ground arith)
signed-to_word h (negsuc n) r =
    let e : n % (2 * h) ≡ n = mod-eq_of_lt (omega arith) in rw e (ground arith)

pub to_word-lt : (m : ℕ) (z : ℤ) → 0 < m → to_word m z < m
to_word-lt m (pos n) h = mod-lt n h
to_word-lt m (negsuc n) h = omega arith

pub InRange-pos : (h : ℕ) (z : ℤ) → InRange h z → 0 < h
InRange-pos h (pos n) r = omega arith
InRange-pos h (negsuc n) r = omega arith
