-- ===== src/Log/Decimal/Unsigned.antt =====
-- The text that `convert` of source/base/log/log_stream.cpp makes of an integer that is not
-- negative, digit by digit.
use fish_rpc.Prelude.{
  ltb, lt→ltb, length, All, All-append, ℕ, ◌^◌, ◌≤◌, ◌<◌, ◌≡◌, refl, sym, subst, true, false, List,
  [], ◌∷◌, append-nil, arith,
}
use fish_rpc.Prelude.Outcome.{ok}
use fish_rpc.Prelude.Int.{pos, ltb_ℤ}
use mathlib.Core.List.{reverse, reverse-cons}
use fish_rpc.Log.Decimal.{convert, end_text, max_num_size}
use fish_rpc.Log.Decimal.Digits.{IsDigit, digits_of-value, value_of}

pub All-reverse : (P : ℕ → Type 0) (xs : List ℕ) → All P xs → All P (reverse xs)
All-reverse P [] h = tt
All-reverse P (x ∷ xs) (p, h) =
    subst (All P) (sym (reverse-cons x xs))
      (All-append P (reverse xs) (x ∷ []) (All-reverse P xs h) (p, tt))

-- Digits, the least one first, of which `convert` writes the reverse.
pub convert-pos :
    (n : ℕ)
    → n < 2 ^ 64
    → (ds : List ℕ) × (convert (pos n) ≡ ok (reverse ds))
      × (value_of ds ≡ n)
      × All IsDigit ds
      × (0 < length ds)
      × (length ds ≤ 20)
unfolding convert end_text
convert-pos n small =
    let (ds, e, spelled, short, all, some_digit) =
      digits_of-value max_num_size 20 (pos n) (omega arith) (omega arith) (omega arith) in
    let positive : ltb_ℤ (pos n) (pos 0) ≡ false = ground arith in
    let fits : ltb (length ds) max_num_size ≡ true =
      lt→ltb (length ds) max_num_size (omega arith) in
    (ds, rw (e, positive, append-nil ds, fits) refl, omega (arith, spelled), all, some_digit, short)
