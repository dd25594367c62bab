-- ===== src/Log/Decimal.antt =====
-- The decimal texts of source/base/log/log_stream.cpp and source/base/log/log_file.cpp: `convert`,
-- behind the operators of a stream on integers, and `getNum`, behind the names of the log files.
pub mod Digits
pub mod Unsigned
mod Tests
use fish_rpc.Prelude.{
  ltb, leb, ◌==◌, if◌then◌else◌, length, get_or, ℕ, zero, suc, ◌+◌, ◌/◌, ◌%◌, List, [], ◌∷◌, ◌++◌,
}
use fish_rpc.Prelude.Outcome.{Outcome, ok, fault, Fault, ◌>>=◌, ◌>>◌, check}
use fish_rpc.Prelude.Int.{ℤ, pos, pos_part, ◌+ℤ◌, ltb_ℤ, eq_ℤ, quot, rem}
use mathlib.Core.List.{reverse}
use fish_rpc.Log.Buffer.{LogStream, put}

abbrev pub max_num_size : ℕ
max_num_size = 48

-- "9876543210123456789"; `zero` points at its tenth character.
abbrev pub digits : List ℕ
digits =
    57 ∷ 56 ∷ 55 ∷ 54 ∷ 53 ∷ 52 ∷ 51 ∷ 50 ∷ 49 ∷ 48 ∷ 49 ∷ 50 ∷ 51 ∷ 52 ∷ 53 ∷ 54 ∷ 55 ∷ 56 ∷ 57
    ∷ []

-- `zero[lsd]`, for a remainder.
unfoldable pub zero_at : ℤ → ℕ
zero_at lsd = get_or digits (pos_part (pos 9 +ℤ lsd)) 0

-- The loop of `convert`, with so many bytes left in the array: what it writes, in order.
unfoldable pub digits_of : ℕ → ℤ → Outcome (List ℕ)
unfolding zero_at
digits_of zero i = fault Fault.out_of_bounds
digits_of (suc room) i =
    let rest = digits_of room (quot i 10) in
    if eq_ℤ (quot i 10) (pos 0)
    then ok (zero_at (rem i 10) ∷ [])
    else (do ds ← rest; ok (zero_at (rem i 10) ∷ ds))

-- What `convert` does behind its loop: the sign, the zero at the end, and the reversal. The text is
-- without that zero.
unfoldable pub end_text : ℤ → List ℕ → Outcome (List ℕ)
end_text value ds =
    let text = ds ++ (if ltb_ℤ value (pos 0) then 45 ∷ [] else []) in
    check (ltb (length text) max_num_size) Fault.out_of_bounds >> ok (reverse text)

unfoldable pub convert : ℤ → Outcome (List ℕ)
unfolding digits_of end_text
convert value = do ds ← digits_of max_num_size value; end_text value ds

-- The operators on integers.
unfoldable pub put_number : ℤ → LogStream → Outcome LogStream
unfolding convert put
put_number value s = do
  text ← convert value
  check (leb (length text) max_num_size) Fault.assert_failed
  put text s

-- The loop of `getNum`.
unfoldable pub num_digits : ℕ → ℕ → Outcome (List ℕ)
num_digits zero temp = if temp == 0 then ok [] else fault Fault.out_of_bounds
num_digits (suc room) temp =
    let rest = num_digits room (temp / 10) in
    if temp == 0 then ok [] else (do ds ← rest; ok ((temp % 10 + 48) ∷ ds))

-- `getNum`, into an array of 16 bytes: '_', the digits, ".log".
unfoldable pub get_num : ℕ → Outcome (List ℕ)
unfolding num_digits
get_num file_count = do
  ds ← num_digits 15 file_count
  check (leb (length ds + 5) 16) Fault.out_of_bounds
  ok (95 ∷ ds ++ (46 ∷ 108 ∷ 111 ∷ 103 ∷ []))
