-- ===== src/Log/Decimal/Tests.antt =====
-- Log/Decimal at the least `int` and at the name of a log file.
use fish_rpc.Prelude.{length, ℕ, ◌≤◌, ◌≡◌, refl, List, [], ◌∷◌, arith}
use fish_rpc.Prelude.Outcome.{ok}
use fish_rpc.Prelude.Int.{negsuc}
use fish_rpc.Log.Decimal.{convert, get_num}
use fish_rpc.Log.Decimal.Digits.{IsDecimal, read_decimal, convert-read_decimal}

convert-read_decimal_example :
    (text : List ℕ) × (convert (negsuc 2147483647) ≡ ok text)
    × IsDecimal text
    × (read_decimal text ≡ negsuc 2147483647)
    × (length text ≤ 21)
convert-read_decimal_example = convert-read_decimal (negsuc 2147483647) (omega arith)

-- "_021.log"
get_num-reversed : get_num 120 ≡ ok (95 ∷ 48 ∷ 50 ∷ 49 ∷ 46 ∷ 108 ∷ 111 ∷ 103 ∷ [])
unfolding get_num
get_num-reversed = refl
