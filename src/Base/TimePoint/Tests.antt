-- ===== src/Base/TimePoint/Tests.antt =====
-- Texts of concrete times.
use fish_rpc.Prelude.{ℕ, ◌≡◌, refl, [], ◌∷◌, ◌++◌, replicate, length, arith}
use fish_rpc.Prelude.Outcome.{ok}
use fish_rpc.Base.TimePoint.{Tm, time_of_day, to_string, to_log_string, to_log_file_name}
use fish_rpc.Base.TimePoint.Texts.{IsTimeOfDay, to_log_string-padded}

abbrev noon : ℕ → Tm
noon t = record { tm_year = 122; tm_mon = 0; tm_mday = 1; tm_hour = 12; tm_min = 5; tm_sec = 9 }

-- "2022-01-01-12-05"
file_name :
    to_log_file_name noon 5
    ≡ ok (50 ∷ 48 ∷ 50 ∷ 50 ∷ 45 ∷ 48 ∷ 49 ∷ 45 ∷ 48 ∷ 49 ∷ 45 ∷ 49 ∷ 50 ∷ 45 ∷ 48 ∷ 53 ∷ [])
unfolding to_log_file_name
file_name = refl

-- After 3 seconds and 42 microseconds: "0.003000".
seconds : to_string 3000042000 ≡ ok (48 ∷ 46 ∷ 48 ∷ 48 ∷ 51 ∷ 48 ∷ 48 ∷ 48 ∷ [])
unfolding to_string
seconds = refl

noon-IsTimeOfDay : IsTimeOfDay (noon 28801)
noon-IsTimeOfDay = (omega arith, omega arith, omega arith)

to_log_string-padded_example :
    (to_log_string noon 1000042000 ≡ ok (time_of_day noon 1000042 ++ replicate 49 0))
    × (length (time_of_day noon 1000042) ≡ 15)
to_log_string-padded_example = to_log_string-padded noon 1000042000 noon-IsTimeOfDay
