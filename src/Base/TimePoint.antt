-- ===== src/Base/TimePoint.antt =====
-- Fish/base/time_point.h and source/base/timePoint.cpp: the texts of a time. A time is the number of
-- nanoseconds since 1970. `gmtime_r` is a parameter.
pub mod Texts
mod Tests
use fish_rpc.Prelude.{
  ◌==◌, if◌then◌else◌, length, take, replicate, ℕ, zero, suc, ◌+◌, ◌-◌, ◌*◌, ◌/◌, ◌%◌, List, [],
  ◌∷◌, ◌++◌,
}
use fish_rpc.Prelude.Outcome.{Outcome, ok, ◌>>=◌, ◌>>◌}
use mathlib.Core.List.{reverse}
use fish_rpc.Net.Buffer.{copy_in}
use fish_rpc.Net.TcpAddr.{c_str}

-- The fields of a `tm` that are read.
pub record Tm : Type 0 where
  pub tm_year : ℕ
  pub tm_mon : ℕ
  pub tm_mday : ℕ
  pub tm_hour : ℕ
  pub tm_min : ℕ
  pub tm_sec : ℕ

-- The digits of a number, the least one first, at most so many.
unfoldable pub digits_from : ℕ → ℕ → List ℕ
digits_from zero n = []
digits_from (suc k) n =
    let rest = digits_from k (n / 10) in if n == 0 then [] else (n % 10 + 48) ∷ rest

-- What `printf` makes of a number below 2 ^ 64 with a width, by what it fills up with.
unfoldable pub padded : ℕ → ℕ → ℕ → List ℕ
unfolding digits_from
padded fill width n = let ds = digits_from 20 n in replicate (width - length ds) fill ++ reverse ds

-- "%ld": no width, but a digit at least.
unfoldable pub plain : ℕ → List ℕ
unfolding padded
plain n = padded 48 1 n

-- `snprintf` of a text into an array: as much as fits, and a zero.
unfoldable pub snprintf : List ℕ → List ℕ → Outcome (List ℕ)
unfolding copy_in
snprintf text buf = copy_in (take (length buf - 1) text ++ (0 ∷ [])) 0 buf

-- `toString`.
unfoldable pub to_string : ℕ → Outcome (List ℕ)
unfolding plain padded snprintf c_str
to_string time = do
  let value = time / 1000000
  buf ←
      snprintf (plain (value / 1000000 % 60) ++ (46 ∷ padded 48 6 (value % 1000000)))
        (replicate 32 0)
  ok (c_str buf)

module _ (gmtime_r : ℕ → Tm) where
  -- The text of `toLogString`, by the microseconds since 1970: the time of the day at UTC+8.
  unfoldable pub time_of_day : ℕ → List ℕ
  unfolding padded
  time_of_day count =
      let tm = gmtime_r (count / 1000000 + 8 * 3600) in
      padded 48 2 tm.tm_hour
      ++ (58 ∷ padded 48 2 tm.tm_min)
      ++ (58 ∷ padded 48 2 tm.tm_sec)
      ++ (46 ∷ padded 48 6 (count % 1000000))

  -- `toLogString`. The string has the size of its buffer, whatever was printed.
  unfoldable pub to_log_string : ℕ → Outcome (List ℕ)
  unfolding time_of_day snprintf
  to_log_string time = snprintf (time_of_day (time / 1000)) (replicate 64 0)

  -- `toLogFileName`.
  unfoldable pub to_log_file_name : ℕ → Outcome (List ℕ)
  unfolding padded snprintf c_str
  to_log_file_name time = do
    let tm = gmtime_r (time / 1000000000)
    let text =
        padded 32 4 (tm.tm_year + 1900)
        ++ (45 ∷ padded 48 2 (tm.tm_mon + 1))
        ++ (45 ∷ padded 48 2 tm.tm_mday)
        ++ (45 ∷ padded 48 2 tm.tm_hour)
        ++ (45 ∷ padded 48 2 tm.tm_min)
    buf ← snprintf text (replicate 64 0)
    ok (c_str buf)
