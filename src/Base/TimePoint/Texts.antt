-- ===== src/Base/TimePoint/Texts.antt =====
-- What stands in the texts of a time.
use fish_rpc.Prelude.{
  leb, ◌==◌, ==→eq, Bool-cases, length, take, drop, replicate, All, length-append, length-replicate,
  take_all, All-append, ℕ, zero, suc, ◌+◌, ◌-◌, ◌*◌, ◌/◌, ◌%◌, ◌^◌, ◌≤◌, ◌<◌, ◌≡◌, refl, sym, ap,
  ◌∙◌, inl, inr, true, List, [], ◌∷◌, ◌++◌, append_assoc, arith,
}
use fish_rpc.Prelude.Outcome.{ok}
use mathlib.Core.List.{reverse, reverse-append, reverse-reverse}
use native.Mathlib.Nat.{pow-suc}
use fish_rpc.Log.Decimal.Digits.{IsDigit, value_of, value_of-digit, length-reverse}
use fish_rpc.Log.Decimal.Unsigned.{All-reverse}
use fish_rpc.Net.Buffer.{copy_in}
use fish_rpc.Base.TimePoint.{Tm, digits_from, padded, snprintf, time_of_day, to_log_string}

digits_from-value :
    (k j n : ℕ)
    → n < 10 ^ j
    → j ≤ k
    → (value_of (digits_from k n) ≡ n)
      × All IsDigit (digits_from k n)
      × (length (digits_from k n) ≤ j)
unfolding digits_from
digits_from-value zero zero n h l = (omega arith, tt, omega arith)
digits_from-value zero (suc j) n h l = absurd (omega arith)
digits_from-value (suc k) zero n h l =
    let nothing : (n == 0) ≡ true = ground arith in
    rw nothing (omega (arith, ==→eq n 0 nothing), tt, omega arith)
digits_from-value (suc k) (suc j) n h l =
    let (value, digits, short) =
      digits_from-value k j (n / 10) (omega (arith, pow-suc 10 j)) (omega arith) in
    elim (Bool-cases (n == 0)) [
      | inl nothing ↦ rw nothing (omega (arith, ==→eq n 0 nothing), tt, omega arith)
      | inr something ↦ rw something (
        value_of-digit (n % 10 + 48) (digits_from k (n / 10)) (omega arith) ∙ omega (arith, value),
        ((omega arith, omega arith), digits),
        omega arith,
      )
    ]

value_of-zeros :
    (ds zs : List ℕ)
    → All IsDigit ds
    → All (λ (z : ℕ). z ≡ 48) zs
    → value_of (ds ++ zs) ≡ value_of ds
value_of-zeros [] [] h e = refl
value_of-zeros [] (z ∷ zs) h (e, es) = ground (arith, value_of-zeros [] zs tt es, e)
value_of-zeros (d ∷ ds) zs (p, h) e =
    value_of-digit d (ds ++ zs) p.0
    ∙ ap (λ v. d - 48 + 10 * v) (value_of-zeros ds zs h e)
    ∙ sym (value_of-digit d ds p.0)

replicate-zeros : (k : ℕ) → All (λ (z : ℕ). z ≡ 48) (replicate k 48)
replicate-zeros zero = tt
replicate-zeros (suc k) = (refl, replicate-zeros k)

All-replicate : (k : ℕ) → All IsDigit (replicate {A = ℕ} k 48)
All-replicate zero = tt
All-replicate (suc k) = ((omega arith, omega arith), All-replicate k)

-- A number of at most as many digits as the width is printed with just so many, and can be read.
pub padded-width :
    (w n : ℕ)
    → 0 < w
    → w ≤ 20
    → n < 10 ^ w
    → (length (padded 48 w n) ≡ w)
      × All IsDigit (padded 48 w n)
      × (value_of (reverse (padded 48 w n)) ≡ n)
unfolding padded
padded-width w n some_width l h =
    let (value, digits, short) = digits_from-value 20 w n h l in
    let ds = digits_from 20 n in
    let zeros : List ℕ = replicate (w - length ds) 48 in
    (
      omega (
        arith,
        length-append zeros (reverse ds),
        length-replicate {A = ℕ} (w - length ds) 48,
        length-reverse ds,
      ),
      All-append IsDigit zeros (reverse ds) (All-replicate (w - length ds))
          (All-reverse IsDigit ds digits),
      ap value_of
            (reverse-append zeros (reverse ds) ∙ ap (λ t. t ++ reverse zeros) (reverse-reverse ds))
          ∙ value_of-zeros ds (reverse zeros) digits
              (All-reverse (λ (z : ℕ). z ≡ 48) zeros (replicate-zeros (w - length ds)))
          ∙ value,
    )

pub copy_in-front :
    (view buf : List ℕ)
    → length view ≤ length buf
    → copy_in view 0 buf ≡ ok (view ++ drop (length view) buf)
unfolding copy_in
copy_in-front view buf h =
    let inside : leb (0 + length view) (length buf) ≡ true = ground arith in
    let start : 0 + length view ≡ length view = omega arith in rw (inside, start) refl

-- The ranges of the fields that a time of the day has.
abbrev pub IsTimeOfDay : Tm → Type 0
IsTimeOfDay tm = (tm.tm_hour < 24) × (tm.tm_min < 60) × (tm.tm_sec ≤ 60)

module _ (gmtime_r : ℕ → Tm) where
  length-time_of_day :
      (count : ℕ)
      → IsTimeOfDay (gmtime_r (count / 1000000 + 8 * 3600))
      → length (time_of_day gmtime_r count) ≡ 15
  unfolding time_of_day
  length-time_of_day count (hour, minute, second) =
      let tm = gmtime_r (count / 1000000 + 8 * 3600) in
      let h = (padded-width 2 tm.tm_hour (omega arith) (omega arith) (omega arith)).0 in
      let m = (padded-width 2 tm.tm_min (omega arith) (omega arith) (omega arith)).0 in
      let s = (padded-width 2 tm.tm_sec (omega arith) (omega arith) (omega arith)).0 in
      let us = (padded-width 6 (count % 1000000) (omega arith) (omega arith) (omega arith)).0 in
      let a = padded 48 2 tm.tm_hour in
      let b = padded 48 2 tm.tm_min in
      let c = padded 48 2 tm.tm_sec in
      let d = padded 48 6 (count % 1000000) in
      let total : length (a ++ (58 ∷ b) ++ (58 ∷ c) ++ (46 ∷ d)) ≡ 15 = omega (
        arith,
        h,
        m,
        s,
        us,
        length-append a (58 ∷ b),
        length-append (a ++ (58 ∷ b)) (58 ∷ c),
        length-append (a ++ (58 ∷ b) ++ (58 ∷ c)) (46 ∷ d),
      ) in
      total

  -- Where `gmtime_r` gives a time of day, `toLogString` does not fault, and the string that it
  -- returns is the time of day, which has 15 bytes, with 49 zero bytes behind it.
  pub to_log_string-padded :
      (time : ℕ)
      → IsTimeOfDay (gmtime_r (time / 1000 / 1000000 + 8 * 3600))
      → (to_log_string gmtime_r time ≡ ok (time_of_day gmtime_r (time / 1000) ++ replicate 49 0))
        × (length (time_of_day gmtime_r (time / 1000)) ≡ 15)
  unfolding to_log_string snprintf
  to_log_string-padded time ranges =
      let text = time_of_day gmtime_r (time / 1000) in
      let size : length text ≡ 15 = length-time_of_day (time / 1000) ranges in
      let ended : length (text ++ (0 ∷ [])) ≡ 16 =
        omega (arith, size, length-append text (0 ∷ [])) in
      let whole : take 63 text ≡ text = take_all 63 text (omega (arith, size)) in
      (
        ap (λ t. copy_in (t ++ (0 ∷ [])) 0 (replicate 64 0)) whole
            ∙ copy_in-front (text ++ (0 ∷ [])) (replicate 64 0) (omega (arith, ended))
            ∙ ap (λ k. ok ((text ++ (0 ∷ [])) ++ drop k (replicate 64 0))) ended
            ∙ ap ok (append_assoc text (0 ∷ []) (replicate 48 0)),
        size,
      )
