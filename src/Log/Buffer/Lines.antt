-- ===== src/Log/Buffer/Lines.antt =====
-- Whole lines through the `LogStream` of Fish/base/log/log_stream.h.
use fish_rpc.Prelude.{
  le→ltb_false, length, All, length-append, ℕ, ◌+◌, ◌-◌, ◌≤◌, ◌<◌, ◌≡◌, refl, sym, ap, ◌∙◌, List,
  [], ◌∷◌, ◌++◌, append-nil, append_assoc, arith,
}
use fish_rpc.Prelude.Outcome.{Outcome, ok, ◌>>=◌}
use fish_rpc.Log.Buffer.{LogStream, put, end, head_level, low_level}
use fish_rpc.Log.Buffer.Flow.{IsValid, kept, accepted, put-accepted, end-kept}

-- The texts of a line.
unfoldable pub puts : List (List ℕ) → LogStream → Outcome LogStream
puts [] s = ok s
puts (str ∷ strs) s = do s' ← put str s; puts strs s'

unfoldable pub write_lines : List (List (List ℕ)) → LogStream → Outcome LogStream
unfolding puts
write_lines [] s = ok s
write_lines (line ∷ lines) s = do s' ← puts line s; s'' ← end s'; write_lines lines s''

abbrev pub joined : List (List ℕ) → List ℕ
joined [] = []
joined (str ∷ strs) = str ++ joined strs

-- What the lines should print.
abbrev pub printed : List (List (List ℕ)) → List ℕ
printed [] = []
printed (line ∷ lines) = (joined line ++ (13 ∷ 10 ∷ [])) ++ printed lines

pub puts-kept :
    (strs : List (List ℕ)) (s : LogStream)
    → IsValid s.buf
    → s.buf.write_index + length (joined strs) ≤ head_level
    → (s' : LogStream) × (puts strs s ≡ ok s') × IsValid s'.buf × (kept s' ≡ kept s ++ joined strs)
unfolding puts
puts-kept [] s v h = (s, refl, v, sym (append-nil (kept s)))
puts-kept (str ∷ strs) s v h =
    let total = length-append str (joined strs) in
    let (s', e, v', k, w) = put-accepted str s v (omega (arith, total)) in
    let whole : accepted str s.buf ≡ str =
      rw (le→ltb_false head_level (s.buf.write_index + length str) (omega (arith, total))) in
    let (s'', e', v'', k') = puts-kept strs s' v' (omega (arith, total, w, ap length whole)) in
    (s'', rw e e', v'', k' ∙ rw (k, whole) (append_assoc (kept s) str (joined strs)))

-- A line that fits between `lowLevel` and `headLevel`.
abbrev pub IsShort : List (List ℕ) → Type 0
IsShort line = length (joined line) ≤ head_level - low_level

-- Lines of up to 253 bytes each, written as any number of texts to a valid stream whose index is
-- below `lowLevel`, are never lost: nothing faults, and what the callback was given and what is in
-- the buffer are, in order, what was kept before and every line with its end.
pub write_lines-printed :
    (lines : List (List (List ℕ))) (s : LogStream)
    → IsValid s.buf
    → s.buf.write_index < low_level
    → All IsShort lines
    → (s' : LogStream) × (write_lines lines s ≡ ok s')
      × IsValid s'.buf
      × (kept s' ≡ kept s ++ printed lines)
unfolding write_lines
write_lines-printed [] s v low short = (s, refl, v, sym (append-nil (kept s)))
write_lines-printed (line ∷ lines) s v low (fits, short) =
    let (s1, e1, v1, k1) = puts-kept line s v (omega arith) in
    let (s2, e2, v2, k2, low2) = end-kept s1 v1 in
    let (s3, e3, v3, k3) = write_lines-printed lines s2 v2 low2 short in
    let one : kept s2 ≡ kept s ++ (joined line ++ (13 ∷ 10 ∷ [])) =
      k2 ∙ rw k1 (append_assoc (kept s) (joined line) (13 ∷ 10 ∷ [])) in
    (
      s3,
      rw (e1, e2) e3,
      v3,
      k3 ∙ rw one (append_assoc (kept s) (joined line ++ (13 ∷ 10 ∷ [])) (printed lines)),
    )
