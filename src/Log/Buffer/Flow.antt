-- ===== src/Log/Buffer/Flow.antt =====
-- What becomes of the texts that are written to a `LogStream`.
use fish_rpc.Prelude.{
  ltb, leb, if◌then◌else◌, le→ltb_false, ltb_false→le, Bool-cases, length, take, drop,
  length-append, length-take, length-drop, take-append_length, take_all, ℕ, ◌+◌, ◌%◌, ◌^◌, ◌≤◌, ◌<◌,
  ◌≡◌, sym, ap, ◌∙◌, inl, inr, false, List, [], ◌∷◌, ◌++◌, append-nil, append_assoc, arith,
}
use fish_rpc.Prelude.Outcome.{ok}
use fish_rpc.Net.Buffer.{copy_in}
use fish_rpc.Log.Buffer.{
  buffer_size, head_level, low_level, LogBuffer, write_in, write_end, update_mes, refresh,
  LogStream, put, hand_over, end,
}

-- Between two operations a line's end still fits.
pub record IsValid (b : LogBuffer) : Type 0 where
  pub sized : length b.bytes ≡ buffer_size
  pub below : b.write_index ≤ head_level

-- Everything that was kept: what the callback was given and what is in the buffer.
abbrev pub kept : LogStream → List ℕ
kept s = s.handed ++ update_mes s.buf

-- A text as the index allows it: whole, or not at all.
abbrev pub accepted : List ℕ → LogBuffer → List ℕ
accepted str b = if ltb head_level (b.write_index + length str) then [] else str

copy_in-fits :
    (view buf : List ℕ) (at : ℕ)
    → at + length view ≤ length buf
    → (buf' : List ℕ) × (copy_in view at buf ≡ ok buf')
      × (length buf' ≡ length buf)
      × (take (at + length view) buf' ≡ take at buf ++ view)
unfolding copy_in
copy_in-fits view buf at h =
    let rest = drop (at + length view) buf in
    let e : at ≡ length (take at buf) = omega (arith, length-take at buf) in
    (
      take at buf ++ view ++ rest,
      ground arith,
      omega (
        arith,
        length-append (take at buf ++ view) rest,
        length-append (take at buf) view,
        length-drop (at + length view) buf,
        e,
      ),
      take-append_length (at + length view) (take at buf ++ view) rest
          (omega (arith, length-append (take at buf) view, e)),
    )

-- In a valid stream, a text of less than 2 ^ 31 bytes is kept whole if the index stays at most at
-- `headLevel`, and else it is dropped whole and silently; the stream stays valid, nothing is
-- written behind the array, and the index counts what was kept.
pub put-accepted :
    (str : List ℕ) (s : LogStream)
    → IsValid s.buf
    → length str < 2 ^ 31
    → (s' : LogStream) × (put str s ≡ ok s')
      × IsValid s'.buf
      × (kept s' ≡ kept s ++ accepted str s.buf)
      × (s'.buf.write_index ≡ s.buf.write_index + length (accepted str s.buf))
unfolding put write_in update_mes
put-accepted str s v small =
    rw (take_all (length str % 2 ^ 32) str (omega arith))
      (elim (Bool-cases (ltb head_level (s.buf.write_index + length str))) [
        | inl e ↦ (s, ground (arith, e), v, rw e (sym (append-nil (kept s))), rw e (omega arith))
        | inr e ↦
            let in_range : ltb head_level ((s.buf.write_index + length str) % 2 ^ 32) ≡ false =
              le→ltb_false _ _ (omega (arith, ltb_false→le _ _ e)) in
            let (bytes, q, l, t) =
              copy_in-fits str s.buf.bytes s.buf.write_index
                (omega (arith, v.sized, v.below, ltb_false→le _ _ e)) in
            (
              record s {
                buf = record { bytes = bytes; write_index = s.buf.write_index + length str };
              },
              rw (in_range, q),
              record { sized = l ∙ v.sized; below = omega (arith, ltb_false→le _ _ e) },
              ap (λ x. s.handed ++ x) t ∙ sym (append_assoc s.handed _ str) ∙ rw e,
              rw e,
            )
      ])

-- In every valid stream `end` keeps a line's end: it neither faults nor drops anything, and the
-- stream stays valid, with an index below `lowLevel`, whether or not the bytes were handed over.
pub end-kept :
    (s : LogStream)
    → IsValid s.buf
    → (s' : LogStream) × (end s ≡ ok s')
      × IsValid s'.buf
      × (kept s' ≡ kept s ++ (13 ∷ 10 ∷ []))
      × (s'.buf.write_index < low_level)
unfolding end write_end update_mes hand_over refresh
end-kept s v =
    let w = s.buf.write_index in
    let (bytes, q, l, t) =
      copy_in-fits (13 ∷ 10 ∷ []) s.buf.bytes w (omega (arith, v.sized, v.below)) in
    let all_kept = ap (λ x. s.handed ++ x) t ∙ sym (append_assoc s.handed _ (13 ∷ 10 ∷ [])) in
    elim (Bool-cases (leb low_level (w + 2))) [
      | inl e ↦ (
        record {
          buf = record { bytes = bytes; write_index = 0 };
          handed = s.handed ++ take (w + 2) bytes;
        },
        rw (q, e),
        record { sized = l ∙ v.sized; below = omega arith },
        append-nil _ ∙ all_kept,
        omega arith,
      )
      | inr e ↦ (
        record s { buf = record { bytes = bytes; write_index = w + 2 } },
        rw (q, e),
        record { sized = l ∙ v.sized; below = ground (arith, e) },
        all_kept,
        ground (arith, e),
      )
    ]
