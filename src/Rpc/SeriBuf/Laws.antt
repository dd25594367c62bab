-- ===== src/Rpc/SeriBuf/Laws.antt =====
-- The reads of source/rpc/serialize_buf.cpp against its writes.
use native.Mathlib.Decide.{dec_le}
use fish_rpc.Prelude.{
  ℕ, ◌*◌, ◌^◌, ◌≤◌, ◌<◌, ◌≡◌, refl, sym, ◌∙◌, List, [], ◌∷◌, ◌++◌, arith, length, take, drop, leb,
  ltb, true, false, length-append, take-append_length, drop-append_length, append-nil, drop_all,
  min, ◌↔◌, ◌≢◌, length-take, take-append-drop, length-drop, append_assoc,
}
use fish_rpc.Prelude.Int.{ℤ, to_word, InRange, signed-to_word, to_word-lt, InRange-pos}
use fish_rpc.Prelude.Outcome.{Outcome, ok, fault, Fault}
use fish_rpc.Prelude.Bytes.{to_bytes, from_bytes-to_bytes, length-to_bytes}
use fish_rpc.Rpc.SeriBuf.{
  SeriBuf, clip, output, output_word, output_signed, input_string, output_string, empty,
}

-- Bytes at the front that fill the destination are moved there whole.
pub output-append :
    (dst xs rest : List ℕ) (n : ℕ)
    → n ≡ length xs
    → length dst ≡ n
    → output dst n (record { buf = xs ++ rest }) ≡ ok (xs, record { buf = rest })
unfolding output
output-append dst xs rest n e d = rw (
  fits,
  room,
  take-append_length n xs rest e,
  drop-append_length n xs rest e,
  drop_all n dst (omega arith),
  append-nil,
)
  where
    fits : ltb (length (xs ++ rest)) n ≡ false
    fits = ground (arith, length-append xs rest)

    room : leb n (length dst) ≡ true
    room = ground arith

-- A word of w bytes at the front is read back, whatever the local variable held.
pub output_word-to_bytes :
    (w n junk : ℕ) (rest : List ℕ)
    → n < 256 ^ w
    → output_word w junk (record { buf = to_bytes w n ++ rest }) ≡ ok (n, record { buf = rest })
unfolding output_word
output_word-to_bytes w n junk rest h = rw (
  output-append (to_bytes w junk) (to_bytes w n) rest w (sym (length-to_bytes w n))
      (length-to_bytes w junk),
  from_bytes-to_bytes w n h,
)

pub output_signed-to_bytes :
    (w half junk : ℕ) (z : ℤ) (rest : List ℕ)
    → 256 ^ w ≡ 2 * half
    → InRange half z
    → output_signed w half junk (record { buf = to_bytes w (to_word (256 ^ w) z) ++ rest })
      ≡ ok (z, record { buf = rest })
output_signed-to_bytes w half junk z rest e h = rw (
  output_word-to_bytes w (to_word (256 ^ w) z) junk rest (to_word-lt (256 ^ w) z pow_pos),
  e,
  signed-to_word half z h,
)
  where
    pow_pos : 0 < 256 ^ w
    pow_pos = omega (arith, e, InRange-pos half z h)

pub clip-eq-min : (len size : ℕ) → clip len size ≡ min len size
unfolding clip
clip-eq-min len size = ground arith

module _ (dst : List ℕ) (len : ℕ) (b : SeriBuf) where
  taken : ℕ
  taken = min len (length b.buf)

  after_read : Outcome (List ℕ × SeriBuf)
  after_read = ok (take taken b.buf ++ drop taken dst, record b { buf = drop taken b.buf })

  output_fits : taken ≤ length dst → output dst len b ≡ after_read
  unfolding output taken after_read
  output_fits h = ground (arith, clip-eq-min len (length b.buf))

  output_spills : length dst < taken → output dst len b ≡ fault Fault.out_of_bounds
  unfolding output taken
  output_spills h = ground (arith, clip-eq-min len (length b.buf))

fifo_facts :
    (n : ℕ) (dst buf : List ℕ)
    → n ≤ length dst
    → n ≤ length buf
    → let d = take n buf ++ drop n dst in
      (take n d ++ drop n buf ≡ buf) × (drop n d ≡ drop n dst) × (length d ≡ length dst)
fifo_facts n dst buf h k =
    let e : n ≡ length (take n buf) = omega (arith, length-take n buf) in
    (
      rw (take-append_length n (take n buf) (drop n dst) e) (take-append-drop n buf),
      drop-append_length n (take n buf) (drop n dst) e,
      omega (arith, length-append (take n buf) (drop n dst), length-take n buf, length-drop n dst),
    )

-- A read of the serialisation buffer that does not fault hands over the oldest bytes in order, as
-- many as were asked for or as there are, drops exactly those, and leaves the rest of the
-- destination alone.
pub output_fifo :
    (dst : List ℕ) (len : ℕ) (b : SeriBuf) {dst' : List ℕ} {b' : SeriBuf}
    → output dst len b ≡ ok (dst', b')
    → (take (min len (length b.buf)) dst' ++ b'.buf ≡ b.buf)
      × (drop (min len (length b.buf)) dst' ≡ drop (min len (length b.buf)) dst)
      × (length dst' ≡ length dst)
unfolding taken after_read
output_fifo dst len b {dst'} {b'} e = elim (dec_le (taken dst len b) (length dst)) [
  | yes h ↦
      let r : after_read dst len b ≡ ok (dst', b') = sym (output_fits dst len b h) ∙ e in
      let d : dst' ≡ take (taken dst len b) b.buf ++ drop (taken dst len b) dst = cc r in
      let q : b' ≡ record b { buf = drop (taken dst len b) b.buf } = cc r in
      rw (d, q) (fifo_facts (taken dst len b) dst b.buf h (omega arith))
  | no h ↦ cc (output_spills dst len b (omega arith))
]

-- A read of the serialisation buffer faults exactly when the bytes that it takes do not fit into
-- the destination.
pub output_overflow :
    (dst : List ℕ) (len : ℕ) (b : SeriBuf)
    → (output dst len b ≡ fault Fault.out_of_bounds) ↔ (length dst < min len (length b.buf))
unfolding taken after_read
output_overflow dst len b = (
  λ e. elim (dec_le (taken dst len b) (length dst)) [
    | yes h ↦ cc (output_fits dst len b h)
    | no h ↦ omega arith
  ],
  output_spills dst len b,
)

-- A text that is not empty, with a size that a `size_t` holds, cannot be read back: `output_string`
-- writes its bytes behind the end of an empty string, whatever was written after the text.
pub output_string-input_string :
    (value rest : List ℕ) (junk : ℕ)
    → value ≢ []
    → length value < 256 ^ 8
    → output_string junk (record { buf = (input_string value empty).buf ++ rest })
      ≡ fault Fault.out_of_bounds
unfolding input_string empty output_string
output_string-input_string [] rest junk ne h = absurd (ne refl)
output_string-input_string (c ∷ cs) rest junk ne h = rw (
  append_assoc (to_bytes 8 (length (c ∷ cs))) (c ∷ cs) rest,
  output_word-to_bytes 8 (length (c ∷ cs)) junk (c ∷ cs ++ rest) h,
  (output_overflow [] (length (c ∷ cs)) (record { buf = c ∷ cs ++ rest })).1 (omega arith),
)
