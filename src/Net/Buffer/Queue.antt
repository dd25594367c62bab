-- ===== src/Net/Buffer/Queue.antt =====
-- The buffer of source/net/buffer.cpp as a queue of bytes: what each operation does to the bytes
-- that can be read, and when it fails.
use fish_rpc.Prelude.{
  length, take, drop, replicate, length-append, length-take, length-drop, length-replicate,
  take-append_length, drop_all, drop-append_le, drop-drop, drop-take, ℕ, ◌+◌, ◌-◌, ◌^◌, ◌≤◌, ◌<◌,
  ◌≡◌, sym, ◌∙◌, List, ◌++◌, arith,
}
use fish_rpc.Prelude.Outcome.{ok, fault, Fault}
use fish_rpc.Prelude.Int.{pos}
use native.Mathlib.Decide.{ℕ_discrete}
use fish_rpc.Net.Buffer.{
  Buffer, slice, copy_in, grow, room, input, dis_read, dis_write_size, erase_data, already, receive,
}

pub record IsValid (b : Buffer) : Type 0 where
  pub ordered : b.read_index ≤ b.write_index
  pub inside : b.write_index ≤ length b.buf
  pub small : length b.buf < 2 ^ 31

pub length-dis_read : {b : Buffer} → IsValid b → length (dis_read b) ≡ b.write_index - b.read_index
unfolding dis_read slice
length-dis_read {b} v = omega (
  arith,
  length-take (b.write_index - b.read_index) (drop b.read_index b.buf),
  length-drop b.read_index b.buf,
)

-- Bytes that are written at the end of a slice extend it.
slice-copy :
    {A : Type 0} (i j : ℕ) (view buf : List A)
    → i ≤ j
    → j + length view ≤ length buf
    → slice i (j + length view) (take j buf ++ view ++ drop (j + length view) buf)
      ≡ slice i j buf ++ view
unfolding slice
slice-copy {A} i j view buf h k =
    let front : List A = take j buf ++ view in
    let size : length front ≡ j + length view =
      omega (arith, length-append (take j buf) view, length-take j buf) in
    rw (
      drop-append_le i front (drop (j + length view) buf) (omega arith),
      take-append_length (j + length view - i) (drop i front) (drop (j + length view) buf)
          (omega (arith, length-drop i front)),
      drop-append_le i (take j buf) view (omega (arith, length-take j buf)),
      drop-take i j buf,
    )

length-copied :
    {A : Type 0} (j : ℕ) (view buf : List A)
    → j + length view ≤ length buf
    → length (take j buf ++ view ++ drop (j + length view) buf) ≡ length buf
length-copied j view buf h = omega (
  arith,
  length-append (take j buf ++ view) (drop (j + length view) buf),
  length-append (take j buf) view,
  length-take j buf,
  length-drop (j + length view) buf,
)

-- The buffer with the bytes put behind its write index.
abbrev pub filled : List ℕ → Buffer → Buffer
filled view b = record b {
  buf = take b.write_index b.buf ++ view ++ drop (b.write_index + length view) b.buf;
  write_index = b.write_index + length view;
}

abbrev pub Fits : List ℕ → Buffer → Type 0
Fits view b = b.write_index + length view ≤ length b.buf

pub filled-IsValid :
    (view : List ℕ) {b : Buffer} → IsValid b → Fits view b → IsValid (filled view b)
filled-IsValid view {b} v h =
    let e = length-copied b.write_index view b.buf h in
    record { ordered = omega arith; inside = omega arith; small = omega arith }

pub dis_read-filled :
    (view : List ℕ) {b : Buffer}
    → IsValid b
    → Fits view b
    → dis_read (filled view b) ≡ dis_read b ++ view
unfolding dis_read
dis_read-filled view {b} v h = slice-copy b.read_index b.write_index view b.buf v.ordered h

-- The free bytes behind the write index.
abbrev pub free : Buffer → ℕ
free b = length b.buf - b.write_index

pub input-filled :
    (view : List ℕ) {b : Buffer}
    → IsValid b
    → length view ≤ free b
    → input view b ≡ ok (filled view b)
unfolding input room copy_in
input-filled view {b} v h = ground arith

pub free-filled :
    (view : List ℕ) (b : Buffer) → Fits view b → free (filled view b) ≡ free b - length view
free-filled view b h = omega (arith, length-copied b.write_index view b.buf h)

-- In a valid buffer, a view that fits behind the write index is appended to what can be read, and
-- the buffer stays valid.
pub input-appends :
    (view : List ℕ) {b : Buffer}
    → IsValid b
    → length view ≤ free b
    → (b' : Buffer) × (input view b ≡ ok b') × IsValid b' × (dis_read b' ≡ dis_read b ++ view)
unfolding input room copy_in
input-appends view {b} v h = (
  filled view b,
  ground arith,
  filled-IsValid view v (omega arith),
  dis_read-filled view v (omega arith),
)

length-slice : {A : Type 0} (i j : ℕ) (xs : List A) → j ≤ length xs → length (slice i j xs) ≡ j - i
unfolding slice
length-slice i j xs h = omega (arith, length-take (j - i) (drop i xs), length-drop i xs)

-- In a valid buffer, a view that does not fit behind the write index is never stored: `input`
-- copies it behind the end of the vector that it has grown.
pub input-overflows :
    (view : List ℕ) {b : Buffer}
    → IsValid b
    → free b < length view
    → input view b ≡ fault Fault.out_of_bounds
unfolding input room copy_in grow
input-overflows view {b} v h = ground (
  arith,
  length-append (slice b.read_index b.write_index b.buf) (replicate (length view) 0),
  length-replicate {A = ℕ} (length view) 0,
)

-- In a valid buffer that is not filled to its last byte, bytes that the kernel put into the view of
-- `disWrite` are appended to what can be read, and the assertion of `already` holds; the buffer
-- stays valid and not filled to its last byte.
pub receive-appends :
    (bytes : List ℕ) {b : Buffer}
    → IsValid b
    → b.write_index < length b.buf
    → length bytes ≤ dis_write_size b
    → (b' : Buffer) × (receive bytes b ≡ ok b')
      × IsValid b'
      × (dis_read b' ≡ dis_read b ++ bytes)
      × (b'.write_index < length b'.buf)
unfolding receive copy_in already dis_write_size room
receive-appends bytes {b} v h k =
    let e = length-copied b.write_index bytes b.buf (omega arith) in
    (
      filled bytes b,
      ground arith,
      filled-IsValid bytes v (omega arith),
      dis_read-filled bytes v (omega arith),
      omega arith,
    )

-- Of a valid buffer filled to its last byte `disWrite` claims 2 ^ 64 - 1 free bytes.
pub dis_write_size-full :
    {b : Buffer} → IsValid b → b.write_index ≡ length b.buf → dis_write_size b ≡ 2 ^ 64 - 1
unfolding dis_write_size room
dis_write_size-full v e = ground arith

drop-slice : {A : Type 0} (n i j : ℕ) (xs : List A) → drop n (slice i j xs) ≡ slice (i + n) j xs
unfolding slice
drop-slice n i j xs =
    let e : j - i - n ≡ j - (i + n) = omega arith in
    drop-take n (j - i) (drop i xs) ∙ rw (drop-drop n i xs, e)

-- In a valid buffer with at least `n` bytes to read, `eraseData` drops the first `n` of them, and
-- the buffer stays valid.
pub erase_data-drops :
    (n : ℕ) {b : Buffer}
    → IsValid b
    → n ≤ length (dis_read b)
    → (b' : Buffer) × (erase_data (pos n) b ≡ ok b')
      × IsValid b'
      × (dis_read b' ≡ drop n (dis_read b))
unfolding erase_data dis_read slice
erase_data-drops n {b} v h = elim (ℕ_discrete (b.read_index + n) b.write_index) [
  | yes e ↦ (
    record b { read_index = 0; write_index = 0 },
    ground (arith, length-dis_read v),
    omega arith,
    sym (drop_all n (dis_read b) (omega (arith, length-dis_read v))),
  )
  | no e ↦ (
    record b { read_index = b.read_index + n },
    ground (arith, length-dis_read v),
    omega (arith, length-dis_read v),
    sym (drop-slice n b.read_index b.write_index b.buf),
  )
]

-- In a valid buffer with fewer than `n` bytes to read, the assertion of `eraseData` fails on `n`.
pub erase_data-asserts :
    (n : ℕ) {b : Buffer}
    → IsValid b
    → length (dis_read b) < n
    → erase_data (pos n) b ≡ fault Fault.assert_failed
unfolding erase_data
erase_data-asserts n {b} v h = ground (arith, length-dis_read v)
