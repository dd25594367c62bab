-- ===== src/Base/LocalMessage/Parsed.antt =====
-- The lines of a printed configuration, read one after the other.
use fish_rpc.Prelude.{
  leb, ◌==◌, length, All, length-append, ℕ, zero, suc, ◌+◌, ◌≤◌, ◌<◌, ◌≡◌, refl, ap, true, false,
  none, List, [], ◌∷◌, ◌++◌, append_assoc, arith,
}
use fish_rpc.Prelude.Outcome.{ok}
use fish_rpc.Base.FileRead.{FileRead, PathEntry, read_line}
use fish_rpc.Base.LocalMessage.{
  LocalMassage, ConfMap, assign, split_line, value_of, add_line, read_lines, construct, config_read,
  value_or,
}
use fish_rpc.Base.LocalMessage.Printed.{
  line_of, printed, IsEntry, IsEnd, last_value, assign_all, find-assign_all, at, read_line-ended,
  read_line-broken_off,
}

split_line-key :
    (key rest : List ℕ)
    → All (λ c. (c == 58) ≡ false) key
    → split_line (key ++ (58 ∷ rest)) ≡ (key, 58 ∷ rest)
unfolding split_line
split_line-key [] rest h = refl
split_line-key (c ∷ cs) rest (p, h) = rw (p, split_line-key cs rest h) refl

add_line-entry :
    (key value : List ℕ) (m : ConfMap)
    → All (λ c. (c == 58) ≡ false) key
    → add_line (line_of (key, value)) m ≡ ok (assign key value m)
unfolding add_line value_of
add_line-entry key value m h =
    let fits : leb 2 (length (58 ∷ 32 ∷ value)) ≡ true = ground arith in
    rw (split_line-key key (32 ∷ value) h, fits) refl

not_empty : (key value : List ℕ) → (length (line_of (key, value)) == 0) ≡ false
not_empty key value = ground (arith, length-append key (58 ∷ 32 ∷ value))

read_lines-end :
    (n : ℕ) (f : FileRead) (m : ConfMap) (ending : List ℕ)
    → IsEnd ending
    → (f' : FileRead) × (read_lines (suc n) (at f ending) m ≡ ok (f', m))
unfolding read_lines
read_lines-end n f m ending (IsEnd.empty_line more) =
    let e : read_line (at f (10 ∷ more)) ≡ (true, [], at f more) =
      read_line-ended f [] more (tt, omega arith) tt in
    (at f more, rw e refl)
read_lines-end n f m ending (IsEnd.broken_off line h) =
    let (mes, f', e) = read_line-broken_off f line h in (f', rw e refl)

read_lines-printed :
    (n : ℕ) (entries : List (List ℕ × List ℕ)) (f : FileRead) (m : ConfMap) (ending : List ℕ)
    → All IsEntry entries
    → IsEnd ending
    → length entries < n
    → (f' : FileRead) × (read_lines n (at f (printed entries ++ ending)) m
        ≡ ok (f', assign_all entries m))
unfolding read_lines
read_lines-printed zero entries f m ending h end l = absurd (omega arith)
read_lines-printed (suc n) [] f m ending h end l = read_lines-end n f m ending end
read_lines-printed (suc n) ((k, v) ∷ entries) f m ending ((key, line, solid), h) end l =
    let (f', e) = read_lines-printed n entries f (assign k v m) ending h end (omega arith) in
    let text : printed ((k, v) ∷ entries) ++ ending
        ≡ line_of (k, v) ++ (10 ∷ (printed entries ++ ending)) =
      append_assoc (line_of (k, v)) (10 ∷ printed entries) ending in
    (
      f',
      rw
          (
            text,
            read_line-ended f (line_of (k, v)) (printed entries ++ ending) line solid,
            not_empty k v,
            add_line-entry k v m key,
          )
          e,
    )

length-printed : (entries : List (List ℕ × List ℕ)) → length entries ≤ length (printed entries)
length-printed [] = omega arith
length-printed ((k, v) ∷ entries) =
    omega (arith, length-printed entries, length-append (line_of (k, v)) (10 ∷ printed entries))

-- A file that can be read.
abbrev pub readable : List ℕ → PathEntry
readable content = record {
  exists = true;
  is_regular_file = true;
  can_open = true;
  content = content;
}

-- For a file that can be read and that holds lines "key: value" of at most 1023 bytes, with keys
-- without a colon, no zero bytes and no line ends inside, and behind them an empty line with
-- anything after it, or at most one line of at most 1023 bytes without an end: the configuration is
-- read without a fault, and `configRead` gives the last value of a key among these lines, and an
-- empty text for every other key.
pub construct-printed :
    (entries : List (List ℕ × List ℕ)) (ending config_file : List ℕ)
    → All IsEntry entries
    → IsEnd ending
    → (l : LocalMassage) × (construct (readable (printed entries ++ ending)) config_file ≡ ok l)
      × ((key : List ℕ) → config_read key l ≡ value_or (last_value key entries none))
unfolding construct config_read
construct-printed entries ending config_file h end =
    let text = printed entries ++ ending in
    let f : FileRead = record {
      size = length text;
      is_open = true;
      file = record { rest = text; eof = false; fail = false };
      path = config_file;
    } in
    let enough : length entries < length text + 1 =
      omega (arith, length-printed entries, length-append (printed entries) ending) in
    let (f', e) = read_lines-printed (length text + 1) entries f [] ending h end enough in
    (
      record { file = f'; config_file = config_file; conf_map = assign_all entries [] },
      rw e refl,
      λ key. ap value_or (find-assign_all key entries []),
    )
