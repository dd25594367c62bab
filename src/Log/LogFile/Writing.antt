-- ===== src/Log/LogFile/Writing.antt =====
-- Log/LogFile: the writing of a message ends, and what it leaves in the files.
use fish_rpc.Prelude.{
  Bool, ltb, ◌==◌, ==→eq, Bool-cases, length, take, take_all, ℕ, zero, suc, ◌+◌, ◌-◌, ◌^◌, ◌≤◌, ◌<◌,
  ◌≡◌, refl, sym, ap, ◌∙◌, ◌⊎◌, inl, inr, true, false, ◌||◌, not, some, List, [], ◌∷◌, ◌++◌,
  append-nil, append_assoc, arith,
}
use fish_rpc.Prelude.Outcome.{ok}
use fish_rpc.Log.LogFile.{
  LogFile, Answers, max_size_pre_file, next_name, change_file, write_loop, after_write,
  write_message,
}
use fish_rpc.Log.Decimal.Digits.{get_num-read_num}

-- A call for some bytes writes no more than these, and it writes some or reports an error.
abbrev pub Advances : Answers → Type 0
Advances answers =
    (i remain : ℕ)
    → 0 < remain
    → ((answers i remain).0 ≤ remain) × ((0 < (answers i remain).0) ⊎ ((answers i remain).1 ≡ true))

abbrev pub NoError : Answers → Type 0
NoError answers = (i remain : ℕ) → (answers i remain).1 ≡ false

-- The bytes of all files, in the order in which they were written.
abbrev joined : List (List ℕ × List ℕ) → List ℕ
joined [] = []
joined (file ∷ files) = file.1 ++ joined files

abbrev pub all_bytes : LogFile → List ℕ
all_bytes l = joined l.closed ++ l.content

joined-append :
    (files : List (List ℕ × List ℕ)) (name content : List ℕ)
    → joined (files ++ ((name, content) ∷ [])) ≡ joined files ++ content
joined-append [] name content = append-nil content
joined-append (file ∷ files) name content =
    ap (λ t. file.1 ++ t) (joined-append files name content)
    ∙ sym (append_assoc file.1 (joined files) content)

write_loop-ends :
    (answers : Answers) (passes i len written : ℕ)
    → Advances answers
    → written ≤ len
    → len ≤ written + passes
    → (total : ℕ) × (in_file : ℕ) × (write_loop answers passes i len written
        ≡ some (total, in_file))
      × (total ≤ in_file)
      × (in_file ≤ len)
      × (NoError answers → total ≡ len)
unfolding write_loop
write_loop-ends answers zero i len written adv le enough =
    let done : written == len ≡ true = ground arith in
    (written, written, rw done refl, omega arith, le, λ fine. omega arith)
write_loop-ends answers (suc passes) i len written adv le enough =
    elim (Bool-cases (written == len)) [
      | inl done ↦ (written, written, rw done refl, omega arith, le, λ fine. ==→eq written len done)
      | inr more ↦
          let some_left : 0 < len - written = grind (arith, more) in
          let (fits, moves) = adv i (len - written) some_left in
          elim (Bool-cases
            ((answers i (len - written)).0 == len - written || not (answers i (len - written)).1)) [
              | inl goes_on ↦
                  let n = (answers i (len - written)).0 in
                  let advances : 0 < n = elim moves [
                    | inl p ↦ p
                    | inr err ↦ ground (arith, goes_on, err, some_left)
                  ] in
                  let (total, in_file, e, more_there, within, whole) =
                    write_loop-ends answers passes (i + 1) len (written + n) adv (omega arith)
                      (omega arith) in
                  (total, in_file, rw (more, goes_on) e, more_there, within, whole)
              | inr fails ↦ (
                written,
                written + (answers i (len - written)).0,
                rw (more, fails) refl,
                omega arith,
                omega (arith, fits, some_left),
                λ fine. absurd (ground (arith, fails, fine i (len - written))),
              )
            ]
    ]

-- The number of a file is one that its name has room for.
next_name-ok :
    (time : List ℕ) (file_count : ℕ)
    → file_count < 2 ^ 31
    → (name : List ℕ) × (next_name time file_count ≡ ok name)
unfolding next_name
next_name-ok time file_count small =
    let (num, e, read, short) = get_num-read_num file_count small in (time ++ num, rw e refl)

after_write-bytes :
    (fopen : List ℕ → Bool) (time message : List ℕ) (written in_file : ℕ) (l : LogFile)
    → ((name : List ℕ) → fopen name ≡ true)
    → l.file_count < 2 ^ 31
    → (l' : LogFile) × (after_write fopen time message (written, in_file) l ≡ ok l')
      × (all_bytes l' ≡ all_bytes l ++ take in_file message)
      × (l'.write_bytes ≤ max_size_pre_file)
unfolding after_write change_file
after_write-bytes fopen time message written in_file l opens small =
    elim (Bool-cases (ltb max_size_pre_file (l.write_bytes + written))) [
      | inr room ↦ (
        record l {
          write_bytes = l.write_bytes + written;
          content = l.content ++ take in_file message;
        },
        rw room refl,
        sym (append_assoc (joined l.closed) l.content (take in_file message)),
        ground (arith, room),
      )
      | inl full ↦
          let (name, e) = next_name-ok time l.file_count small in
          (
            record {
              write_bytes = 0;
              file_count = l.file_count + 1;
              name = name;
              content = [];
              closed = l.closed ++ ((l.name, l.content ++ take in_file message) ∷ []);
            },
            rw (full, e, opens name) refl,
            append-nil _
                ∙ joined-append l.closed l.name (l.content ++ take in_file message)
                ∙ sym (append_assoc (joined l.closed) l.content (take in_file message)),
            omega arith,
          )
    ]

-- Where each call of `fwrite` for some bytes writes at most these, and writes some or reports an
-- error, where `fopen` opens every file, and where the file count is below 2 ^ 31: `writeMessage`
-- ends within as many passes of its loop as the message has bytes, and faults nowhere; the files,
-- the closed ones first, have got a front of the message behind what they had, all of it if there
-- is no error, and the open one counts at most 104857600 bytes.
pub write_message-ends :
    (answers : Answers) (fopen : List ℕ → Bool) (time message : List ℕ) (l : LogFile)
    → Advances answers
    → ((name : List ℕ) → fopen name ≡ true)
    → l.file_count < 2 ^ 31
    → (l' : LogFile) × (written : ℕ) × (write_message answers fopen time (length message) message l
        ≡ some (ok l'))
      × (all_bytes l' ≡ all_bytes l ++ take written message)
      × (NoError answers → take written message ≡ message)
      × (l'.write_bytes ≤ max_size_pre_file)
unfolding write_message
write_message-ends answers fopen time message l adv opens small =
    let (written, in_file, e, more_there, within, whole) =
      write_loop-ends answers (length message) 0 (length message) 0 adv (omega arith)
        (omega arith) in
    let (l', f, bytes, bound) =
      after_write-bytes fopen time message written in_file l opens small in
    (
      l',
      in_file,
      rw e (ap some f),
      bytes,
      (λ fine. take_all in_file message (omega (arith, whole fine, more_there))),
      bound,
    )
