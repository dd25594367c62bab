-- ===== src/Log/LogFile/Tests.antt =====
-- Log/LogFile where every call writes at most two bytes.
use fish_rpc.Prelude.{
  take, refl, ℕ, ◌≤◌, min, ◌≡◌, inl, Bool, true, List, false, some, [], ◌∷◌, arith,
}
use fish_rpc.Prelude.Outcome.{ok}
use fish_rpc.Log.LogFile.{LogFile, Answers, max_size_pre_file, write_message}
use fish_rpc.Log.LogFile.Writing.{Advances, NoError, all_bytes, write_message-ends}

abbrev two_at_once : Answers
two_at_once i remain = (min remain 2, false)

two_at_once-Advances : Advances two_at_once
two_at_once-Advances i remain h = (omega arith, inl (omega arith))

abbrev opens : List ℕ → Bool
opens name = true

abbrev first_file : LogFile
first_file = record {
  write_bytes = 1;
  file_count = 2;
  name = 95 ∷ 49 ∷ [];
  content = 6 ∷ [];
  closed = [];
}

write_message-ends_example :
    (l' : LogFile) × (written : ℕ) × (write_message two_at_once opens [] 3
        (7 ∷ 8 ∷ 9 ∷ [])
        first_file
      ≡ some (ok l'))
    × (all_bytes l' ≡ 6 ∷ take written (7 ∷ 8 ∷ 9 ∷ []))
    × (NoError two_at_once → take {A = ℕ} written (7 ∷ 8 ∷ 9 ∷ []) ≡ 7 ∷ 8 ∷ 9 ∷ [])
    × (l'.write_bytes ≤ max_size_pre_file)
write_message-ends_example =
    write_message-ends two_at_once opens [] (7 ∷ 8 ∷ 9 ∷ []) first_file two_at_once-Advances
      (λ name. refl) (omega arith)
