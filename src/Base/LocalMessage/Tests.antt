-- ===== src/Base/LocalMessage/Tests.antt =====
-- Concrete configurations.
use fish_rpc.Prelude.{All, ℕ, ◌≡◌, refl, none, List, [], ◌∷◌, ◌++◌, arith}
use fish_rpc.Prelude.Outcome.{Outcome, ok, fault, Fault}
use fish_rpc.Base.FileRead.{read_line}
use fish_rpc.Base.LocalMessage.{
  LocalMassage, construct, config_read, read_lines, add_line, value_or, ConfMap,
}
use fish_rpc.Base.LocalMessage.Printed.{IsEntry, IsEnd, printed, last_value}
use fish_rpc.Base.LocalMessage.Parsed.{readable, construct-printed}

abbrev conf_of : Outcome LocalMassage → Outcome ConfMap
conf_of (ok l) = ok l.conf_map
conf_of (fault e) = fault e

-- "a: 1\nb: 2": the line that has no end is not read.
last_line_lost :
    conf_of (construct (readable (97 ∷ 58 ∷ 32 ∷ 49 ∷ 10 ∷ 98 ∷ 58 ∷ 32 ∷ 50 ∷ [])) [])
    ≡ ok ((97 ∷ [], 49 ∷ []) ∷ [])
unfolding construct read_lines read_line add_line
last_line_lost = refl

-- "ab\n": where there is no colon, the text begins two places behind the end.
no_colon : conf_of (construct (readable (97 ∷ 98 ∷ 10 ∷ [])) []) ≡ fault Fault.out_of_bounds
unfolding construct read_lines read_line add_line
no_colon = refl

-- "ip", "1", and "ip" once more, with "2".
abbrev entries : List (List ℕ × List ℕ)
entries = (105 ∷ 112 ∷ [], 49 ∷ []) ∷ (105 ∷ 112 ∷ [], 50 ∷ []) ∷ []

entries-IsEntry : All IsEntry entries
entries-IsEntry = (
  (
    (refl, (refl, tt)),
    ((refl, (refl, (refl, (refl, (refl, tt))))), omega arith),
    (refl, (refl, (refl, (refl, (refl, tt))))),
  ),
  (
    (
      (refl, (refl, tt)),
      ((refl, (refl, (refl, (refl, (refl, tt))))), omega arith),
      (refl, (refl, (refl, (refl, (refl, tt))))),
    ),
    tt,
  ),
)

construct-printed_example :
    (l : LocalMassage) × (construct (readable (printed entries ++ (10 ∷ 120 ∷ []))) [] ≡ ok l)
    × ((key : List ℕ) → config_read key l ≡ value_or (last_value key entries none))
construct-printed_example =
    construct-printed entries (10 ∷ 120 ∷ []) [] entries-IsEntry (IsEnd.empty_line (120 ∷ []))
