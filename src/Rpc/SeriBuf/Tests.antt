-- ===== src/Rpc/SeriBuf/Tests.antt =====
-- Fish/rpc/serialize_buf.h and source/rpc/serialize_buf.cpp at concrete buffers.
use fish_rpc.Prelude.{length, drop, ℕ, ◌≡◌, refl, List, [], ◌∷◌, ◌++◌, take}
use fish_rpc.Prelude.Outcome.{ok}
use fish_rpc.Rpc.SeriBuf.{SeriBuf, output}
use fish_rpc.Rpc.SeriBuf.Laws.{output_fifo}

abbrev three : SeriBuf
three = record { buf = 1 ∷ 2 ∷ 3 ∷ [] }

abbrev left : SeriBuf
left = record { buf = 3 ∷ [] }

abbrev one_byte : List ℕ
one_byte = 9 ∷ []

abbrev after : List ℕ
after = 1 ∷ 2 ∷ 9 ∷ 9 ∷ []

abbrev memory : List ℕ
memory = 9 ∷ 9 ∷ 9 ∷ 9 ∷ []

output-three : output memory 2 three ≡ ok (after, left)
unfolding output
output-three = refl

output_fifo_example :
    (take 2 after ++ left.buf ≡ three.buf)
    × (drop 2 after ≡ drop 2 memory)
    × (length after ≡ length memory)
output_fifo_example = output_fifo memory 2 three output-three
