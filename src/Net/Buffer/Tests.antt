-- ===== src/Net/Buffer/Tests.antt =====
-- Fish/net/buffer.h and source/net/buffer.cpp at concrete buffers.
use fish_rpc.Prelude.{◌≡◌, [], ◌∷◌, ◌++◌, arith}
use fish_rpc.Prelude.Outcome.{ok, fault, Fault}
use fish_rpc.Net.Buffer
use fish_rpc.Net.Buffer.{Buffer, dis_read, dis_write_size, erase_data, receive}
use fish_rpc.Net.Buffer.Queue.{IsValid, input-appends, input-overflows}

abbrev half_full : Buffer
half_full = record { buf = 1 ∷ 2 ∷ 3 ∷ 0 ∷ 0 ∷ []; write_index = 3; read_index = 1 }

abbrev brim_full : Buffer
brim_full = record { buf = 1 ∷ 2 ∷ 3 ∷ []; write_index = 3; read_index = 1 }

half_full-IsValid : IsValid half_full
half_full-IsValid = record { ordered = omega arith; inside = omega arith; small = omega arith }

brim_full-IsValid : IsValid brim_full
brim_full-IsValid = record { ordered = omega arith; inside = omega arith; small = omega arith }

input-appends_example :
    (b' : Buffer) × (Buffer.input (8 ∷ 9 ∷ []) half_full ≡ ok b')
    × IsValid b'
    × (dis_read b' ≡ dis_read half_full ++ (8 ∷ 9 ∷ []))
input-appends_example = input-appends (8 ∷ 9 ∷ []) half_full-IsValid (omega arith)

input-overflows_example : Buffer.input (7 ∷ 8 ∷ 9 ∷ []) half_full ≡ fault Fault.out_of_bounds
input-overflows_example = input-overflows (7 ∷ 8 ∷ 9 ∷ []) half_full-IsValid (omega arith)
