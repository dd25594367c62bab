-- ===== src/Log/Buffer/Tests.antt =====
-- Fish/base/log/log_buffer.h and log_stream.h with a small array.
use fish_rpc.Prelude.{replicate, ◌≡◌, refl, [], ◌∷◌}
use fish_rpc.Prelude.Outcome.{ok, fault, Fault}
use fish_rpc.Log.Buffer.{LogStream, put}

abbrev small : LogStream
small = record { buf = record { bytes = replicate 4 0; write_index = 1 }; handed = [] }

hi :
    put (104 ∷ 105 ∷ []) small
    ≡ ok (record { buf = record { bytes = 0 ∷ 104 ∷ 105 ∷ 0 ∷ []; write_index = 3 }; handed = [] })
unfolding put
hi = refl

-- What is longer than the array, and short enough for `headLevel`, is written past its end.
too_long : put (replicate 4 7) small ≡ fault Fault.out_of_bounds
unfolding put
too_long = refl
