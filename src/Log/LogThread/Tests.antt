-- ===== src/Log/LogThread/Tests.antt =====
-- Log/LogThread at a fresh logger and at one with two buffers that are ready.
use fish_rpc.Prelude.{replicate, length-replicate, ℕ, ◌≡◌, refl, false, none, [], ◌∷◌, ◌++◌, arith}
use fish_rpc.Prelude.Outcome.{ok, fault, Fault}
use fish_rpc.Log.LogThread.Entity.{init}
use fish_rpc.Log.LogThread.{
  LogThread, Block, buf_size, construct, append_locked, append_message, log_loop,
}
use fish_rpc.Log.LogThread.Steps.{construct-IsValid}
use fish_rpc.Log.LogThread.Blocks.{IsValid, waiting}
use fish_rpc.Log.LogThread.Appending.{append_message-waiting}
use fish_rpc.Log.LogThread.Turns.{log_loop-reverses}

append_message-waiting_example :
    (l' : LogThread) × (append_locked (1 ∷ 2 ∷ []) construct ≡ ok (false, l'))
    × (append_message (1 ∷ 2 ∷ []) construct ≡ ok l')
    × IsValid l'
    × (waiting l' ≡ waiting construct ++ (1 ∷ 2 ∷ []))
unfolding construct
append_message-waiting_example = append_message-waiting (1 ∷ 2 ∷ []) construct-IsValid (omega arith)

abbrev block : ℕ → ℕ → Block
block byte n = (replicate buf_size byte, n)

abbrev two_ready : LogThread
two_ready = record {
  current_buf = replicate buf_size 0;
  current_buf_index = 0;
  pre_buf = record { que = replicate buf_size 0 ∷ replicate buf_size 0 ∷ []; max_size = 5 };
  ready_buf = block 7 1 ∷ block 8 2 ∷ [];
  buf_to_write = [];
  log_file = [];
  reload_mes = false;
  write_mes = 0;
}

two_ready-IsValid : IsValid two_ready
two_ready-IsValid =
    let e = length-replicate {A = ℕ} buf_size 0 in
    record {
      sized = e;
      inside = omega arith;
      spare = (e, (e, tt));
      ready = (
        (length-replicate {A = ℕ} buf_size 7, omega arith),
        ((length-replicate {A = ℕ} buf_size 8, omega arith), tt),
      );
      to_write = tt;
      bound = refl;
      kept = refl;
    }

log_loop-reverses_example :
    (l' : LogThread) × (log_loop none two_ready ≡ ok l')
    × IsValid l'
    × (l'.ready_buf ≡ [])
    × (l'.buf_to_write ≡ [])
    × (l'.log_file ≡ 8 ∷ 8 ∷ 7 ∷ [])
    × (7 ∷ 8 ∷ 8 ∷ waiting l' ≡ 7 ∷ 8 ∷ 8 ∷ [])
log_loop-reverses_example = log_loop-reverses two_ready-IsValid refl

no_config : init none none ≡ fault Fault.null_pointer
unfolding init
no_config = refl
