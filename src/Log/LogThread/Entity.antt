-- ===== src/Log/LogThread/Entity.antt =====
-- How the single logger of source/base/log/log_thread.cpp is made: `LogThread::init`, and what its
-- constructor asks the configuration.
use fish_rpc.Prelude.{ℕ, Bool, Option, none, some, List, [], ◌∷◌}
use fish_rpc.Prelude.Outcome.{Outcome, ok, fault, Fault, ◌>>=◌}
use fish_rpc.Prelude.Texts.{same_text}
use fish_rpc.Base.LocalMessage.{LocalMassage, config_read}
use fish_rpc.Log.LogThread.{LogThread, construct}

-- "print log message"
abbrev pub print_key : List ℕ
print_key =
    112 ∷ 114 ∷ 105 ∷ 110 ∷ 116 ∷ 32 ∷ 108 ∷ 111 ∷ 103 ∷ 32 ∷ 109 ∷ 101 ∷ 115 ∷ 115 ∷ 97 ∷ 103 ∷ 101
    ∷ []

-- `printMes_`. The configuration is a null pointer where it was not read before.
unfoldable pub prints : Option LocalMassage → Outcome Bool
unfolding config_read same_text
prints none = fault Fault.null_pointer
prints (some config) = ok (same_text (config_read print_key config) (121 ∷ 101 ∷ 115 ∷ []))

-- `LogThread::init`, by `entity`: the logger, and whether it prints its statistics.
unfoldable pub init : Option (LogThread × Bool) → Option LocalMassage → Outcome (LogThread × Bool)
unfolding prints construct
init (some entity) config = ok entity
init none config = do print_mes ← prints config; ok (construct, print_mes)
