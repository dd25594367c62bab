-- ===== src/Log/Logger/Tests.antt =====
-- Lines of the log on concrete statements.
use fish_rpc.Prelude.{replicate, length-replicate, ℕ, ◌≡◌, refl, [], ◌∷◌, ◌++◌, map, arith}
use fish_rpc.Prelude.Outcome.{ok, fault, Fault}
use fish_rpc.Prelude.Int.{pos}
use fish_rpc.Base.TimePoint.{Tm}
use fish_rpc.Base.TimePoint.Texts.{IsTimeOfDay}
use fish_rpc.Log.Buffer.{LogStream}
use fish_rpc.Log.Buffer.Flow.{IsValid, kept}
use fish_rpc.Log.Logger.{Logger, LogLevel, receive, logs, level_to_str, resize_buf}
use fish_rpc.Log.Logger.Statements.{Site, statement, IsLoggable, IsReady}
use fish_rpc.Log.Logger.Printed.{lines_of, logs-lines}

abbrev noon : ℕ → Tm
noon t = record { tm_year = 122; tm_mon = 0; tm_mday = 1; tm_hour = 12; tm_min = 5; tm_sec = 9 }

noon-IsTimeOfDay : (t : ℕ) → IsTimeOfDay (noon t)
noon-IsTimeOfDay t = (omega arith, omega arith, omega arith)

abbrev fresh : LogStream
fresh = record { buf = record { bytes = replicate 10240 0; write_index = 0 }; handed = [] }

fresh-IsValid : IsValid fresh.buf
fresh-IsValid = record { sized = length-replicate {A = ℕ} 10240 0; below = omega arith }

abbrev logger : Logger
logger = record {
  stream = fresh;
  file_n = replicate 25 0;
  fun_n = replicate 25 0;
  thread_tid = pos 7;
}

logger-IsReady : IsReady logger
logger-IsReady = record {
  file_sized = refl;
  fun_sized = refl;
  few_threads = omega arith;
  has_id = refl;
}

-- "src/a.cpp", line 12, in `f`.
abbrev site : LogLevel → Site
site level = record {
  directory = 115 ∷ 114 ∷ 99 ∷ [];
  base = 97 ∷ 46 ∷ 99 ∷ 112 ∷ 112 ∷ [];
  level = level;
  time = 1000042000;
  tid = pos 7;
  line = pos 12;
  fun = 102 ∷ [];
  message = (104 ∷ 105 ∷ []) ∷ [];
}

site-IsLoggable : (level : LogLevel) → IsLoggable (site level)
site-IsLoggable level = record {
  one_name = (refl, (refl, (refl, (refl, (refl, tt)))));
  solid_base = (refl, (refl, (refl, (refl, (refl, tt)))));
  solid_fun = (refl, tt);
  few_lines = omega arith;
  short = omega arith;
}

-- On a thread that did not call `resizeBuf`, the first copy is out of bounds.
not_resized :
    receive noon (statement (site LogLevel.fatal)) (record logger { file_n = []; fun_n = [] })
    ≡ fault Fault.out_of_bounds
unfolding receive
not_resized = refl

-- A fatal line is labelled "Debug: ".
fatal_label : level_to_str ≡ 68 ∷ 101 ∷ 98 ∷ 117 ∷ 103 ∷ 58 ∷ 32 ∷ []
fatal_label = refl

resized : (resize_buf (record logger { file_n = []; fun_n = [] })).file_n ≡ replicate 25 0
unfolding resize_buf
resized = refl

logs-lines_example :
    (l' : Logger) × (logs noon
        (map statement (site LogLevel.fatal ∷ site LogLevel.info ∷ []))
        logger
      ≡ ok l')
    × (kept l'.stream
        ≡ kept fresh
          ++ lines_of noon noon-IsTimeOfDay (pos 7) (site LogLevel.fatal ∷ site LogLevel.info ∷ []))
logs-lines_example =
    logs-lines noon noon-IsTimeOfDay (site LogLevel.fatal ∷ site LogLevel.info ∷ []) logger
      (site-IsLoggable LogLevel.fatal, (site-IsLoggable LogLevel.info, tt)) logger-IsReady
      fresh-IsValid (omega arith)
