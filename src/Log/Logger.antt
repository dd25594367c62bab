-- ===== src/Log/Logger.antt =====
-- Fish/base/log/logger.h and source/base/log/logger.cpp: the front of every line of the log, and the
-- macros that write one. `gmtime_r` is a parameter. The two buffers for names belong to a thread, as
-- does its id, `getTid` of Fish/base/local_message.h.
pub mod Names
pub mod Statements
pub mod Printed
mod Tests
use fish_rpc.Prelude.{
  ltb, leb, ◌==◌, if◌then◌else◌, length, take, drop, replicate, ℕ, suc, ◌+◌, ◌-◌, min, Bool, false,
  Option, none, some, List, [], ◌∷◌, ◌++◌,
}
use fish_rpc.Prelude.Outcome.{Outcome, ok, fault, Fault, ◌>>=◌, ◌>>◌}
use fish_rpc.Prelude.Int.{ℤ, pos, eq_ℤ}
use fish_rpc.Net.Buffer.{copy_in}
use fish_rpc.Net.TcpAddr.{c_str}
use fish_rpc.Base.TimePoint.{Tm, to_log_string}
use fish_rpc.Log.Buffer
use fish_rpc.Log.Buffer.{LogStream, put, end}
use fish_rpc.Log.Buffer.Lines.{puts}
use fish_rpc.Log.Decimal.{put_number}

pub data LogLevel : Type 0 where
  info debug fatal http : LogLevel

-- `logLevel`.
abbrev pub log_level : LogLevel
log_level = LogLevel.debug

-- The numbers that the levels are compared by.
abbrev pub level_number : LogLevel → ℕ
level_number LogLevel.info = 0
level_number LogLevel.debug = 1
level_number LogLevel.fatal = 2
level_number LogLevel.http = 3

abbrev pub enable_http_debug : Bool
enable_http_debug = false

-- The test of the macro of a level.
abbrev pub is_enabled : LogLevel → Bool
is_enabled LogLevel.http = enable_http_debug
is_enabled LogLevel.info = leb (level_number log_level) (level_number LogLevel.info)
is_enabled LogLevel.debug = leb (level_number log_level) (level_number LogLevel.debug)
is_enabled LogLevel.fatal = leb (level_number log_level) (level_number LogLevel.fatal)

-- "Info: ", "Debug: ", "Fatal: ", "HTTP: "
abbrev pub level_text : LogLevel → List ℕ
level_text LogLevel.info = 73 ∷ 110 ∷ 102 ∷ 111 ∷ 58 ∷ 32 ∷ []
level_text LogLevel.debug = 68 ∷ 101 ∷ 98 ∷ 117 ∷ 103 ∷ 58 ∷ 32 ∷ []
level_text LogLevel.fatal = 70 ∷ 97 ∷ 116 ∷ 97 ∷ 108 ∷ 58 ∷ 32 ∷ []
level_text LogLevel.http = 72 ∷ 84 ∷ 84 ∷ 80 ∷ 58 ∷ 32 ∷ []

-- `levelToStr`, which asks `logLevel` and not the level of the macro.
abbrev pub level_to_str : List ℕ
level_to_str = level_text log_level

-- `strrchr` of a '/'.
unfoldable pub last_slash : List ℕ → Option ℕ
last_slash [] = none
last_slash (c ∷ cs) = elim (last_slash cs) [
  | some i ↦ some (suc i)
  | none ↦ if c == 47 then some 0 else none
]

-- `findFileName`.
unfoldable pub find_file_name : List ℕ → Outcome ℕ
unfolding last_slash
find_file_name file_name = elim (last_slash file_name) [
  | none ↦ fault Fault.assert_failed
  | some slash ↦ ok (slash + 1)
]

abbrev pub max_name_size : ℕ
max_name_size = 25

-- The two copies of `dealLogStr`: of the text, and of the spaces behind it.
unfoldable pub fill_name : ℕ → List ℕ → List ℕ → Outcome (List ℕ)
unfolding copy_in
fill_name max_size str buf = do
  let size = min (length str) max_size
  copied ← copy_in (take size str) 0 buf
  if ltb size max_size then copy_in (replicate (max_size - size) 32) size copied else ok copied

-- `dealLogStr`, with the size that `receive` leaves to it. A text is without the zero at its end.
unfoldable pub deal_log_str : List ℕ → List ℕ → Outcome (List ℕ)
unfolding fill_name
deal_log_str str buf = do
  let max_size = min 15 (max_name_size - 1)
  filled ← fill_name max_size str buf
  copy_in (0 ∷ []) max_size filled

-- `thread_tid` is 0 until the id was asked for; `tid` is what the system says.
unfoldable pub get_tid : ℤ → ℤ → ℤ
get_tid thread_tid tid = if eq_ℤ thread_tid (pos 0) then tid else thread_tid

-- A logger, and what belongs to the thread that uses it.
pub record Logger : Type 0 where
  pub stream : LogStream
  pub file_n : List ℕ
  pub fun_n : List ℕ
  pub thread_tid : ℤ

-- `resizeBuf`, for buffers that are empty or were resized before.
unfoldable pub resize_buf : Logger → Logger
resize_buf l = record l {
  file_n = take max_name_size (l.file_n ++ replicate max_name_size 0);
  fun_n = take max_name_size (l.fun_n ++ replicate max_name_size 0);
}

-- Where a macro stands, and what it writes: `time` and `tid` are the system's answers.
pub record Statement : Type 0 where
  pub level : LogLevel
  pub time : ℕ
  pub tid : ℤ
  pub file : List ℕ
  pub line : ℤ
  pub fun : List ℕ
  pub message : List (List ℕ)

-- The chain of `<<` in `receive`.
unfoldable pub write_front : List ℕ → ℤ → List ℕ → ℤ → List ℕ → LogStream → Outcome LogStream
unfolding put put_number
write_front stamp tid file_n line fun_n s = do
  s ← put stamp s
  s ← put (9 ∷ []) s
  s ← put_number tid s
  s ← put (9 ∷ []) s
  s ← put file_n s
  s ← put (9 ∷ []) s
  s ← put_number line s
  s ← put (9 ∷ []) s
  s ← put fun_n s
  s ← put (9 ∷ []) s
  s ← put level_to_str s
  ok s

module _ (gmtime_r : ℕ → Tm) where
  -- `receive`.
  unfoldable pub receive : Statement → Logger → Outcome Logger
  unfolding find_file_name deal_log_str to_log_string get_tid c_str write_front
  receive st l = do
    slash ← find_file_name st.file
    file_n ← deal_log_str (drop slash st.file) l.file_n
    fun_n ← deal_log_str st.fun l.fun_n
    stamp ← to_log_string gmtime_r st.time
    let tid = get_tid l.thread_tid st.tid
    stream ← write_front stamp tid (c_str file_n) st.line (c_str fun_n) l.stream
    ok (record { stream = stream; file_n = file_n; fun_n = fun_n; thread_tid = tid })

  -- `LOG_… << message << Fish::end`.
  unfoldable pub log : Statement → Logger → Outcome Logger
  unfolding receive puts Buffer.end
  log st l =
      if is_enabled st.level
      then (do
        l' ← receive st l
        s ← puts st.message l'.stream
        s' ← Buffer.end s
        ok (record l' { stream = s' }))
      else ok l

  unfoldable pub logs : List Statement → Logger → Outcome Logger
  unfolding log
  logs [] l = ok l
  logs (st ∷ sts) l = do l' ← log st l; logs sts l'
