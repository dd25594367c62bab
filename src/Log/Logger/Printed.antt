-- ===== src/Log/Logger/Printed.antt =====
-- What statements print: one line each, whole and in order.
use fish_rpc.Prelude.{
  if◌then◌else◌, Bool-cases, length, drop, replicate, All, length-append, ℕ, ◌/◌, ◌^◌, ◌≤◌, ◌<◌,
  ◌≡◌, refl, sym, ap, ◌∙◌, inl, inr, List, [], ◌∷◌, ◌++◌, map, append-nil, append_assoc, arith,
}
use fish_rpc.Prelude.Outcome.{ok, >>=-eq-ok}
use fish_rpc.Prelude.Int.{ℤ, InRange}
use fish_rpc.Base.TimePoint.{Tm, time_of_day}
use fish_rpc.Base.TimePoint.Texts.{IsTimeOfDay, to_log_string-padded}
use fish_rpc.Log.Buffer.{LogStream, low_level}
use fish_rpc.Log.Buffer.Flow.{IsValid, kept, end-kept}
use fish_rpc.Log.Buffer.Lines.{puts, joined, puts-kept}
use fish_rpc.Log.Logger.{Logger, is_enabled, get_tid, receive, log, logs}
use fish_rpc.Log.Logger.Names.{
  fixed, length-fixed, deal_log_str-fixed, c_str-fixed, find_file_name-base,
}
use fish_rpc.Log.Logger.Statements.{
  Site, statement, IsLoggable, IsReady, front, write_front-puts, length-front, puts-append,
  joined-append, length-buffer,
}

module _ (gmtime_r : ℕ → Tm) (days : (t : ℕ) → IsTimeOfDay (gmtime_r t)) where
  -- The texts that a statement writes before its message, on the thread `tid`.
  abbrev pub front_of : ℤ → Site → List (List ℕ)
  front_of tid site =
      front (time_of_day gmtime_r (site.time / 1000) ++ replicate 49 0) tid (fixed site.base)
        site.line (fixed site.fun)

  length-front_of :
      (tid : ℤ) (site : Site)
      → InRange (2 ^ 31) tid
      → InRange (2 ^ 31) site.line
      → length (joined (front_of tid site)) ≤ 148
  length-front_of tid site few small =
      let text = time_of_day gmtime_r (site.time / 1000) in
      let size = (to_log_string-padded gmtime_r site.time (days _)).1 in
      let stamp : length (text ++ replicate 49 0) ≡ 64 =
        omega (arith, size, length-append text (replicate 49 0)) in
      length-front (text ++ replicate 49 0) (fixed site.base) (fixed site.fun) tid site.line stamp
        (length-fixed site.base) (length-fixed site.fun) few small

  receive-front :
      (site : Site) (l : Logger) (s : LogStream)
      → IsLoggable site
      → IsReady l
      → puts (front_of l.thread_tid site) l.stream ≡ ok s
      → (l' : Logger) × (receive gmtime_r (statement site) l ≡ ok l')
        × (l'.stream ≡ s)
        × (l'.thread_tid ≡ l.thread_tid)
        × IsReady l'
  unfolding receive get_tid
  receive-front site l s h r written =
      let (slash, found, base) = find_file_name-base site.directory site.base h.one_name in
      let file = deal_log_str-fixed site.base l.file_n (omega (arith, r.file_sized)) in
      let fun = deal_log_str-fixed site.fun l.fun_n (omega (arith, r.fun_sized)) in
      let stamp = (to_log_string-padded gmtime_r site.time (days _)).0 in
      let text = time_of_day gmtime_r (site.time / 1000) in
      let wrote =
        write_front-puts (text ++ replicate 49 0) (fixed site.base) (fixed site.fun) l.thread_tid
          site.line l.stream r.few_threads h.few_lines in
      (
        record {
          stream = s;
          file_n = fixed site.base ++ (0 ∷ drop 16 l.file_n);
          fun_n = fixed site.fun ++ (0 ∷ drop 16 l.fun_n);
          thread_tid = l.thread_tid;
        },
        rw
            (
              found,
              base,
              file,
              fun,
              stamp,
              r.has_id,
              c_str-fixed site.base (drop 16 l.file_n) h.solid_base,
              c_str-fixed site.fun (drop 16 l.fun_n) h.solid_fun,
              wrote,
              written,
            )
            refl,
        refl,
        refl,
        record {
          file_sized = length-buffer site.base l.file_n r.file_sized;
          fun_sized = length-buffer site.fun l.fun_n r.fun_sized;
          few_threads = r.few_threads;
          has_id = r.has_id;
        },
      )

  -- The line that a statement should print, with its end, where its level is enabled.
  abbrev pub line_of : ℤ → Site → List ℕ
  line_of tid site =
      if is_enabled site.level
      then joined (front_of tid site) ++ joined site.message ++ (13 ∷ 10 ∷ [])
      else []

  log-line :
      (site : Site) (l : Logger)
      → IsLoggable site
      → IsReady l
      → IsValid l.stream.buf
      → l.stream.buf.write_index < low_level
      → (l' : Logger) × (log gmtime_r (statement site) l ≡ ok l')
        × IsReady l'
        × IsValid l'.stream.buf
        × (l'.stream.buf.write_index < low_level)
        × (l'.thread_tid ≡ l.thread_tid)
        × (kept l'.stream ≡ kept l.stream ++ line_of l.thread_tid site)
  unfolding log
  log-line site l h r v low = elim (Bool-cases (is_enabled site.level)) [
    | inr off ↦ (l, rw off refl, r, v, low, refl, rw off (sym (append-nil (kept l.stream))))
    | inl on ↦
        let before = front_of l.thread_tid site in
        let both = joined-append before site.message in
        let (s1, e1, v1, k1) = puts-kept (before ++ site.message) l.stream v (
          omega (
            arith,
            ap length both,
            length-append (joined before) (joined site.message),
            length-front_of l.thread_tid site r.few_threads h.few_lines,
            h.short,
          )) in
        let (s0, first, second) =
          >>=-eq-ok (puts before l.stream) (puts site.message)
            (sym (puts-append before site.message l.stream) ∙ e1) in
        let (l0, received, same, id, ready) = receive-front site l s0 h r first in
        let (s2, e2, v2, k2, low2) = end-kept s1 v1 in
        (
          record l0 { stream = s2 },
          rw (on, received, same, second, e2) refl,
          record {
            file_sized = ready.file_sized;
            fun_sized = ready.fun_sized;
            few_threads = ready.few_threads;
            has_id = ready.has_id;
          },
          v2,
          low2,
          id,
          rw on (
              k2
              ∙ rw (k1, both)
                  (append_assoc (kept l.stream) (joined before ++ joined site.message)
                    (13 ∷ 10 ∷ []))),
        )
  ]

  abbrev pub lines_of : ℤ → List Site → List ℕ
  lines_of tid [] = []
  lines_of tid (site ∷ sites) = line_of tid site ++ lines_of tid sites

  -- Where `gmtime_r` gives a time of day, on a thread whose name buffers were resized and that has
  -- its id, with a valid stream whose index is below `lowLevel`: statements in files whose path has
  -- a '/', with names without zero bytes, line numbers that are ints and messages of at most 105
  -- bytes never fault and lose nothing; what the callback was given and what is in the buffer are,
  -- in order, what was kept before and one line for each statement of an enabled level: its time,
  -- thread, file name and function at a width of 15, line number, the label 'Debug: ' whatever the
  -- level, its message and a line's end.
  pub logs-lines :
      (sites : List Site) (l : Logger)
      → All IsLoggable sites
      → IsReady l
      → IsValid l.stream.buf
      → l.stream.buf.write_index < low_level
      → (l' : Logger) × (logs gmtime_r (map statement sites) l ≡ ok l')
        × (kept l'.stream ≡ kept l.stream ++ lines_of l.thread_tid sites)
  unfolding logs
  logs-lines [] l h r v low = (l, refl, sym (append-nil (kept l.stream)))
  logs-lines (site ∷ sites) l (h, hs) r v low =
      let (l1, e1, r1, v1, low1, id, k1) = log-line site l h r v low in
      let (l2, e2, k2) = logs-lines sites l1 hs r1 v1 low1 in
      (
        l2,
        rw e1 e2,
        k2
            ∙ rw (k1, id)
                (append_assoc (kept l.stream) (line_of l.thread_tid site)
                  (lines_of l.thread_tid sites)),
      )
