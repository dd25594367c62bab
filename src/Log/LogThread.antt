-- ===== src/Log/LogThread.antt =====
-- Fish/base/log/log_thread.h and source/base/log/log_thread.cpp: the buffers that the threads of the
-- program write into and one thread of the logger writes to the log file. A step is what runs under
-- the lock, or the writing of one buffer; texts are shorter than 2 ^ 31 bytes.
pub mod Blocks
pub mod Appending
pub mod Steps
pub mod Turns
pub mod Entity
mod Tests
use fish_rpc.Prelude.{
  leb, ◌==◌, if◌then◌else◌, length, take, replicate, ℕ, zero, suc, ◌+◌, ◌-◌, Bool, true, false, not,
  Option, none, some, List, [], ◌∷◌, ◌++◌,
}
use fish_rpc.Prelude.Outcome.{Outcome, ok, fault, Fault, ◌>>=◌, ◌>>◌, check}
use fish_rpc.Prelude.Int.{ℤ, pos, ◌-ℤ◌, ltb_ℤ}
use fish_rpc.Base.SafeQueue
use fish_rpc.Base.SafeQueue.{MyQueue, pop_back, try_pop, push}
use fish_rpc.Net.Buffer.{copy_in}

abbrev pub buf_size : ℕ
buf_size = 102400

abbrev pub buf_num : ℕ
buf_num = 5

-- "LOG FATAL: buf over flow!\n", with the zero behind it.
abbrev pub over_flow_mes : List ℕ
over_flow_mes =
    76 ∷ 79 ∷ 71 ∷ 32 ∷ 70 ∷ 65 ∷ 84 ∷ 65 ∷ 76 ∷ 58 ∷ 32 ∷ 98 ∷ 117 ∷ 102 ∷ 32 ∷ 111 ∷ 118 ∷ 101
    ∷ 114 ∷ 32 ∷ 102 ∷ 108 ∷ 111 ∷ 119 ∷ 33 ∷ 10 ∷ 0 ∷ []

-- `sizeof(overFlowMes)`, the size of a pointer.
abbrev pub size_of_mes : ℕ
size_of_mes = 8

-- A buffer with the number of its bytes in use.
abbrev pub Block : Type 0
Block = List ℕ × ℕ

-- `log_file` has the bytes that were handed to `LogFile::writeMessage`.
pub record LogThread : Type 0 where
  pub current_buf : List ℕ
  pub current_buf_index : ℕ
  pub pre_buf : MyQueue (List ℕ)
  pub ready_buf : List Block
  pub buf_to_write : List Block
  pub log_file : List ℕ
  pub reload_mes : Bool
  pub write_mes : ℕ

-- The loop of the constructor.
unfoldable pub fill : ℕ → MyQueue (List ℕ) → MyQueue (List ℕ)
fill zero q = q
fill (suc n) q = fill n (push (replicate buf_size 0) q).1

unfoldable pub construct : LogThread
unfolding fill
construct = record {
  current_buf = replicate buf_size 0;
  current_buf_index = 0;
  pre_buf = fill (buf_num - 1) (SafeQueue.construct buf_num);
  ready_buf = [];
  buf_to_write = [];
  log_file = [];
  reload_mes = false;
  write_mes = 0;
}

unfoldable pub free_size : LogThread → ℤ
free_size l = pos buf_size -ℤ pos l.current_buf_index

-- The two branches of `changeBuf`, with the queue that `try_pop` leaves.
unfoldable pub change_to : Option (List ℕ) → MyQueue (List ℕ) → LogThread → Outcome LogThread
unfolding copy_in
change_to (some buf) pre_buf l = ok (record l {
  current_buf = buf;
  current_buf_index = 0;
  pre_buf = pre_buf;
  ready_buf = l.ready_buf ++ ((l.current_buf, l.current_buf_index) ∷ []);
})
change_to none pre_buf l = do
  bytes ← copy_in over_flow_mes 0 l.current_buf
  ok (record l {
    current_buf = bytes;
    current_buf_index = size_of_mes;
    pre_buf = pre_buf;
    reload_mes = true;
  })

unfoldable pub change_buf : LogThread → Outcome LogThread
unfolding try_pop change_to
change_buf l = change_to (try_pop l.pre_buf).0 (try_pop l.pre_buf).1 l

-- `apendMessage` up to its first `unlock`: whether the buffer was changed, and the logger.
unfoldable pub append_locked : List ℕ → LogThread → Outcome (Bool × LogThread)
unfolding free_size change_buf copy_in
append_locked message l = do
  check (not (ltb_ℤ (free_size l) (pos 0))) Fault.assert_failed
  let flag = ltb_ℤ (free_size l) (pos (length message))
  l' ← if flag then change_buf l else ok l
  bytes ← copy_in message l'.current_buf_index l'.current_buf
  ok (
    flag,
    record l' { current_buf = bytes; current_buf_index = l'.current_buf_index + length message },
  )

-- `apendMessage`. After a change of the buffer it unlocks `mut_` by hand, and the guard unlocks it
-- once more at its end, which is undefined for a mutex that the thread does not hold.
unfoldable pub append_message : List ℕ → LogThread → Outcome LogThread
unfolding append_locked
append_message message l = do
  (flag, l') ← append_locked message l
  check (not flag) Fault.not_the_owner
  ok l'

-- What `logLoop` does under the lock: it waits where no buffer is ready, and else takes them all.
unfoldable pub take_ready : LogThread → Outcome (Bool × LogThread)
take_ready l = if length l.ready_buf == 0 then ok (false, l) else do
  check (length l.buf_to_write == 0) Fault.assert_failed
  ok (true, record l { buf_to_write = l.ready_buf; ready_buf = l.buf_to_write })

-- One pass of the loop in `flushToFile`.
unfoldable pub flush_one : LogThread → Outcome LogThread
unfolding pop_back push
flush_one l = elim (pop_back l.buf_to_write) [
  | none ↦ fault Fault.out_of_bounds
  | some (front, (bytes, used)) ↦ do
    check (leb used (length bytes)) Fault.out_of_bounds
    ok (record l {
      buf_to_write = front;
      log_file = l.log_file ++ take used bytes;
      write_mes = l.write_mes + used;
      pre_buf = (push bytes l.pre_buf).1;
    })
]

unfoldable pub flush_loop : ℕ → LogThread → Outcome LogThread
unfolding flush_one
flush_loop zero l = ok l
flush_loop (suc n) l = do l' ← flush_one l; flush_loop n l'

unfoldable pub flush_to_file : LogThread → Outcome LogThread
unfolding flush_loop
flush_to_file l = flush_loop (length l.buf_to_write) (record l { write_mes = 0 })

-- `writeLogMes`, by the text that it prints.
unfoldable pub write_log_mes : List ℕ → LogThread → Outcome LogThread
unfolding append_message
write_log_mes text l = append_message text (record l { reload_mes = false })

-- A turn of `logLoop` that no other thread interrupts. `printed` is the text of `writeLogMes`, where
-- the configuration asks for it.
unfoldable pub log_loop : Option (List ℕ) → LogThread → Outcome LogThread
unfolding take_ready flush_to_file write_log_mes
log_loop printed l = do
  (some_ready, l') ← take_ready l
  if some_ready
      then (do
        check (leb (length l'.buf_to_write) 5) Fault.assert_failed
        written ← flush_to_file l'
        elim printed [ none ↦ ok written | some text ↦ write_log_mes text written ])
      else ok l'
