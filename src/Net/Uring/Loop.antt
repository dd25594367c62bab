-- ===== src/Net/Uring/Loop.antt =====
-- source/net/uring_io.cpp: the turns of the loop over the completions of the kernel, and the
-- coroutines that they resume.
use fish_rpc.Prelude.{
  ltb, leb, ◌==◌, if◌then◌else◌, length, get_elem?, take, drop, ℕ, zero, suc, ◌+◌, ◌-◌, ◌^◌, Bool,
  true, false, ◌&&◌, not, none, some, List, [], ◌∷◌, ◌++◌,
}
use fish_rpc.Prelude.Outcome.{Outcome, ok, Fault, ◌>>=◌, ◌>>◌, check}
use fish_rpc.Prelude.Int.{ℤ, pos, ltb_ℤ, to_word}
use fish_rpc.Net.Buffer
use fish_rpc.Net.Buffer.{Buffer, copy_in}
use fish_rpc.Net.Uring
use fish_rpc.Net.Uring.{
  Uring, Channel, UringRequest, Region, TaskOption, add_write_request, add_read_request, channel_of,
  put_channel, sends, on_write, free_memory,
}

-- A completion: which of the submitted requests it is of, and what the kernel says.
pub record Completion : Type 0 where
  pub index : ℕ
  pub res : ℤ
  pub no_error : Bool
  pub bytes : List ℕ

unfoldable pub remove_at : {A : Type 0} → ℕ → List A → List A
remove_at i [] = []
remove_at zero (x ∷ xs) = xs
remove_at (suc i) (x ∷ xs) = x ∷ remove_at i xs

-- The loop of `beginRecv` over the sockets that it took from the queue.
unfoldable pub submit_recv : List ℕ → Uring → Outcome Uring
unfolding channel_of
submit_recv [] u = ok u
submit_recv (fd ∷ fds) u = do
  c ← channel_of fd u
  check (c.fd == fd) Fault.assert_failed
  let request : UringRequest = record {
    event_type = TaskOption.read;
    client_socket = fd;
    region = free_memory c;
  }
  submit_recv fds (record u { submitted = u.submitted ++ (request ∷ []) })

unfoldable pub submit_send : List (ℕ × Region) → Uring → Outcome Uring
unfolding channel_of
submit_send [] u = ok u
submit_send ((fd, region) ∷ requests) u = do
  c ← channel_of fd u
  let request : UringRequest = record {
    event_type = TaskOption.write;
    client_socket = fd;
    region = region;
  }
  submit_send requests (record u { submitted = u.submitted ++ (request ∷ []) })

-- `beginRecv`: as many requests as there are free ones are taken from the front of the queue.
unfoldable pub begin_recv : Uring → Outcome Uring
unfolding submit_recv
begin_recv u =
    let size = length u.recv_que in
    if size == 0
    then ok u
    else if leb size u.free_num
    then submit_recv u.recv_que (record u { free_num = u.free_num - size; recv_que = [] })
    else submit_recv (take u.free_num u.recv_que)
        (record u { free_num = 0; recv_que = drop u.free_num u.recv_que })

-- `beginSend`.
unfoldable pub begin_send : Uring → Outcome Uring
unfolding submit_send
begin_send u =
    let size = length u.send_que in
    if size == 0
    then ok u
    else if leb size u.free_num
    then submit_send u.send_que (record u { free_num = u.free_num - size; send_que = [] })
    else submit_send (take u.free_num u.send_que)
        (record u { free_num = 0; send_que = drop u.free_num u.send_que })

-- `read_call_back` is the server's: from the connection, its read buffer and the server's state it
-- makes the texts that it sends, the buffer and the state.
module _ {S : Type 0} (read_call_back : ℕ → Buffer → S → Outcome (List (List ℕ) × Buffer × S)) where
  -- `coroutineFun`, from one `co_await` to the next. If it closes its own channel at once, it is
  -- destroyed while it runs; else it ends.
  unfoldable pub resume : ℕ → Uring → S → Outcome (Uring × S)
  unfolding channel_of put_channel sends add_read_request
  resume fd u s = do
    c ← channel_of fd u
    check c.running Fault.use_after_free
    if length (Buffer.dis_read c.read_buf) == 0
        then (do
          check (ltb 0 c.send_flag) Fault.use_after_free
          ok (put_channel fd (record c { close_flag = true; running = false }) u, s))
        else do
          (texts, b, s') ← read_call_back fd c.read_buf s
          u' ← sends fd texts (put_channel fd (record c { read_buf = b }) u)
          ok (add_read_request fd u', s')

  -- The `READ` branch of `eventLoop`. The kernel has put `bytes` into the free memory of the read
  -- buffer; `res` is its result, `no_error` says that `errno` is 0.
  unfoldable pub on_read : ℕ → ℤ → Bool → List ℕ → Uring → S → Outcome (Uring × S)
  unfolding channel_of put_channel Uring.close resume
  on_read fd res no_error bytes u s = do
    c ← channel_of fd u
    if not (ltb_ℤ (pos 0) res) && no_error
        then (do u' ← Uring.close fd u; ok (record u' { free_num = u'.free_num + 1 }, s))
        else do
          buf' ← copy_in bytes c.read_buf.write_index c.read_buf.buf
          b ← Buffer.already (to_word (2 ^ 64) res) (record c.read_buf { buf = buf' })
          (u', s') ← resume fd (put_channel fd (record c { read_buf = b }) u) s
          ok (record u' { free_num = u'.free_num + 1 }, s')

  -- What the loop over the completions does by the type of a request.
  unfoldable pub handle : TaskOption → ℕ → Completion → Uring → S → Outcome (Uring × S)
  unfolding on_read on_write
  handle TaskOption.read fd c u s = on_read fd c.res c.no_error c.bytes u s
  handle TaskOption.write fd c u s = do u' ← on_write fd c.res u; ok (u', s)

  -- One turn of that loop.
  unfoldable pub complete : Completion → Uring → S → Outcome (Uring × S)
  unfolding handle
  complete c u s = elim (get_elem? u.submitted c.index) [
    | none ↦ ok (u, s)
    | some request ↦
        handle request.event_type request.client_socket c
          (record u { submitted = remove_at c.index u.submitted }) s
  ]

  unfoldable pub completes : List Completion → Uring → S → Outcome (Uring × S)
  unfolding complete
  completes [] u s = ok (u, s)
  completes (c ∷ cs) u s = do (u', s') ← complete c u s; completes cs u' s'

  -- `eventLoop`.
  unfoldable pub event_loop : List Completion → Uring → S → Outcome (Uring × S)
  unfolding completes begin_recv begin_send
  event_loop cs u s = do
    (u', s') ← completes cs u s
    received ← begin_recv u'
    sent ← begin_send received
    ok (sent, s')
