-- ===== src/Net/Uring.antt =====
-- Fish/net/channel.h, source/net/channel.cpp, Fish/net/uring_io.h, source/net/uring_io.cpp and the
-- awaiter of source/net/framework.cpp: the connections of a server, and the requests that are
-- queued, submitted to the kernel and completed. The kernel and the server's callback are
-- parameters. A channel is known by its file descriptor.
pub mod Loop
pub mod Queues
pub mod Quiet
pub mod Requests
pub mod Bounded
pub mod Sending
pub mod Unending
mod Tests
use fish_rpc.Prelude.{
  ltb, ◌==◌, if◌then◌else◌, length, ℕ, ◌+◌, ◌-◌, ◌%◌, ◌^◌, Bool, true, false, ◌&&◌, none, some,
  List, [], ◌∷◌, ◌++◌,
}
use fish_rpc.Prelude.Outcome.{Outcome, ok, fault, Fault, ◌>>=◌, ◌>>◌, check}
use fish_rpc.Prelude.Int.{ℤ}
use fish_rpc.Prelude.Assoc.{lookup, insert, erase}
use fish_rpc.Net.Buffer
use fish_rpc.Net.Buffer.{Buffer, copy_in}

-- Memory that a request names: in the send buffer or the read buffer of its channel.
pub record Region : Type 0 where
  pub in_send : Bool
  pub offset : ℕ
  pub size : ℕ

-- `task_option`, but for `invalid`.
pub data TaskOption : Type 0 where
  read write : TaskOption

pub record UringRequest : Type 0 where
  pub event_type : TaskOption
  pub client_socket : ℕ
  pub region : Region

-- `running`: its coroutine has not ended.
pub record Channel : Type 0 where
  pub read_buf : Buffer
  pub send_buf : Buffer
  pub send_flag : ℕ
  pub close_flag : Bool
  pub fd : ℕ
  pub running : Bool

-- `submitted` are the requests that the kernel has; `closed` are the sockets closed so far.
pub record Uring : Type 0 where
  pub recv_que : List ℕ
  pub send_que : List (ℕ × Region)
  pub connections : List (ℕ × Channel)
  pub free_num : ℕ
  pub queue_size : ℕ
  pub submitted : List UringRequest
  pub closed : List ℕ

-- The constructor, for a queue that is not empty.
unfoldable pub construct : ℕ → Uring
construct queue_size = record {
  recv_que = [];
  send_que = [];
  connections = [];
  free_num = queue_size - 1;
  queue_size = queue_size;
  submitted = [];
  closed = [];
}

-- A size that is passed as an int: what it is as a size again.
unfoldable pub as_int : ℕ → ℕ
as_int size = let low = size % 2 ^ 32 in if ltb low (2 ^ 31) then low else low + 2 ^ 64 - 2 ^ 32

-- The queue holds the size as an int; here it is the size that `io_uring_prep_send` gets of that.
unfoldable pub add_write_request : ℕ → Region → Uring → Uring
unfolding as_int
add_write_request fd region u = record u {
  send_que = u.send_que ++ ((fd, record region { size = as_int region.size }) ∷ []);
}

unfoldable pub add_read_request : ℕ → Uring → Uring
add_read_request fd u = record u { recv_que = u.recv_que ++ (fd ∷ []) }

-- `find`, and the assertion that it finds.
unfoldable pub channel_of : ℕ → Uring → Outcome Channel
channel_of fd u = elim (lookup fd u.connections) [
  | none ↦ fault Fault.assert_failed
  | some c ↦ ok c
]

-- The channel of `fd` after a change of it.
unfoldable pub put_channel : ℕ → Channel → Uring → Uring
put_channel fd c u = record u { connections = insert fd c u.connections }

-- The constructor of `Channel`, with a coroutine that is not there yet.
unfoldable pub new_channel : ℕ → ℕ → Channel
new_channel fd buf_size = record {
  read_buf = Buffer.create buf_size;
  send_buf = Buffer.create buf_size;
  send_flag = 0;
  close_flag = false;
  fd = fd;
  running = true;
}

-- `addNewFd`. The coroutine runs to its first `co_await`, whose `await_suspend` asks for a read.
unfoldable pub add_new_fd : ℕ → Uring → Outcome Uring
unfolding add_read_request put_channel new_channel
add_new_fd fd u = elim (lookup fd u.connections) [
  | some c ↦ fault Fault.assert_failed
  | none ↦ ok (add_read_request fd (put_channel fd (new_channel fd 1024) u))
]

-- `removeFd`.
unfoldable pub remove_fd : ℕ → Uring → Outcome Uring
unfolding channel_of
remove_fd fd u = do
  c ← channel_of fd u
  ok (record u { connections = erase fd u.connections; closed = u.closed ++ (fd ∷ []) })

-- `Channel::close`, called from outside of the coroutine. The callback of a close is the server's
-- and does nothing.
unfoldable pub close : ℕ → Uring → Outcome Uring
unfolding channel_of put_channel remove_fd
close fd u = do
  c ← channel_of fd u
  if ltb 0 c.send_flag
      then ok (put_channel fd (record c { close_flag = true }) u)
      else do check c.running Fault.use_after_free; remove_fd fd u

-- What `disRead` shows of a buffer, as memory.
abbrev pub unsent : Channel → Region
unsent c = record {
  in_send = true;
  offset = c.send_buf.read_index;
  size = length (Buffer.dis_read c.send_buf);
}

-- `Channel::send`.
unfoldable pub send : ℕ → List ℕ → Uring → Outcome Uring
unfolding channel_of put_channel add_write_request
send fd view u = do
  c ← channel_of fd u
  if c.close_flag then ok u else do
    b ← Buffer.input view c.send_buf
    let c' = record c { send_buf = b }
    ok (
        put_channel fd (record c' { send_flag = c'.send_flag + 1 })
          (add_write_request fd (unsent c') u))

-- `Channel::reduseSend`.
unfoldable pub reduse_send : ℕ → Uring → Outcome Uring
unfolding channel_of put_channel close
reduse_send fd u = do
  c ← channel_of fd u
  check (ltb 0 c.send_flag) Fault.assert_failed
  let c' = record c { send_flag = c.send_flag - 1 }
  let u' = put_channel fd c' u
  if c'.send_flag == 0 && c'.close_flag then close fd u' else ok u'

-- What `dispWriteBuf` shows: the free memory of the read buffer.
abbrev pub free_memory : Channel → Region
free_memory c = record {
  in_send = false;
  offset = c.read_buf.write_index;
  size = Buffer.dis_write_size c.read_buf;
}

-- The `WRITE` branch of `eventLoop`.
unfoldable pub on_write : ℕ → ℤ → Uring → Outcome Uring
unfolding channel_of put_channel add_write_request reduse_send
on_write fd res u = do
  c ← channel_of fd u
  b ← Buffer.erase_data res c.send_buf
  let c' = record c { send_buf = b }
  let u' = put_channel fd c' u
  if ltb 0 (free_memory c').size
      then ok (add_write_request fd (free_memory c') u')
      else do u'' ← reduse_send fd u'; ok (record u'' { free_num = u''.free_num + 1 })

unfoldable pub sends : ℕ → List (List ℕ) → Uring → Outcome Uring
unfolding send
sends fd [] u = ok u
sends fd (view ∷ views) u = do u' ← send fd view u; sends fd views u'
