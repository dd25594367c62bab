-- ===== src/Net/Server.antt =====
-- Fish/net/tcp_server.h and source/net/tcp_server.cpp: the listening socket, and the connections
-- that the server takes or makes, over Net/Uring. The calls of the system and the callbacks of the
-- server are parameters; they change a state of their own. The loop that accepts is that of
-- Base/Loop.
pub mod Accepting
pub mod Threads
mod Tests
use fish_rpc.Prelude.{
  if◌then◌else◌, ℕ, zero, suc, ◌^◌, Bool, not, Option, none, some, List, [], ◌∷◌,
}
use fish_rpc.Prelude.Outcome.{Outcome, ok, fault, Fault, ◌>>=◌, ◌>>◌, check}
use fish_rpc.Prelude.Int.{ℤ, pos, negsuc, ltb_ℤ, eq_ℤ, to_word}
use fish_rpc.Prelude.Assoc.{insert, erase}
use fish_rpc.Base.Loop
use fish_rpc.Base.Loop.{Loop, Call, Thread}
use fish_rpc.Net.TcpAddr
use fish_rpc.Net.TcpAddr.{TcpAddr, SockaddrIn, htons}
use fish_rpc.Net.Uring
use fish_rpc.Net.Uring.{Uring}

-- `socket`, `setsockopt`, `bind`, `listen`, `accept` and `connect`, and the conversions of addresses.
-- A descriptor is what the call returns.
pub record System (W : Type 0) : Type 0 where
  pub socket : W → ℤ × W
  pub setsockopt : ℕ → W → W
  pub bind : ℕ → SockaddrIn → W → ℤ × W
  pub listen : ℤ → ℕ → W → W
  pub accept : ℤ → W → ℤ × SockaddrIn × W
  pub connect : ℕ → SockaddrIn → W → ℤ × W
  pub inet_pton : List ℕ → Option ℕ
  pub inet_ntop : ℕ → List ℕ

-- The callbacks; one that was not set is `none`. `begin_call_back` is given the new channel.
pub record CallBacks (W : Type 0) : Type 0 where
  pub new_call_back : Option (ℕ → W → Outcome W)
  pub begin_call_back : Option (ℕ → Uring → W → Outcome (Uring × W))

-- `channel_addrs` are the `addr_` of the channels that have one, by descriptor; an entry may outlive
-- its channel. The only task of the loop is `listen_in_loop`.
pub record TcpServer : Type 0 where
  pub addr : TcpAddr
  pub name : List ℕ
  pub listen_fd : ℤ
  pub uring : Uring
  pub loop : Loop (Unit {0})
  pub channel_addrs : List (ℕ × TcpAddr)

-- A `sockaddr_in` by its host-order port, which is passed to `htons` as 16 bits.
unfoldable pub sockaddr : ℕ → ℤ → SockaddrIn
unfolding htons
sockaddr address port = record { sin_addr = address; sin_port = htons (to_word (2 ^ 16) port) }

-- "tcp servr loop"
abbrev pub loop_name : List ℕ
loop_name = 116 ∷ 99 ∷ 112 ∷ 32 ∷ 115 ∷ 101 ∷ 114 ∷ 118 ∷ 114 ∷ 32 ∷ 108 ∷ 111 ∷ 111 ∷ 112 ∷ []

-- A positive descriptor.
abbrev pub descriptor : ℤ → Outcome ℕ
descriptor (pos zero) = fault Fault.assert_failed
descriptor (pos (suc k)) = ok (suc k)
descriptor (negsuc k) = fault Fault.assert_failed

-- What `inet_pton` leaves in a structure of zeros.
abbrev pub written : Option ℕ → ℕ
written none = 0
written (some s) = s

module _ {W : Type 0} (system : System W) where
  -- The `sin_addr` that `createConnection` makes of an address.
  unfoldable pub address_of : TcpAddr → ℕ
  unfolding TcpAddr.c_str
  address_of addr = written (system.inet_pton (TcpAddr.c_str addr.ip))

  -- `createListenSocket`.
  unfoldable pub create_listen_socket : TcpServer → W → Outcome (TcpServer × W)
  unfolding sockaddr
  create_listen_socket server w = do
    let (opened, w1) = system.socket w
    fd ← descriptor opened
    let w2 = system.setsockopt fd w1
    let (ret, w3) = system.bind fd (sockaddr 0 server.addr.port) w2
    check (eq_ℤ ret (pos 0)) Fault.assert_failed
    ok (record server { listen_fd = opened }, w3)

  -- The constructor; the ring has its default size.
  unfoldable pub construct : TcpAddr → List ℕ → W → Outcome (TcpServer × W)
  unfolding create_listen_socket Uring.construct Loop.named
  construct addr name w =
      create_listen_socket
        (record {
          addr = addr;
          name = name;
          listen_fd = negsuc 0;
          uring = Uring.construct 1024;
          loop = Loop.named loop_name;
          channel_addrs = [];
        })
        w

  -- `begin`, up to the start of the two threads.
  unfoldable pub begin : TcpServer → W → Outcome (TcpServer × W)
  unfolding Loop.set_task
  begin server w = do
    check (not (eq_ℤ server.listen_fd (negsuc 0))) Fault.assert_failed
    let w1 = system.listen server.listen_fd 64 w
    loop ← Loop.set_task (some tt) server.loop
    ok (record server { loop = loop }, w1)

  -- `stop`.
  unfoldable pub stop : TcpServer → TcpServer
  unfolding Loop.close_loop
  stop server = record server { loop = Loop.close_loop server.loop }

  module _ (call_backs : CallBacks W) where
    -- `if (newCallBack_) newCallBack_(fd)`.
    unfoldable pub tell_new : Option (ℕ → W → Outcome W) → ℕ → W → Outcome W
    tell_new none fd w = ok w
    tell_new (some call_back) fd w = call_back fd w

    -- What follows `accept` in `listen_in_loop`.
    unfoldable pub take_client : ℤ → SockaddrIn → TcpServer → W → Outcome (TcpServer × W)
    unfolding tell_new Uring.add_new_fd TcpAddr.of_sockaddr
    take_client accepted client_addr server w = do
      fd ← descriptor accepted
      w' ← tell_new call_backs.new_call_back fd w
      uring ← Uring.add_new_fd fd server.uring
      addr ← TcpAddr.of_sockaddr system.inet_pton system.inet_ntop client_addr
      ok (record server { uring = uring; channel_addrs = insert fd addr server.channel_addrs }, w')

    -- `listen_in_loop`.
    unfoldable pub listen_in_loop : TcpServer → W → Outcome (TcpServer × W)
    unfolding take_client
    listen_in_loop server w =
        let (accepted, client_addr, w') = system.accept server.listen_fd w in
        take_client accepted client_addr server w'

    unfoldable pub tell_begin :
        Option (ℕ → Uring → W → Outcome (Uring × W)) → ℕ → Uring → W → Outcome (Uring × W)
    tell_begin none fd u w = ok (u, w)
    tell_begin (some call_back) fd u w = call_back fd u w

    -- `createConnection`. The new channel has no address.
    unfoldable pub create_connection : TcpAddr → TcpServer → W → Outcome (TcpServer × W)
    unfolding sockaddr address_of Uring.add_new_fd tell_begin
    create_connection addr server w = do
      let (opened, w1) = system.socket w
      fd ← descriptor opened
      let (ret, w2) = system.connect fd (sockaddr (address_of addr) addr.port) w1
      check (not (ltb_ℤ ret (pos 0))) Fault.assert_failed
      uring ← Uring.add_new_fd fd server.uring
      (uring', w') ← tell_begin call_backs.begin_call_back fd uring w2
      ok (record server { uring = uring'; channel_addrs = erase fd server.channel_addrs }, w')

  -- The thread that accepts: `listen_in_loop` as the task of the loop, whose state is the server
  -- and the system's. `stops` says whether another thread calls `stop` while a turn runs.
  module _ (call_backs : CallBacks W) (stops : W → Bool) where
    unfoldable pub does :
        Unit {0} → TcpServer × W → Outcome (List (Call (Unit {0})) × (TcpServer × W))
    unfolding listen_in_loop
    does tt (server, w) = do
      (server', w') ← listen_in_loop call_backs server w
      ok (if stops w' then Call.calls_close_loop ∷ [] else [], (server', w'))

    unfoldable pub accept_clients :
        ℕ → Thread → TcpServer → W → Outcome (Thread × Bool × Loop (Unit {0}) × (TcpServer × W))
    unfolding does Loop.begin_in_new_thread
    accept_clients turns t server w = Loop.begin_in_new_thread does turns t server.loop (server, w)
