-- ===== src/Net/Server/Threads.antt =====
-- The threads of a server together: the one that accepts, that of the ring, and those that connect
-- or stop the server, in any order. What they do to the ring is what Net/Uring does alone.
use fish_rpc.Prelude.{ℕ, ◌≡◌, refl, not, none, some, List}
use fish_rpc.Prelude.Outcome.{Outcome, ok, Fault}
use fish_rpc.Prelude.Int.{ℤ, negsuc, eq_ℤ}
use fish_rpc.Prelude.Outcome.{Returns, Returns->>=, Returns-check, Returns-ok, anyhow}
use fish_rpc.Base.Loop
use fish_rpc.Net.Buffer.{Buffer}
use fish_rpc.Net.TcpAddr.{TcpAddr, SockaddrIn, of_sockaddr}
use fish_rpc.Net.Uring
use fish_rpc.Net.Uring.{Uring, add_new_fd}
use fish_rpc.Net.Uring.Loop.{Completion, event_loop}
use fish_rpc.Net.Uring.Quiet
use fish_rpc.Net.Uring.Bounded
use fish_rpc.Net.Server.{
  TcpServer, System, CallBacks, descriptor, tell_new, tell_begin, take_client, listen_in_loop,
  create_connection, create_listen_socket, construct, begin, stop,
}

-- A new channel on a ring.
abbrev Joins : Uring → Uring → Type 0
Joins u v = (fd : ℕ) × (add_new_fd fd u ≡ ok v)

module _ {S : Type 0} (read_call_back : ℕ → Buffer → S → Outcome (List (List ℕ) × Buffer × S)) where
  Reach-trans :
      {x y z : Uring × S}
      → Quiet.Reach read_call_back x y
      → Quiet.Reach read_call_back y z
      → Quiet.Reach read_call_back x z
  Reach-trans r Quiet.Reach.here = r
  Reach-trans r (Quiet.Reach.next q st) = Quiet.Reach.next (Reach-trans r q) st

  Step-bounded : {x y : Uring × S} → Quiet.Step read_call_back x y → Bounded.Step read_call_back x y
  Step-bounded (Quiet.Step.loop cs e) = Bounded.Step.loop cs e
  Step-bounded (Quiet.Step.connect fd e) = Bounded.Step.connect fd e
  Step-bounded (Quiet.Step.leave fd e) = Bounded.Step.leave fd e

  -- Without texts that are sent from outside, it is the same as with any.
  pub Reach-bounded :
      {x y : Uring × S} → Quiet.Reach read_call_back x y → Bounded.Reach read_call_back x y
  Reach-bounded Quiet.Reach.here = Bounded.Reach.here
  Reach-bounded (Quiet.Reach.next r st) = Bounded.Reach.next (Reach-bounded r) (Step-bounded st)

module _ {S W : Type 0} (system : System W) (call_backs : CallBacks W)
    (read_call_back : ℕ → Buffer → S → Outcome (List (List ℕ) × Buffer × S)) where
  pub data Step : TcpServer × S × W → TcpServer × S × W → Type 0 where
    accepts :
        {server server' : TcpServer} {s : S} {w w' : W}
        → listen_in_loop system call_backs server w ≡ ok (server', w')
        → Step (server, s, w) (server', s, w')
    turns :
        {server : TcpServer} {u : Uring} {s s' : S} {w : W} (cs : List Completion)
        → event_loop read_call_back cs server.uring s ≡ ok (u, s')
        → Step (server, s, w) (record server { uring = u }, s', w)
    connects :
        {server server' : TcpServer} {s : S} {w w' : W} (addr : TcpAddr)
        → create_connection system call_backs addr server w ≡ ok (server', w')
        → Step (server, s, w) (server', s, w')
    stops : {server : TcpServer} {s : S} {w : W} → Step (server, s, w) (stop system server, s, w)

  pub data Runs (x : TcpServer × S × W) : TcpServer × S × W → Type 0 where
    begun : Runs x x
    then_does : {y z : TcpServer × S × W} → Runs x y → Step y z → Runs x z

  take_client-Joins :
      (accepted : ℤ) (client : SockaddrIn) (server : TcpServer) (w : W)
      → Returns
          (λ r. Joins server.uring r.0.uring)
          (take_client system call_backs accepted client server w)
  unfolding take_client
  take_client-Joins accepted client server w = Returns->>= (descriptor accepted) anyhow λ fd u.
      Returns->>= (tell_new system call_backs call_backs.new_call_back fd w) anyhow λ w' v.
        Returns->>= (add_new_fd fd server.uring) (record { result = λ uring e. (fd, e) })
          λ uring j.
            Returns->>= (of_sockaddr system.inet_pton system.inet_ntop client) anyhow
              λ addr a. Returns-ok j

  create_connection-Joins :
      call_backs.begin_call_back ≡ none
      → (addr : TcpAddr) (server : TcpServer) (w : W)
      → Returns
          (λ r. Joins server.uring r.0.uring)
          (create_connection system call_backs addr server w)
  unfolding create_connection tell_begin
  create_connection-Joins nobody addr server w =
      let (opened, w1) = system.socket w in
      Returns->>= (descriptor opened) anyhow λ fd u. Returns-check _ _ (
        Returns->>= (add_new_fd fd server.uring) (record { result = λ uring e. (fd, e) })
          λ uring j. rw nobody (Returns-ok j))

  module _ (nobody : call_backs.begin_call_back ≡ none) where
    joined : {u v : Uring} {s : S} → Joins u v → Quiet.Reach read_call_back (u, s) (v, s)
    joined (fd, e) = Quiet.Reach.next Quiet.Reach.here (Quiet.Step.connect fd e)

    Step-ring :
        {x y : TcpServer × S × W}
        → Step x y
        → Quiet.Reach read_call_back (x.0.uring, x.1) (y.0.uring, y.1)
    unfolding listen_in_loop stop
    Step-ring (accepts {server} {server'} {w} {w'} e) =
        let (accepted, client, w'') = system.accept server.listen_fd w in
        joined ((take_client-Joins accepted client server w'').result (server', w') e)
    Step-ring (turns cs e) = Quiet.Reach.next Quiet.Reach.here (Quiet.Step.loop cs e)
    Step-ring (connects {server} {server'} {w} {w'} addr e) =
        joined ((create_connection-Joins nobody addr server w).result (server', w') e)
    Step-ring stops = Quiet.Reach.here

    -- What the threads of a server lead to, its ring could come to by itself.
    pub Runs-ring :
        {x y : TcpServer × S × W}
        → Runs x y
        → Quiet.Reach read_call_back (x.0.uring, x.1) (y.0.uring, y.1)
    Runs-ring begun = Quiet.Reach.here
    Runs-ring (then_does r st) = Reach-trans read_call_back (Runs-ring r) (Step-ring st)

-- The constructor and `begin` leave the ring as it is made.
pub construct-ring :
    {W : Type 0} (system : System W) (addr : TcpAddr) (name : List ℕ) (w : W)
    → Returns (λ r. r.0.uring ≡ Uring.construct 1024) (construct system addr name w)
unfolding construct create_listen_socket
construct-ring system addr name w =
    Returns->>= (descriptor (system.socket w).0) anyhow λ fd u. Returns-check _ _ (Returns-ok refl)

pub begin-ring :
    {W : Type 0} (system : System W) (server : TcpServer) (w : W)
    → Returns (λ r. r.0.uring ≡ server.uring) (begin system server w)
unfolding begin
begin-ring system server w =
    Returns-check (not (eq_ℤ server.listen_fd (negsuc 0))) Fault.assert_failed
      (Returns->>= (Loop.set_task (some tt) server.loop) anyhow λ loop u. Returns-ok refl)
