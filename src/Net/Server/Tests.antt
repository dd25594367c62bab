-- ===== src/Net/Server/Tests.antt =====
-- The server over a small system: each `accept` gives the next descriptor, and the same client.
use fish_rpc.Prelude.{
  leb, ◌==◌, if◌then◌else◌, All, ℕ, suc, ◌+◌, ◌<◌, ◌≡◌, refl, Bool, true, false, Option, none, some,
  List, [], ◌∷◌, ◌++◌, arith,
}
use fish_rpc.Prelude.Outcome.{Outcome, ok, fault, Fault}
use fish_rpc.Prelude.Int.{pos}
use fish_rpc.Prelude.Assoc.{lookup, insert}
use fish_rpc.Base.Loop.{Thread, Loop}
use fish_rpc.Net.TcpAddr
use fish_rpc.Net.TcpAddr.{TcpAddr, SockaddrIn, htons, ntohs, of_sockaddr}
use fish_rpc.Prelude.Outcome.{Returns}
use fish_rpc.Net.Uring
use fish_rpc.Net.Uring.{Uring, new_channel}
use fish_rpc.Net.Server
use fish_rpc.Net.Server.{
  TcpServer, System, CallBacks, sockaddr, address_of, listen_in_loop, accept_clients, loop_name,
}
use fish_rpc.Net.Server.Accepting.{
  IsAddress, of_sockaddr-sockaddr, accept_clients-IsAddress, listen_in_loop-connects,
}

-- "1.2.3.4", and conversions that know it only.
abbrev local : List ℕ
local = 49 ∷ 46 ∷ 50 ∷ 46 ∷ 51 ∷ 46 ∷ 52 ∷ []

abbrev one_ip : List ℕ → Option ℕ
one_ip [] = none
one_ip (c ∷ cs) = if c == 49 then some 67305985 else none

abbrev one_text : ℕ → List ℕ
one_text s = local

-- Port 80.
abbrev client : SockaddrIn
client = record { sin_addr = 67305985; sin_port = 20480 }

abbrev system : System ℕ
system = record {
  socket = λ w. (pos 3, w);
  setsockopt = λ fd w. w;
  bind = λ fd a w. (pos 0, w);
  listen = λ fd n w. w;
  accept = λ fd w. (pos (suc w), client, w + 1);
  connect = λ fd a w. (pos 0, w);
  inet_pton = one_ip;
  inet_ntop = one_text;
}

abbrev call_backs : CallBacks ℕ
call_backs = record { new_call_back = none; begin_call_back = none }

abbrev server : TcpServer
server = record {
  addr = record { ip = local; port = pos 8848 };
  name = [];
  listen_fd = pos 3;
  uring = Uring.construct 1024;
  loop = record {
    flag = false;
    temp_tasks = [];
    init_task = none;
    task = some tt;
    name = loop_name;
    ran = [];
    added = [];
  };
  channel_addrs = [];
}

abbrev thread : Thread
thread = record { id_sum = 0; thread_loop_id = 9 }

abbrev peer : TcpAddr
peer = record { ip = local; port = pos 80 }

-- The second turn is the last one.
abbrev stops : ℕ → Bool
stops w = leb 9 w

abbrev served :
    Outcome (Thread × Bool × Loop (Unit {0}) × (TcpServer × ℕ)) → Option (Bool × List (ℕ × TcpAddr))
served (ok (t, left, l, (s, w))) = some (left, s.channel_addrs)
served (fault e) = none

two_clients :
    served (accept_clients system call_backs stops 5 thread server 7)
    ≡ some (true, (8, peer) ∷ (9, peer) ∷ [])
unfolding accept_clients lookup Uring.construct insert
two_clients = refl

of_sockaddr-sockaddr_example :
    of_sockaddr one_ip one_text
      (sockaddr (address_of system (record { ip = local; port = pos 65536 })) (pos 65536))
    ≡ fault Fault.runtime_error
unfolding TcpAddr.c_str
of_sockaddr-sockaddr_example =
    of_sockaddr-sockaddr system local 65536 67305985 refl refl (omega arith) (omega arith)

port_80 : 0 < ntohs 20480
unfolding ntohs
port_80 = omega arith

accept_clients-IsAddress_example :
    Returns
      (λ r. All (λ e. IsAddress system e.1) r.3.0.channel_addrs)
      (accept_clients system call_backs stops 5 thread server 7)
accept_clients-IsAddress_example =
    accept_clients-IsAddress system call_backs stops 5 thread server 7 tt

listen_in_loop-connects_example :
    (server' : TcpServer) × (listen_in_loop system call_backs server 7 ≡ ok (server', 8))
    × ((fd : ℕ)
        → lookup fd server'.uring.connections
          ≡ (if 8 == fd then some (new_channel 8 1024) else lookup fd server.uring.connections))
    × ((fd : ℕ)
        → lookup fd server'.channel_addrs ≡ (
            if 8 == fd
            then some (record { ip = local; port = pos (ntohs 20480) })
            else lookup fd server.channel_addrs))
    × (server'.uring.recv_que ≡ server.uring.recv_que ++ (8 ∷ []))
    × (server'.uring.submitted ≡ server.uring.submitted)
unfolding Server.tell_new Uring.construct lookup TcpAddr.c_str
listen_in_loop-connects_example =
    listen_in_loop-connects system call_backs server client 7 8 8 7 67305985 refl refl refl refl
      port_80
