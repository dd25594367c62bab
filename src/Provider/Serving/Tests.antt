-- ===== src/Provider/Serving/Tests.antt =====
-- A provider that takes one client and asks for its bytes.
use fish_rpc.Prelude.{
  ◌==◌, if◌then◌else◌, length, All, ℕ, ◌+◌, ◌≤◌, ◌≡◌, refl, false, Option, none, some, List, [],
  ◌∷◌,
}
use fish_rpc.Prelude.Int.{pos}
use fish_rpc.Prelude.Assoc.{lookup, insert}
use fish_rpc.Net.Buffer
use fish_rpc.Net.Buffer.{Buffer}
use fish_rpc.Net.TcpAddr
use fish_rpc.Net.TcpAddr.{TcpAddr, SockaddrIn}
use fish_rpc.Net.Uring
use fish_rpc.Net.Uring.{
  Uring, UringRequest, TaskOption, new_channel, add_new_fd, put_channel, add_read_request,
  channel_of,
}
use fish_rpc.Net.Uring.Loop.{event_loop, completes, begin_recv, begin_send, submit_recv}
use fish_rpc.Net.Uring.Quiet.{IsRead}
use fish_rpc.Net.Server
use fish_rpc.Net.Server.{TcpServer, System, CallBacks, listen_in_loop, loop_name}
use fish_rpc.Net.Server.Threads.{Step, Runs}
use fish_rpc.Rpc.Protocol.{Msg}
use fish_rpc.Rpc.ProtocolManager.{ProtocolManager}
use fish_rpc.Provider.Server.{read_call_back}
use fish_rpc.Provider.Serving.{construct, begin, call_backs, provider_reads_only}

abbrev zeros : Msg
zeros = record {
  magic = 0;
  total_length = 0;
  head_length = 0;
  version = 0;
  msg_type = 0;
  s_format = 0;
  padding = 0;
  msg_id = 0;
  content_length = 0;
}

abbrev junk : ℕ → Buffer → ProtocolManager → Msg
junk fd b m = zeros

abbrev no_messages : ProtocolManager
no_messages = record { undo_protols = [] }

-- "1.2.3.4", and conversions that know it only.
abbrev local : List ℕ
local = 49 ∷ 46 ∷ 50 ∷ 46 ∷ 51 ∷ 46 ∷ 52 ∷ []

abbrev one_ip : List ℕ → Option ℕ
one_ip [] = none
one_ip (c ∷ cs) = if c == 49 then some 67305985 else none

abbrev system : System ℕ
system = record {
  socket = λ w. (pos 3, w);
  setsockopt = λ fd w. w;
  bind = λ fd a w. (pos 0, w);
  listen = λ fd n w. w;
  accept = λ fd w. (pos 5, record { sin_addr = 67305985; sin_port = 20480 }, w + 1);
  connect = λ fd a w. (pos 0, w);
  inet_pton = one_ip;
  inet_ntop = λ s. local;
}

abbrev own : TcpAddr
own = record { ip = local; port = pos 8848 }

abbrev server : Option (Unit {0}) → Uring → List (ℕ × TcpAddr) → TcpServer
server task uring channel_addrs = record {
  addr = own;
  name = [];
  listen_fd = pos 3;
  uring = uring;
  loop = record {
    flag = false;
    temp_tasks = [];
    init_task = none;
    task = task;
    name = loop_name;
    ran = [];
    added = [];
  };
  channel_addrs = channel_addrs;
}

abbrev asked : UringRequest
asked = record {
  event_type = TaskOption.read;
  client_socket = 5;
  region = record { in_send = false; offset = 0; size = 1023 };
}

abbrev ring : List ℕ → ℕ → List UringRequest → Uring
unfolding new_channel Buffer.create
ring recv_que free_num submitted = record {
  recv_que = recv_que;
  send_que = [];
  connections = (5, new_channel 5 1024) ∷ [];
  free_num = free_num;
  queue_size = 1024;
  submitted = submitted;
  closed = [];
}

abbrev peers : List (ℕ × TcpAddr)
peers = (5, record { ip = local; port = pos 80 }) ∷ []

abbrev now : TcpServer
unfolding ring
now = server (some tt) (ring [] 1022 (asked ∷ [])) peers

one_client :
    Runs system call_backs
      (read_call_back false junk)
      (server (some tt) (Uring.construct 1024) [], no_messages, 0)
      (now, no_messages, 1)
unfolding listen_in_loop call_backs lookup insert Uring.construct add_new_fd put_channel
    add_read_request event_loop completes begin_recv begin_send submit_recv channel_of new_channel
    Buffer.create Buffer.room Buffer.dis_write_size ring TcpAddr.c_str
one_client =
    Runs.then_does {y = (server (some tt) (ring (5 ∷ []) 1023 []) peers, no_messages, 1)}
      (Runs.then_does Runs.begun (Step.accepts refl)) (Step.turns [] refl)

provider_reads_only_example :
    (now.uring.send_que ≡ [])
    × All IsRead now.uring.submitted
    × (now.uring.free_num + length now.uring.submitted ≤ 1023)
unfolding construct begin Server.construct Server.begin
provider_reads_only_example =
    provider_reads_only system false junk own [] no_messages no_messages
      (server none (Uring.construct 1024) []) (server (some tt) (Uring.construct 1024) []) now 0 0 0
      1 call_backs refl refl one_client
