-- ===== src/Provider/Server/Tests.antt =====
-- Provider/Server on a connection that is made and closed.
use fish_rpc.Prelude.{ℕ, refl, false, List, [], ◌∷◌}
use fish_rpc.Prelude.Assoc.{lookup, insert}
use fish_rpc.Net.Buffer
use fish_rpc.Net.Buffer.{Buffer, copy_in}
use fish_rpc.Net.Uring
use fish_rpc.Net.Uring.{
  Uring, Channel, UringRequest, TaskOption, add_read_request, channel_of, put_channel, new_channel,
  add_new_fd, remove_fd,
}
use fish_rpc.Net.Uring.Loop.{submit_recv, begin_recv, begin_send, event_loop, completes}
use fish_rpc.Net.Uring.Quiet.{Step}
use fish_rpc.Rpc.Protocol.{Msg}
use fish_rpc.Rpc.ProtocolManager.{ProtocolManager}
use fish_rpc.Provider.Server.{read_call_back}

abbrev zeros : Msg
zeros = record {
  magic = 0;
  total_length = 0;
  head_length = 0;
  version = 0;
  msg_type = 0;
  s_format = 0;
  padding = 0;
  msg_id = 0;
  content_length = 0;
}

abbrev junk : ℕ → Buffer → ProtocolManager → Msg
junk fd b m = zeros

abbrev no_messages : ProtocolManager
no_messages = record { undo_protols = [] }

abbrev ring : List ℕ → ℕ → List UringRequest → Uring
unfolding new_channel Buffer.create
ring recv_que free_num submitted = record {
  recv_que = recv_que;
  send_que = [];
  connections = (5, new_channel 5 1024) ∷ [];
  free_num = free_num;
  queue_size = 4;
  submitted = submitted;
  closed = [];
}

abbrev asked : UringRequest
asked = record {
  event_type = TaskOption.read;
  client_socket = 5;
  region = record { in_send = false; offset = 0; size = 1023 };
}

joins :
    Step
      (read_call_back false junk)
      (Uring.construct 4, no_messages)
      (ring (5 ∷ []) 3 [], no_messages)
unfolding lookup insert Uring.construct add_new_fd put_channel add_read_request event_loop completes
    begin_recv begin_send submit_recv channel_of new_channel Buffer.create Buffer.room
    Buffer.dis_write_size ring
joins = Step.connect {u = Uring.construct 4} {v = ring (5 ∷ []) 3 []} 5 refl

turns :
    Step
      (read_call_back false junk)
      (ring (5 ∷ []) 3 [], no_messages)
      (ring [] 2 (asked ∷ []), no_messages)
unfolding lookup insert Uring.construct add_new_fd put_channel add_read_request event_loop completes
    begin_recv begin_send submit_recv channel_of new_channel Buffer.create Buffer.room
    Buffer.dis_write_size ring
turns = Step.loop [] refl
