-- ===== src/Provider/Handlers/Tests.antt =====
-- Provider/Handlers at a heartbeat whose content arrives.
use fish_rpc.Prelude.{replicate, ◌≡◌, refl, inr, some, [], ◌∷◌}
use fish_rpc.Prelude.Outcome.{ok}
use fish_rpc.Prelude.Bytes.{to_bytes}
use fish_rpc.Prelude.Assoc.{lookup, erase}
use fish_rpc.Net.Buffer
use fish_rpc.Net.Buffer.{Buffer}
use fish_rpc.Rpc.Protocol.{Msg, Protocol, RpcState, create, read_content_length, msg_str}
use fish_rpc.Rpc.ProtocolManager.{ProtocolManager, read_mes}
use fish_rpc.Rpc.ProtocolManager.Tracking.{AllPending}

-- The digits of its length are in its last four bytes.
abbrev heartbeat : Msg
heartbeat = record {
  magic = 0xcc;
  total_length = 16;
  head_length = 15;
  version = 1;
  msg_type = 1;
  s_format = 1;
  padding = 0;
  msg_id = 1;
  content_length = 842018864;
}

abbrev manager : ProtocolManager
manager = record {
  undo_protols = (4, record { msg = heartbeat; content = []; state = RpcState.wait_content }) ∷ [];
}

manager-AllPending : AllPending manager
manager-AllPending = (record { unfinished = λ e. cc e; bare = inr refl }, tt)

abbrev sevens : Buffer
sevens = record { buf = replicate 20 7; write_index = 20; read_index = 0 }

abbrev received : Protocol
received = record {
  msg = record heartbeat { content_length = 2 };
  content = 7 ∷ 7 ∷ [];
  state = RpcState.ready;
}

reads :
    read_mes heartbeat 4 manager sevens ≡ ok (some received, record { undo_protols = [] }, sevens)
unfolding read_mes create Buffer.dis_read lookup read_content_length Buffer.erase_data msg_str
    to_bytes erase
reads = refl
