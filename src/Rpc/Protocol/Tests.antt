-- ===== src/Rpc/Protocol/Tests.antt =====
-- Fish/rpc/protocol.h and source/rpc/protocol.cpp at concrete messages and streams.
use fish_rpc.Prelude.{length, take, replicate, ◌≡◌, refl, ◌≢◌, [], ◌∷◌, ◌++◌, arith}
use fish_rpc.Prelude.Outcome.{ok}
use fish_rpc.Prelude.Int.{pos}
use fish_rpc.Prelude.Bytes.{to_bytes}
use fish_rpc.Rpc.Protocol.{read_content_length, Protocol, Msg, View, RpcState, create, msg_str}
use fish_rpc.Rpc.Protocol.Header.{HeaderFits}
use fish_rpc.Rpc.Protocol.Machine.{create_completes}
use fish_rpc.Rpc.Protocol.OwnMessages.{IsOwn, head_bytes, received, create-header}
use fish_rpc.Rpc.Protocol.NeverReady.{own-never-ready}
use fish_rpc.Rpc.Protocol.Stuck.{feed}

-- A heartbeat's header.
abbrev heartbeat_msg : Msg
heartbeat_msg = record {
  magic = 0xcc;
  total_length = 15;
  head_length = 15;
  version = 1;
  msg_type = 1;
  s_format = 1;
  padding = 0;
  msg_id = 5;
  content_length = 8;
}

heartbeat_msg-HeaderFits : HeaderFits heartbeat_msg
heartbeat_msg-HeaderFits = omega arith

heartbeat_msg-IsOwn : IsOwn heartbeat_msg
heartbeat_msg-IsOwn = record {
  fits = heartbeat_msg-HeaderFits;
  magic_first = refl;
  standard = refl;
}

abbrev fresh : Protocol
fresh = record { msg = heartbeat_msg; content = []; state = RpcState.free }

create-header_example :
    create
      (record { bytes = (1 ∷ []) ++ (head_bytes heartbeat_msg ++ (2 ∷ [])); behind = [] })
      fresh
    ≡ ok (pos 16, received heartbeat_msg fresh)
create-header_example =
    create-header heartbeat_msg fresh (1 ∷ []) (2 ∷ []) [] heartbeat_msg-IsOwn refl refl
      (omega arith) (omega arith)

abbrev long_view : View
long_view = record { bytes = replicate 20 7; behind = [] }

own-never-ready_example :
    (p' : Protocol) × (feed
        (record { bytes = (1 ∷ []) ++ (head_bytes heartbeat_msg ++ (2 ∷ [])); behind = [] }
          ∷ long_view
          ∷ [])
        fresh
      ≡ ok p')
    × (p'.state ≢ RpcState.ready)
own-never-ready_example =
    own-never-ready heartbeat_msg fresh (1 ∷ []) (2 ∷ []) [] (long_view ∷ []) heartbeat_msg-IsOwn
      (omega arith) refl refl refl (omega arith) (omega arith) (omega arith, tt)

abbrev stuck : Protocol
stuck = record { msg = heartbeat_msg; content = []; state = RpcState.lack }

-- A header whose four bytes in front of byte 15 are the digits 0002.
abbrev digit_msg : Msg
digit_msg = record heartbeat_msg { msg_id = 805306368; content_length = 3289136 }

abbrev waiting : Protocol
waiting = record { msg = digit_msg; content = []; state = RpcState.wait_content }

abbrev completed : Protocol
completed = record {
  msg = record digit_msg { content_length = 2 };
  content = 7 ∷ 7 ∷ [];
  state = RpcState.ready;
}

create_waiting : create long_view waiting ≡ ok (pos 0, completed)
unfolding create msg_str to_bytes read_content_length
create_waiting = refl

create_completes_example :
    (waiting.state ≡ RpcState.wait_content)
    × (pos 0 ≡ pos 0)
    × (completed.content ≡ take 2 long_view.bytes)
    × (length completed.content ≡ 2)
create_completes_example = create_completes long_view waiting refl (λ e. cc e) create_waiting refl
