-- ===== src/Rpc/ProtocolManager/Tests.antt =====
-- `readMes` of source/rpc/protocol_manager.cpp at a concrete connection.
use fish_rpc.Prelude.{take, drop, replicate, ◌≡◌, refl, inr, Option, none, some, [], ◌∷◌, arith}
use fish_rpc.Prelude.Outcome.{ok}
use fish_rpc.Prelude.Int.{pos}
use fish_rpc.Prelude.Bytes.{to_bytes}
use fish_rpc.Prelude.Assoc.{lookup, insert, erase}
use fish_rpc.Net.Buffer
use fish_rpc.Net.Buffer.{Buffer}
use fish_rpc.Net.Buffer.Queue.{IsValid}
use fish_rpc.Rpc.Protocol.{
  Protocol, Msg, RpcState, find, create, construct, msg_str, read_content_length,
}
use fish_rpc.Rpc.ProtocolManager.{ProtocolManager, current, read_mes, view_of}
use fish_rpc.Rpc.ProtocolManager.Tracking.{AllPending, read_mes_total}
use fish_rpc.Rpc.ProtocolManager.Delivery.{read_mes_delivers}

-- A header whose four bytes in front of byte 15 are the digits 0002.
abbrev digit_msg : Msg
digit_msg = record {
  magic = 0xcc;
  total_length = 15;
  head_length = 15;
  version = 1;
  msg_type = 1;
  s_format = 1;
  padding = 0;
  msg_id = 805306368;
  content_length = 3289136;
}

abbrev waiting : Protocol
waiting = record { msg = digit_msg; content = []; state = RpcState.wait_content }

-- Connection 4 has a message that waits for its content.
abbrev manager : ProtocolManager
manager = record { undo_protols = (4, waiting) ∷ [] }

manager-AllPending : AllPending manager
manager-AllPending = (record { unfinished = λ e. cc e; bare = inr refl }, tt)

abbrev sevens : Buffer
sevens = record { buf = replicate 20 7; write_index = 20; read_index = 0 }

sevens-IsValid : IsValid sevens
sevens-IsValid = omega arith

abbrev completed : Protocol
completed = record {
  msg = record digit_msg { content_length = 2 };
  content = 7 ∷ 7 ∷ [];
  state = RpcState.ready;
}

create-sevens : create (view_of sevens) waiting ≡ ok (pos 0, completed)
unfolding create Buffer.dis_read read_content_length msg_str to_bytes
create-sevens = refl

read_waiting :
    read_mes digit_msg 4 manager sevens ≡ ok (some completed, record { undo_protols = [] }, sevens)
unfolding read_mes create Buffer.dis_read lookup read_content_length Buffer.erase_data msg_str
    to_bytes erase
read_waiting = refl

-- Nothing is found for connection 5, whose fresh message is stored.
read_fresh :
    read_mes digit_msg 5 manager sevens
    ≡ ok (none, record { undo_protols = (4, waiting) ∷ (5, construct digit_msg) ∷ [] }, sevens)
unfolding read_mes create Buffer.dis_read lookup read_content_length Buffer.erase_data msg_str
    to_bytes insert construct find
read_fresh = refl

read_mes_total_example :
    (r : Option Protocol) × (m' : ProtocolManager) × (b' : Buffer) × (read_mes digit_msg 4 manager
        sevens
      ≡ ok (r, m', b'))
    × IsValid b'
    × (Buffer.dis_read b' ≡ drop 0 (Buffer.dis_read sevens))
unfolding Buffer.dis_read current lookup
read_mes_total_example =
    read_mes_total digit_msg 4 manager sevens-IsValid (omega arith) create-sevens

read_mes_delivers_example :
    (completed.state ≡ RpcState.ready)
    × (lookup {V = Protocol} 4 [] ≡ none)
    × (lookup 4 manager.undo_protols ≡ some waiting)
    × (waiting.state ≡ RpcState.wait_content)
    × (completed.content ≡ take 2 (Buffer.dis_read sevens))
    × (Buffer.dis_read sevens ≡ Buffer.dis_read sevens)
unfolding current lookup
read_mes_delivers_example =
    read_mes_delivers digit_msg 4 manager manager-AllPending sevens-IsValid read_waiting
