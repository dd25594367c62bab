-- ===== src/Rpc/ProtocolManager.antt =====
-- Fish/rpc/protocol_manager.h and source/rpc/protocol_manager.cpp: the messages that are not
-- complete yet, by connection. A channel is its file descriptor and its read buffer. The map holds
-- shared pointers, so what `create` does to a stored message is seen in the map.
pub mod Tracking
pub mod Delivery
mod Tests
use fish_rpc.Prelude.{◌==◌, if◌then◌else◌, drop, ℕ, Bool, true, false, Option, none, some, List}
use fish_rpc.Prelude.Outcome.{Outcome, ok, ◌>>=◌, ◌>>◌}
use fish_rpc.Prelude.Int.{ℤ, pos, negsuc}
use fish_rpc.Prelude.Assoc.{lookup, insert, erase}
use fish_rpc.Net.Buffer
use fish_rpc.Net.Buffer.{Buffer}
use fish_rpc.Rpc.Protocol.{Protocol, Msg, View, RpcState, construct, create, state_code}

pub record ProtocolManager : Type 0 where
  pub undo_protols : List (ℕ × Protocol)

-- `dispReadBuf`, with the memory behind the view: the rest of the vector.
abbrev pub view_of : Buffer → View
view_of b = record { bytes = Buffer.dis_read b; behind = drop b.write_index b.buf }

-- `protocol->getState() == RPCSTATE::READY`.
abbrev pub is_ready : Protocol → Bool
is_ready p = state_code p.state == state_code RpcState.ready

-- `std::max(size, 0)`.
abbrev max_zero : ℤ → ℤ
max_zero (pos n) = pos n
max_zero (negsuc n) = pos 0

-- The map after the read, by whether the message is complete and whether it was stored before. A
-- stored message that is still incomplete has changed in place.
unfoldable pub update : Bool → Bool → ℕ → Protocol → List (ℕ × Protocol) → List (ℕ × Protocol)
update true true fd p undo = erase fd undo
update true false fd p undo = undo
update false true fd p undo = insert fd p undo
update false false fd p undo = insert fd p undo

-- The message that goes on: the stored one, or one made in memory that holds `junk`.
unfoldable pub current : Msg → Option Protocol → Protocol × Bool
current junk none = (construct junk, false)
current junk (some p) = (p, true)

-- `readMes`: the complete message, if there is one, the map and the read buffer.
unfoldable pub read_mes :
    Msg → ℕ → ProtocolManager → Buffer → Outcome (Option Protocol × ProtocolManager × Buffer)
unfolding update current
read_mes junk fd m b = do
  let (protocol, old_flag) = current junk (lookup fd m.undo_protols)
  (size, p) ← create (view_of b) protocol
  b' ← Buffer.erase_data (max_zero size) b
  let undo = update (is_ready p) old_flag fd p m.undo_protols
  ok (if is_ready p then some p else none, record { undo_protols = undo }, b')
