-- ===== src/Registry.antt =====
-- Fish/registry/rpc_registry.h and source/registry/rpc_registry.cpp: the registry, which keeps a list
-- of the providers that announced themselves. An address is what the server stored for the channel.
pub mod Providers
mod Tests
use fish_rpc.Prelude.{
  ◌==◌, if◌then◌else◌, length, ℕ, ◌%◌, ◌^◌, Bool, not, ◌||◌, none, some, List, [], ◌∷◌, ◌++◌,
}
use fish_rpc.Prelude.Outcome.{Outcome, ok, Fault, ◌>>=◌, ◌>>◌, check}
use fish_rpc.Prelude.Int.{ℤ}
use fish_rpc.Net.Buffer.{Buffer}
use fish_rpc.Rpc.Protocol.{Msg, MsgType, type_code, state_code, Protocol}
use fish_rpc.Rpc.ProtocolManager.{ProtocolManager, read_mes, is_ready}

pub data ProviderStatus : Type 0 where
  health weak dead : ProviderStatus

pub record ProviderMes (Addr : Type 0) : Type 0 where
  pub id : ℕ
  pub addr : Addr
  pub status : ProviderStatus
  pub channel : ℕ
  pub last_heart_send : ℤ
  pub last_heart_recv : ℤ

pub record RpcRegistry (Addr : Type 0) : Type 0 where
  pub protocols : ProtocolManager
  pub providers : List (ProviderMes Addr)

-- What a call finds around it: the memory of a fresh message, the time, the value that
-- `lastHeart_recv` holds by chance, the address of the channel, and whether `LogThread::init` has
-- made the logger.
pub record Call (Addr : Type 0) : Type 0 where
  pub junk : Msg
  pub now : ℤ
  pub unset : ℤ
  pub addr : Addr
  pub has_logger : Bool

module _ {Addr : Type 0} where
  -- The entry that `providerNew` appends as the `size`th one.
  abbrev pub provider_mes : Call Addr → ℕ → ℕ → ProviderMes Addr
  provider_mes call fd size = record {
    id = size % 2 ^ 16;
    addr = call.addr;
    status = ProviderStatus.health;
    channel = fd;
    last_heart_send = call.now;
    last_heart_recv = call.unset;
  }

  unfoldable pub provider_new : Call Addr → ℕ → RpcRegistry Addr → RpcRegistry Addr
  provider_new call fd r = record r {
    providers = r.providers ++ (provider_mes call fd (length r.providers) ∷ []);
  }

  -- `handleProvider`. The assertion compares the state with a message type, by their numbers.
  unfoldable pub handle_provider :
      Call Addr → Protocol → ℕ → RpcRegistry Addr → Outcome (RpcRegistry Addr)
  unfolding provider_new
  handle_provider call p fd r = do
    check (state_code p.state == type_code MsgType.provider) Fault.assert_failed
    ok (if p.msg.msg_id == 1 then provider_new call fd r else r)

  -- What `handleMessage` does with a message. The line that is logged for the type FRPC_NONSENCE goes
  -- through the pointer to the logger; it leaves the registry as it is.
  unfoldable pub dispatch : Call Addr → Protocol → ℕ → RpcRegistry Addr → Outcome (RpcRegistry Addr)
  unfolding handle_provider
  dispatch call p fd r = do
    check (is_ready p) Fault.assert_failed
    check (not (p.msg.msg_type == type_code MsgType.nonsence) || call.has_logger) Fault.null_pointer
    if p.msg.msg_type == type_code MsgType.provider then handle_provider call p fd r else ok r

  -- `handleMessage`, over the read buffer of the channel.
  unfoldable pub handle_message :
      Call Addr → ℕ → RpcRegistry Addr → Buffer → Outcome (RpcRegistry Addr × Buffer)
  unfolding dispatch
  handle_message call fd r b = do
    (protocol, m, b') ← read_mes call.junk fd r.protocols b
    r' ← elim protocol [
      | none ↦ ok (record r { protocols = m })
      | some p ↦ dispatch call p fd (record r { protocols = m })
    ]
    ok (r', b')
