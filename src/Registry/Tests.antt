-- ===== src/Registry/Tests.antt =====
-- Registry at one message that announces a provider.
use fish_rpc.Prelude.{replicate, ℕ, ◌%◌, ◌^◌, ◌≡◌, refl, inr, some, [], ◌∷◌, arith, false}
use fish_rpc.Prelude.Outcome.{ok}
use fish_rpc.Prelude.Int.{pos}
use fish_rpc.Prelude.Bytes.{to_bytes, from_bytes}
use fish_rpc.Prelude.Assoc.{lookup, erase, insert}
use fish_rpc.Net.Buffer
use fish_rpc.Net.Buffer.{Buffer}
use fish_rpc.Net.Buffer.Queue.{IsValid}
use fish_rpc.Rpc.Protocol.{
  Msg, Protocol, RpcState, create, of_str, copy_head, found, find, construct, read_content_length,
  msg_str, construct, find, copy_head, found, of_str,
}
use fish_rpc.Rpc.ProtocolManager.{read_mes, current, update}
use fish_rpc.Rpc.ProtocolManager.Tracking.{AllPending}
use fish_rpc.Registry.{RpcRegistry, Call, handle_message, provider_mes}
use fish_rpc.Registry.Providers.{Step, Reach, start, handle_message-registers, provider_ids}

-- Its length is in the digits of its header.
abbrev announcing : Msg
announcing = record {
  magic = 0xcc;
  total_length = 16;
  head_length = 15;
  version = 1;
  msg_type = 2;
  s_format = 1;
  padding = 0;
  msg_id = 1;
  content_length = 842018864;
}

abbrev unfinished_message : Protocol
unfinished_message = record { msg = announcing; content = []; state = RpcState.wait_content }

abbrev announced : Protocol
announced = record {
  msg = record announcing { content_length = 2 };
  content = 7 ∷ 7 ∷ [];
  state = RpcState.ready;
}

abbrev sevens : Buffer
sevens = record { buf = replicate 20 7; write_index = 20; read_index = 0 }

sevens-IsValid : IsValid sevens
sevens-IsValid = omega arith

abbrev call : Call ℕ
call = record { junk = announcing; now = pos 1000; unset = pos 0; addr = 99; has_logger = false }

-- Connection 4 waits for the content of its announcement.
abbrev waiting_registry : RpcRegistry ℕ
waiting_registry = record {
  protocols = record { undo_protols = (4, unfinished_message) ∷ [] };
  providers = [];
}

waiting-AllPending : AllPending waiting_registry.protocols
waiting-AllPending = (record { unfinished = λ e. cc e; bare = inr refl }, tt)

reads :
    read_mes announcing 4 waiting_registry.protocols sevens
    ≡ ok (some announced, record { undo_protols = [] }, sevens)
unfolding read_mes create Buffer.dis_read lookup read_content_length Buffer.erase_data msg_str
    to_bytes erase
reads = refl

handle_message-registers_example :
    handle_message call 4 waiting_registry sevens
    ≡ ok (
      record { protocols = record { undo_protols = [] }; providers = provider_mes call 4 0 ∷ [] },
      sevens,
    )
handle_message-registers_example =
    handle_message-registers call 4 waiting_registry waiting-AllPending sevens-IsValid reads

-- The header arrives, and then the content.
abbrev header : ℕ → Buffer
header i = record {
  buf = 0xcc ∷ 16 ∷ 15 ∷ 1 ∷ 2 ∷ 0 ∷ 1 ∷ 0 ∷ 1 ∷ 0 ∷ 0 ∷ 0 ∷ 48 ∷ 48 ∷ 48 ∷ 50 ∷ [];
  write_index = i;
  read_index = 0;
}

announces_itself : Step (start {Addr = ℕ}) waiting_registry
unfolding handle_message read_mes create Buffer.dis_read lookup insert read_content_length
    Buffer.erase_data msg_str to_bytes from_bytes construct find copy_head found of_str current
    update
announces_itself = Step.receives call 4 (header 16) (header 0) (omega arith) refl

abbrev registered : RpcRegistry ℕ
registered = record {
  protocols = record { undo_protols = [] };
  providers = provider_mes call 4 0 ∷ [];
}

provider_ids_example : 0 ≡ 0 % 2 ^ 16
provider_ids_example =
    provider_ids {r = registered} 0 {x = provider_mes call 4 0}
      (Reach.next (Reach.next Reach.here announces_itself)
        (Step.receives call 4 sevens sevens sevens-IsValid handle_message-registers_example))
      refl
