-- ===== src/Provider/Server.antt =====
-- source/provider/rpc_provider.cpp over source/net/uring_io.cpp: the server of a provider, whose
-- callback is `handleRead`.
mod Tests
use fish_rpc.Prelude.{Bool, ◌||◌, not, ◌==◌, All, ℕ, ◌≡◌, refl, Option, none, some, List, []}
use fish_rpc.Prelude.Outcome.{Outcome, Fault, ok, ◌>>=◌, ◌>>◌}
use fish_rpc.Prelude.Outcome.{Returns, Returns-ok, Returns->>=, Returns-check, Returns-if, anyhow}
use fish_rpc.Net.Buffer.{Buffer}
use fish_rpc.Net.Uring
use fish_rpc.Net.Uring.{Uring}
use fish_rpc.Net.Uring.Quiet.{IsRead, Quiet, Reach, Reach-Quiet}
use fish_rpc.Rpc.Protocol.{Msg, Protocol, result}
use fish_rpc.Rpc.ProtocolManager.{ProtocolManager, read_mes, is_ready}
use fish_rpc.Provider.Handlers.{hanle_health, handle_protocol, handle_read}

-- The callback that `begin` sets. `has_logger` says whether there is a logger, `junk` is the memory that a fresh message is made in.
unfoldable pub read_call_back :
    Bool
    → (ℕ → Buffer → ProtocolManager → Msg)
    → ℕ
    → Buffer
    → ProtocolManager
    → Outcome (List (List ℕ) × Buffer × ProtocolManager)
unfolding handle_read
read_call_back has_logger junk fd b m = do
  (texts, m', b') ← handle_read has_logger (junk fd b m) fd m b
  ok (texts, b', m')

handle_protocol-Returns :
    (has_logger : Bool) (p : Protocol)
    → Returns (λ (texts : List (List ℕ)). texts ≡ []) (handle_protocol has_logger p)
unfolding handle_protocol hanle_health
handle_protocol-Returns has_logger p = Returns-check (is_ready p) Fault.assert_failed (
    Returns-check (not (p.msg.msg_type == 0) || has_logger) Fault.null_pointer (
      Returns-if (p.msg.msg_type == 1)
        (Returns-check (p.msg.msg_type == 1) Fault.assert_failed (
          Returns-check (p.msg.msg_id == 1 || has_logger) Fault.null_pointer
            (Returns->>= (result p) anyhow λ text _. Returns-ok refl)))
        (Returns-ok refl)))

-- What is done with a message that was read, if there is one.
texts-Returns :
    (has_logger : Bool) (o : Option Protocol)
    → Returns
        (λ (texts : List (List ℕ)). texts ≡ [])
        (elim o [ none ↦ ok [] | some p ↦ handle_protocol has_logger p ])
texts-Returns has_logger none = Returns-ok refl
texts-Returns has_logger (some p) = handle_protocol-Returns has_logger p

handle_read-Returns :
    (has_logger : Bool) (junk : Msg) (fd : ℕ) (b : Buffer) (m : ProtocolManager)
    → Returns
        (λ (x : List (List ℕ) × ProtocolManager × Buffer). x.0 ≡ [])
        (handle_read has_logger junk fd m b)
unfolding handle_read
handle_read-Returns has_logger junk fd b m =
    Returns->>= (read_mes junk fd m b) anyhow λ (o, m', b') _.
      Returns->>= (elim o [ none ↦ ok [] | some p ↦ handle_protocol has_logger p ])
        (texts-Returns has_logger o) λ texts e. Returns-ok e

read_call_back-Returns :
    (has_logger : Bool) (junk : ℕ → Buffer → ProtocolManager → Msg) (fd : ℕ) (b : Buffer)
    (m : ProtocolManager)
    → Returns
        (λ (x : List (List ℕ) × Buffer × ProtocolManager). x.0 ≡ [])
        (read_call_back has_logger junk fd b m)
unfolding read_call_back
read_call_back-Returns has_logger junk fd b m =
    Returns->>= (handle_read has_logger (junk fd b m) fd m b)
      (handle_read-Returns has_logger (junk fd b m) fd b m) λ (texts, m', b') e. Returns-ok e

construct-Quiet : (queue_size : ℕ) → Quiet (Uring.construct queue_size)
unfolding Uring.construct
construct-Quiet queue_size = record { none_queued = refl; only_reads = tt }

-- In every state that turns of the loop, new connections and closed channels lead to from a fresh
-- ring, where the callback is that of a provider and whatever the kernel and the clients do, no
-- text is queued to be sent, and the kernel was asked for reads only: a provider answers nothing.
pub provider_asks_for_reads :
    (has_logger : Bool) (junk : ℕ → Buffer → ProtocolManager → Msg) (queue_size : ℕ)
    (m : ProtocolManager) {u : Uring} {m' : ProtocolManager}
    → Reach (read_call_back has_logger junk) (Uring.construct queue_size, m) (u, m')
    → (u.send_que ≡ []) × All IsRead u.submitted
provider_asks_for_reads has_logger junk queue_size m r =
    let q =
      Reach-Quiet (read_call_back has_logger junk) (read_call_back-Returns has_logger junk)
        (construct-Quiet queue_size) r in
    (q.none_queued, q.only_reads)
