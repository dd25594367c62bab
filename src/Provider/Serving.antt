-- ===== src/Provider/Serving.antt =====
-- source/provider/rpc_provider.cpp over source/net/tcp_server.cpp: a provider from its constructor
-- on, with all the threads of its server.
mod Tests
use fish_rpc.Prelude.{Bool, length, All, ℕ, ◌+◌, ◌≤◌, ◌≡◌, refl, ◌∙◌, subst, none, some, List, []}
use fish_rpc.Prelude.Outcome.{Outcome, ok, ◌>>=◌, ◌>>◌}
use fish_rpc.Prelude.Outcome.{Returns, Returns->>=, Returns-ok}
use fish_rpc.Net.Buffer.{Buffer}
use fish_rpc.Net.TcpAddr.{TcpAddr}
use fish_rpc.Net.Uring
use fish_rpc.Net.Uring.{Uring}
use fish_rpc.Net.Uring.Quiet.{IsRead, Reach}
use fish_rpc.Net.Uring.Bounded.{submitted_bounded}
use fish_rpc.Net.Server
use fish_rpc.Net.Server.{TcpServer, System, CallBacks}
use fish_rpc.Net.Server.Threads.{Runs, Runs-ring, Reach-bounded, construct-ring, begin-ring}
use fish_rpc.Rpc.Protocol.{Msg}
use fish_rpc.Rpc.ProtocolManager.{ProtocolManager}
use fish_rpc.Provider.Server.{read_call_back, provider_asks_for_reads}

-- `RpcProvider(addr, name)`.
unfoldable pub construct : {W : Type 0} → System W → TcpAddr → List ℕ → W → Outcome (TcpServer × W)
construct system addr name w = Server.construct system addr name w

-- `handleNew`.
unfoldable pub handle_new : {W : Type 0} → ℕ → W → Outcome W
handle_new fd w = ok w

-- The callbacks that `begin` sets and a thread of the server calls; that of the ring is
-- `read_call_back`.
unfoldable pub call_backs : {W : Type 0} → CallBacks W
unfolding handle_new
call_backs = record { new_call_back = some handle_new; begin_call_back = none }

-- `begin`.
unfoldable pub begin :
    {W : Type 0} → System W → TcpServer → W → Outcome (CallBacks W × TcpServer × W)
unfolding call_backs
begin system server w = do
  (server', w') ← Server.begin system server w
  ok (call_backs, server', w')

begin-provides :
    {W : Type 0} (system : System W) (server : TcpServer) (w : W)
    → Returns
        (λ r. (r.0.begin_call_back ≡ none) × (r.1.uring ≡ server.uring))
        (begin system server w)
unfolding begin call_backs
begin-provides system server w =
    Returns->>= (Server.begin system server w) (begin-ring system server w)
      λ (server', w') same. Returns-ok (refl, same)

-- For a provider whose constructor and `begin` return, and however the thread that accepts, the one
-- of the ring, new connections made by `createConnection` and calls of `stop` interleave after
-- that, whatever the system and the clients do, whether or not there is a logger, as long as
-- nothing faults: no text is ever queued to be sent, the kernel was asked for reads only, and the
-- free places of the ring and the requests that the kernel has are together at most 1023; a
-- provider answers nothing.
pub provider_reads_only :
    {W : Type 0} (system : System W) (has_logger : Bool) (junk : ℕ → Buffer → ProtocolManager → Msg)
    (addr : TcpAddr) (name : List ℕ) (m m' : ProtocolManager) (made begun now : TcpServer)
    (w w1 w2 w3 : W) (cbs : CallBacks W)
    → construct system addr name w ≡ ok (made, w1)
    → begin system made w1 ≡ ok (cbs, begun, w2)
    → Runs system cbs (read_call_back has_logger junk) (begun, m, w2) (now, m', w3)
    → (now.uring.send_que ≡ [])
      × All IsRead now.uring.submitted
      × (now.uring.free_num + length now.uring.submitted ≤ 1023)
unfolding construct
provider_reads_only system has_logger junk addr name m m' made begun now w w1 w2 w3 cbs constructed
      started runs =
    let fresh : made.uring ≡ Uring.construct 1024 =
      (construct-ring system addr name w).result (made, w1) constructed in
    let (nobody, same) = (begin-provides system made w1).result (cbs, begun, w2) started in
    let r : Reach (read_call_back has_logger junk) (Uring.construct 1024, m) (now.uring, m') =
      subst (λ u. Reach (read_call_back has_logger junk) (u, m) (now.uring, m')) (same ∙ fresh)
        (Runs-ring system cbs (read_call_back has_logger junk) nobody runs) in
    let (none_queued, only_reads) = provider_asks_for_reads has_logger junk 1024 m r in
    (
      none_queued,
      only_reads,
      submitted_bounded (read_call_back has_logger junk) 1024 m
          (Reach-bounded (read_call_back has_logger junk) r),
    )
