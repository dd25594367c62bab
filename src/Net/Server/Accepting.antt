-- ===== src/Net/Server/Accepting.antt =====
-- What the server does with its clients: one that it accepts, and any number of them.
use fish_rpc.Prelude.{
  ◌==◌, if◌then◌else◌, ==→eq, Bool-cases, All, ℕ, suc, ◌%◌, ◌^◌, ◌≤◌, ◌<◌, ◌≡◌, refl, ap, ◌∙◌, inl,
  inr, Bool, false, none, some, List, [], ◌∷◌, ◌++◌, arith,
}
use fish_rpc.Prelude.Outcome.{ok, fault, Fault}
use fish_rpc.Prelude.Int.{ℤ, pos}
use fish_rpc.Prelude.Outcome.{Returns, Returns->>=, Returns-ok, Returns-when, anyhow}
use fish_rpc.Net.TcpAddr.Texts.{avlid_sound, avlid_complete}
use native.Mathlib.Nat.{mod-eq_of_lt}
use fish_rpc.Prelude.Assoc.{lookup, insert, lookup-insert, All-insert}
use fish_rpc.Base.Loop.{Thread}
use fish_rpc.Base.Loop.Keeps.{begin_in_new_thread-keeps}
use fish_rpc.Net.TcpAddr.{TcpAddr, SockaddrIn, htons, ntohs, c_str, avlid, of_sockaddr}
use fish_rpc.Net.Uring.{Uring, new_channel, add_new_fd, add_read_request, put_channel}
use fish_rpc.Net.Server.{
  TcpServer, System, CallBacks, sockaddr, tell_new, take_client, listen_in_loop, does,
  accept_clients, address_of, descriptor, written,
}

ntohs-htons : (p : ℕ) → p < 2 ^ 16 → ntohs (htons p) ≡ p
unfolding ntohs htons
ntohs-htons p h = omega arith

ntohs-bounded : (p : ℕ) → ntohs p < 2 ^ 16
unfolding ntohs htons
ntohs-bounded p = omega arith

add_new_fd-fresh :
    (fd : ℕ) (u : Uring)
    → lookup fd u.connections ≡ none
    → add_new_fd fd u ≡ ok (add_read_request fd (put_channel fd (new_channel fd 1024) u))
unfolding add_new_fd
add_new_fd-fresh fd u fresh = rw (add_new_fd, fresh) refl

module _ {W : Type 0} (system : System W) where
  -- An address of a client: a port that is not 0, and an ip that `inet_pton` takes.
  abbrev pub IsAddress : TcpAddr → Type 0
  IsAddress a =
      (s : ℕ) × (n : ℕ) × (system.inet_pton (c_str a.ip) ≡ some s)
      × (a.port ≡ pos n)
      × (0 < n)
      × (n < 2 ^ 16)

  of_sockaddr-IsAddress :
      (client : SockaddrIn)
      → Returns IsAddress (of_sockaddr system.inet_pton system.inet_ntop client)
  unfolding of_sockaddr
  of_sockaddr-IsAddress client =
      Returns-when
        (avlid system.inet_pton system.inet_ntop (system.inet_ntop client.sin_addr)
          (pos (ntohs client.sin_port)))
        (λ valid.
          let (s, e, more, few) =
            avlid_sound system.inet_pton system.inet_ntop (system.inet_ntop client.sin_addr)
              (ntohs client.sin_port) valid in
          Returns-ok (s, ntohs client.sin_port, e, refl, more, ntohs-bounded client.sin_port))
        (λ invalid. record { result = λ a r. cc })

  refused_zero : (ip : List ℕ) → avlid system.inet_pton system.inet_ntop ip (pos 0) ≡ false
  refused_zero ip = elim (Bool-cases (avlid system.inet_pton system.inet_ntop ip (pos 0))) [
    | inl valid ↦
        let (s, e, more, few) = avlid_sound system.inet_pton system.inet_ntop ip 0 valid in
        absurd (omega arith)
    | inr e ↦ e
  ]

  -- For an ip that `inet_pton` takes and `inet_ntop` gives back and a port from 1 to 65536, an
  -- address that is read from the `sockaddr_in` that `createConnection` makes is the same address
  -- again, but for port 65536, where it is refused.
  pub of_sockaddr-sockaddr :
      (ip : List ℕ) (n s : ℕ)
      → system.inet_pton (c_str ip) ≡ some s
      → system.inet_ntop s ≡ ip
      → 0 < n
      → n ≤ 65536
      → of_sockaddr system.inet_pton system.inet_ntop
          (sockaddr (address_of system (record { ip = ip; port = pos n })) (pos n))
        ≡ (if n == 65536 then fault Fault.runtime_error else ok (record { ip = ip; port = pos n }))
  unfolding of_sockaddr sockaddr address_of
  of_sockaddr-sockaddr ip n s e back more few =
      let address : address_of system (record { ip = ip; port = pos n }) ≡ s = ap written e in
      let taken : system.inet_pton (c_str (system.inet_ntop s)) ≡ some s =
        ap (λ t. system.inet_pton (c_str t)) back ∙ e in
      elim (Bool-cases (n == 65536)) [
        | inl all ↦
            let port : ntohs (htons (n % 2 ^ 16)) ≡ 0 =
              ap (λ m. ntohs (htons (m % 2 ^ 16))) (==→eq n 65536 all)
              ∙ ntohs-htons 0 (omega arith) in
            rw (address, all, port) (rw (refused_zero (system.inet_ntop s)) refl)
        | inr less ↦
            let small : n < 2 ^ 16 = ground (arith, less) in
            let port : ntohs (htons (n % 2 ^ 16)) ≡ n =
              ap (λ m. ntohs (htons m)) (mod-eq_of_lt small) ∙ ntohs-htons n small in
            rw
              (
                address,
                less,
                port,
                avlid_complete system.inet_pton system.inet_ntop (system.inet_ntop s) n s taken more
                    few,
                back,
              )
              refl
      ]

  of_sockaddr-valid :
      (client : SockaddrIn) (s : ℕ)
      → system.inet_pton (c_str (system.inet_ntop client.sin_addr)) ≡ some s
      → 0 < ntohs client.sin_port
      → of_sockaddr system.inet_pton system.inet_ntop client
        ≡ ok (record { ip = system.inet_ntop client.sin_addr; port = pos (ntohs client.sin_port) })
  unfolding of_sockaddr
  of_sockaddr-valid client s taken more =
      rw
        (avlid_complete system.inet_pton system.inet_ntop (system.inet_ntop client.sin_addr)
          (ntohs client.sin_port) s taken more (omega (arith, ntohs-bounded client.sin_port)))
        refl

  module _ (call_backs : CallBacks W) where
    take_client-IsAddress :
        (accepted : ℤ) (client : SockaddrIn) (server : TcpServer) (w : W)
        → All (λ e. IsAddress e.1) server.channel_addrs
        → Returns
            (λ r. All (λ e. IsAddress e.1) r.0.channel_addrs)
            (take_client system call_backs accepted client server w)
    unfolding take_client
    take_client-IsAddress accepted client server w h =
        Returns->>= (descriptor accepted) anyhow λ fd u.
          Returns->>= (tell_new system call_backs call_backs.new_call_back fd w) anyhow λ w' v.
            Returns->>= (add_new_fd fd server.uring) anyhow λ uring x.
              Returns->>= (of_sockaddr system.inet_pton system.inet_ntop client)
                (of_sockaddr-IsAddress client)
                λ addr a. Returns-ok (All-insert IsAddress fd addr server.channel_addrs a h)

    -- Whatever the system and the callbacks do and however many turns the loop of the server takes:
    -- where every channel with an address had one with a port from 1 to 65535 and an ip that
    -- `inet_pton` takes, and where the thread comes to a state without a fault, every channel with
    -- an address has such a one.
    pub accept_clients-IsAddress :
        (stops : W → Bool) (turns : ℕ) (t : Thread) (server : TcpServer) (w : W)
        → All (λ e. IsAddress e.1) server.channel_addrs
        → Returns
            (λ r. All (λ e. IsAddress e.1) r.3.0.channel_addrs)
            (accept_clients system call_backs stops turns t server w)
    unfolding accept_clients does listen_in_loop
    accept_clients-IsAddress stops turns t server w h =
        begin_in_new_thread-keeps (does system call_backs stops)
          (λ (server', w'). All (λ e. IsAddress e.1) server'.channel_addrs)
          (λ task (server', w') k.
            let (accepted, client, w'') = system.accept server'.listen_fd w' in
            Returns->>= (take_client system call_backs accepted client server' w'')
              (take_client-IsAddress accepted client server' w'' k)
              (λ (server'', w3) a. Returns-ok a))
          turns t server.loop (server, w) h

    -- Where `accept` gives a positive descriptor that no channel has, the callback of a new
    -- connection returns, and `inet_pton` takes what `inet_ntop` makes of the client's address,
    -- whose port is not 0: `listen_in_loop` returns; the connections are those there were with a
    -- fresh channel under the descriptor, its address is that of the client and the other addresses
    -- stay, one read is queued for it behind the others, and nothing is submitted yet.
    pub listen_in_loop-connects :
        (server : TcpServer) (client : SockaddrIn) (w w' w'' : W) (k s : ℕ)
        → system.accept server.listen_fd w ≡ (pos (suc k), client, w')
        → tell_new system call_backs call_backs.new_call_back (suc k) w' ≡ ok w''
        → lookup (suc k) server.uring.connections ≡ none
        → system.inet_pton (c_str (system.inet_ntop client.sin_addr)) ≡ some s
        → 0 < ntohs client.sin_port
        → (server' : TcpServer) × (listen_in_loop system call_backs server w ≡ ok (server', w''))
          × ((fd : ℕ)
              → lookup fd server'.uring.connections ≡ (
                  if suc k == fd
                  then some (new_channel (suc k) 1024)
                  else lookup fd server.uring.connections))
          × ((fd : ℕ)
              → lookup fd server'.channel_addrs ≡ (
                  if suc k == fd
                  then some (record {
                    ip = system.inet_ntop client.sin_addr;
                    port = pos (ntohs client.sin_port);
                  })
                  else lookup fd server.channel_addrs))
          × (server'.uring.recv_que ≡ server.uring.recv_que ++ (suc k ∷ []))
          × (server'.uring.submitted ≡ server.uring.submitted)
    unfolding listen_in_loop take_client add_read_request put_channel
    listen_in_loop-connects server client w w' w'' k s accepted told fresh taken more =
        let addr : TcpAddr = record {
          ip = system.inet_ntop client.sin_addr;
          port = pos (ntohs client.sin_port);
        } in
        (
          record server {
            uring =
                add_read_request (suc k)
                  (put_channel (suc k) (new_channel (suc k) 1024) server.uring);
            channel_addrs = insert (suc k) addr server.channel_addrs;
          },
          rw
              (
                accepted,
                told,
                add_new_fd-fresh (suc k) server.uring fresh,
                of_sockaddr-valid client s taken more,
              )
              refl,
          λ fd. lookup-insert (suc k) fd _ _,
          λ fd. lookup-insert (suc k) fd _ _,
          refl,
          refl,
        )
