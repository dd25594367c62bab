-- ===== src/Net/Uring/Queues.antt =====
-- Net/Uring: what the end of a turn of the loop submits, from the queue of reads and the queue of
-- writes.
use fish_rpc.Prelude.{
  length-zero, leb, ◌==◌, if◌then◌else◌, ==_refl, ==→eq, Bool-cases, length, take, drop, All,
  take_all, drop_all, ℕ, zero, suc, ◌-◌, min, ◌≡◌, refl, sym, ap, ◌∙◌, inl, inr, some, List, [],
  ◌∷◌, ◌++◌, map, append-nil, append_assoc, arith,
}
use fish_rpc.Prelude.Outcome.{ok, ◌>>=◌}
use fish_rpc.Net.Buffer
use fish_rpc.Net.Uring
use fish_rpc.Net.Uring.{Uring, Channel, UringRequest, Region, TaskOption, channel_of, lookup, false}
use fish_rpc.Net.Uring.Loop.{submit_recv, submit_send, begin_recv, begin_send}

-- The channel of the descriptor is there, under its own descriptor.
abbrev pub IsOpen : Uring → ℕ → Type 0
IsOpen u fd = (c : Channel) × (lookup fd u.connections ≡ some c) × (c.fd ≡ fd)

abbrev pub kind : UringRequest → TaskOption × ℕ
kind r = (r.event_type, r.client_socket)

-- The request names the free memory behind the write index of the read buffer of its channel.
abbrev pub IntoFree : Uring → UringRequest → Type 0
IntoFree u r =
    (c : Channel) × (lookup r.client_socket u.connections ≡ some c)
    × (r.region ≡ record {
      in_send = false;
      offset = c.read_buf.write_index;
      size = Buffer.dis_write_size c.read_buf;
    })

-- More requests are with the kernel, and no more than that has changed.
abbrev submit : List UringRequest → Uring → Uring
submit rs u = record u { submitted = u.submitted ++ rs }

submit-submit :
    (rs ss : List UringRequest) (u : Uring) → submit ss (submit rs u) ≡ submit (rs ++ ss) u
submit-submit rs ss u = ap (λ xs. record u { submitted = xs }) (append_assoc u.submitted rs ss)

submit-nil : (u : Uring) → u ≡ submit [] u
submit-nil u = ap (λ xs. record u { submitted = xs }) (sym (append-nil u.submitted))

All-take {κ} : {A : Type 0} (P : A → Type κ) (n : ℕ) (xs : List A) → All P xs → All P (take n xs)
All-take P zero [] h = tt
All-take P zero (x ∷ xs) h = tt
All-take P (suc n) [] h = tt
All-take P (suc n) (x ∷ xs) h = (h.0, All-take P n xs h.1)

channel_of-open :
    (fd : ℕ) {c : Channel} (u : Uring) → lookup fd u.connections ≡ some c → channel_of fd u ≡ ok c
unfolding channel_of
channel_of-open fd u e = rw (e, channel_of) refl

submit_recv-submit :
    (fds : List ℕ) (u : Uring)
    → All (IsOpen u) fds
    → (rs : List UringRequest) × (submit_recv fds u ≡ ok (submit rs u))
      × (map kind rs ≡ map (λ fd. (TaskOption.read, fd)) fds)
      × All (IntoFree u) rs
unfolding submit_recv
submit_recv-submit [] u all = ([], ap ok (submit-nil u), refl, tt)
submit_recv-submit (fd ∷ fds) u ((c, e, same), all) =
    let r : UringRequest = record {
      event_type = TaskOption.read;
      client_socket = fd;
      region = Uring.free_memory c;
    } in
    let (rs, q, k, free) = submit_recv-submit fds (submit (r ∷ []) u) all in
    (
      r ∷ rs,
      rw (channel_of-open fd u e, submit_recv, same, ==_refl fd)
          (q ∙ ap ok (submit-submit (r ∷ []) rs u)),
      ap (λ xs. (TaskOption.read, fd) ∷ xs) k,
      ((c, e, refl), free),
    )

submit_send-submit :
    (requests : List (ℕ × Region)) (u : Uring)
    → All (λ (x : ℕ × Region). IsOpen u x.0) requests
    → (rs : List UringRequest) × (submit_send requests u ≡ ok (submit rs u))
      × (map (λ (r : UringRequest). (r.client_socket, r.region)) rs ≡ requests)
      × (map kind rs ≡ map (λ (x : ℕ × Region). (TaskOption.write, x.0)) requests)
unfolding submit_send
submit_send-submit [] u all = ([], ap ok (submit-nil u), refl, refl)
submit_send-submit ((fd, region) ∷ requests) u ((c, e, same), all) =
    let r : UringRequest = record {
      event_type = TaskOption.write;
      client_socket = fd;
      region = region;
    } in
    let (rs, q, k, l) = submit_send-submit requests (submit (r ∷ []) u) all in
    (
      r ∷ rs,
      rw (channel_of-open fd u e, submit_send) (q ∙ ap ok (submit-submit (r ∷ []) rs u)),
      ap (λ xs. (fd, region) ∷ xs) k,
      ap (λ xs. (TaskOption.write, fd) ∷ xs) l,
    )

-- Either way of taking from a queue takes as much as there are free places.
split-queue :
    {A R : Type 0} (xs : List A) (size free : ℕ) (unchanged : R) (f : List A → ℕ → List A → R)
    → length xs ≡ size
    → (xs ≡ [] → unchanged ≡ f [] free [])
    → (if size == 0
        then unchanged
        else if leb size free
        then f xs (free - size) []
        else f (take free xs) 0 (drop free xs))
      ≡ f (take (min free size) xs) (free - min free size) (drop (min free size) xs)
split-queue xs size free unchanged f len same = elim (Bool-cases (size == 0)) [
  | inl z ↦
      let zero_size : size ≡ 0 = ==→eq size 0 z in
      let none_taken : min free size ≡ 0 = omega (arith, zero_size) in
      let all_free : free - 0 ≡ free = omega arith in
      let bare : xs ≡ [] = length-zero xs (len ∙ zero_size) in
      rw (z, none_taken, all_free, bare) (same bare)
  | inr s ↦ elim (Bool-cases (leb size free)) [
    | inl l ↦
        let all_taken : min free size ≡ size = grind (arith, l) in
        rw
          (
            s,
            l,
            all_taken,
            take_all size xs (omega (arith, len)),
            drop_all size xs (omega (arith, len)),
          )
          refl
    | inr g ↦
        let some_taken : min free size ≡ free = grind (arith, g) in
        let none_left : free - free ≡ 0 = omega arith in rw (s, g, some_taken, none_left) refl
  ]
]

begin_recv-takes :
    (u : Uring)
    → let n = min u.free_num (length u.recv_que) in
      begin_recv u
      ≡ submit_recv
          (take n u.recv_que)
          (record u { free_num = u.free_num - n; recv_que = drop n u.recv_que })
unfolding begin_recv submit_recv
begin_recv-takes u =
    split-queue u.recv_que (length u.recv_que) u.free_num (ok u)
      (λ xs free rest. submit_recv xs (record u { free_num = free; recv_que = rest })) refl
      λ bare. ap (λ xs. ok (record u { recv_que = xs })) bare

begin_send-takes :
    (u : Uring)
    → let n = min u.free_num (length u.send_que) in
      begin_send u
      ≡ submit_send
          (take n u.send_que)
          (record u { free_num = u.free_num - n; send_que = drop n u.send_que })
unfolding begin_send submit_send
begin_send-takes u =
    split-queue u.send_que (length u.send_que) u.free_num (ok u)
      (λ xs free rest. submit_send xs (record u { free_num = free; send_que = rest })) refl
      λ bare. ap (λ xs. ok (record u { send_que = xs })) bare

-- Where the socket of every queued request is connected, with its own channel, the end of a turn
-- submits from the front of the queue of reads as many as there are free places, each into the free
-- memory of the read buffer of its channel, then from the queue of writes as many as there are
-- places left, each with the memory that was queued with it, all in their order; it takes exactly
-- these from the queues and off the free places, and nothing faults.
pub begin_recv-begin_send :
    (u : Uring)
    → All (IsOpen u) u.recv_que
    → All (λ (x : ℕ × Region). IsOpen u x.0) u.send_que
    → let n = min u.free_num (length u.recv_que) in
      let m = min (u.free_num - n) (length u.send_que) in
      (rs : List UringRequest) × (ss : List UringRequest) × ((begin_recv u >>= begin_send)
        ≡ ok (record u {
          free_num = u.free_num - n - m;
          recv_que = drop n u.recv_que;
          send_que = drop m u.send_que;
          submitted = u.submitted ++ rs ++ ss;
        }))
      × (map kind rs ≡ map (λ fd. (TaskOption.read, fd)) (take n u.recv_que))
      × All (IntoFree u) rs
      × (map kind ss ≡ map (λ (x : ℕ × Region). (TaskOption.write, x.0)) (take m u.send_que))
      × (map (λ (r : UringRequest). (r.client_socket, r.region)) ss ≡ take m u.send_que)
begin_recv-begin_send u reads writes =
    let n = min u.free_num (length u.recv_que) in
    let m = min (u.free_num - n) (length u.send_que) in
    let v : Uring = record u { free_num = u.free_num - n; recv_que = drop n u.recv_que } in
    let (rs, e, k, free) =
      submit_recv-submit (take n u.recv_que) v (All-take (IsOpen u) n u.recv_que reads) in
    let w : Uring = record v {
      free_num = u.free_num - n - m;
      submitted = u.submitted ++ rs;
      send_que = drop m u.send_que;
    } in
    let (ss, d, l, o) =
      submit_send-submit (take m u.send_que) w
        (All-take (λ (x : ℕ × Region). IsOpen u x.0) m u.send_que writes) in
    (rs, ss, rw (begin_recv-takes u, e) (begin_send-takes (submit rs v) ∙ d), k, free, o, l)
