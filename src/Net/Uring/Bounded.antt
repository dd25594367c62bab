-- ===== src/Net/Uring/Bounded.antt =====
-- Net/Uring: the kernel never has more requests than the ring was made for.
use fish_rpc.Prelude.{
  ltb, leb, ◌==◌, Option-cases, length, get_elem?, take, length-append, length-take, ℕ, zero, suc,
  ◌+◌, ◌-◌, ◌^◌, ◌≤◌, ◌≡◌, refl, ap, ◌∙◌, inl, inr, Bool, some, List, [], ◌∷◌, arith,
}
use fish_rpc.Prelude.Outcome.{Outcome, ok, anyhow, Returns-map}
use fish_rpc.Prelude.Int.{ℤ, to_word}
use fish_rpc.Prelude.Outcome.{
  Returns, Returns-ok, Returns->>=, Returns-check, Returns-if, Returns-when, anyhow, Returns-map,
  Returns,
}
use fish_rpc.Net.Buffer
use fish_rpc.Net.Buffer.{Buffer, copy_in}
use fish_rpc.Net.Uring
use fish_rpc.Net.Uring.{
  Uring, Channel, UringRequest, Region, TaskOption, add_write_request, add_read_request, channel_of,
  put_channel, new_channel, add_new_fd, remove_fd, send, reduse_send, on_write, sends, lookup,
}
use fish_rpc.Net.Uring.Loop.{
  Completion, remove_at, submit_recv, submit_send, begin_recv, begin_send, resume, on_read,
  complete, completes, event_loop, handle,
}
use fish_rpc.Net.Uring.Requests.{
  Gains, refl-Gains, trans-Gains, close-Gains, send-Gains, sends-Gains, add_new_fd-Gains, one_more,
  on_write-Gains,
}

submit_recv-Gains : (fds : List ℕ) (u : Uring) → Returns (Gains (length fds) u) (submit_recv fds u)
unfolding submit_recv
submit_recv-Gains [] u = Returns-ok (refl-Gains refl refl refl)
submit_recv-Gains (fd ∷ fds) u = Returns->>= (channel_of fd u) anyhow λ c _.
    Returns-check (c.fd == fd) _ (
      Returns-map (submit_recv-Gains fds _) λ w g. record {
        no_more = omega (arith, g.no_more, length-append u.submitted (_ ∷ []));
        same_size = g.same_size;
      })

submit_send-Gains :
    (requests : List (ℕ × Region)) (u : Uring)
    → Returns (Gains (length requests) u) (submit_send requests u)
unfolding submit_send
submit_send-Gains [] u = Returns-ok (refl-Gains refl refl refl)
submit_send-Gains ((fd, region) ∷ requests) u = Returns->>= (channel_of fd u) anyhow λ c _.
    Returns-map (submit_send-Gains requests _) λ w g. record {
      no_more = omega (arith, g.no_more, length-append u.submitted (_ ∷ []));
      same_size = g.same_size;
    }

-- Places that a queue takes are places that were free.
takes :
    {k : ℕ} {u v w : Uring}
    → v.free_num + k ≡ u.free_num
    → v.submitted ≡ u.submitted
    → v.queue_size ≡ u.queue_size
    → Gains k v w
    → Gains 0 u w
takes e s q g = record {
  no_more = omega (arith, g.no_more, ap length s);
  same_size = g.same_size ∙ q;
}

begin_recv-Gains : (u : Uring) → Returns (Gains 0 u) (begin_recv u)
unfolding begin_recv
begin_recv-Gains u = Returns-if (length u.recv_que == 0) (Returns-ok (refl-Gains refl refl refl)) (
    Returns-when (leb (length u.recv_que) u.free_num)
      (λ fits.
        Returns-map (submit_recv-Gains u.recv_que _) λ w g. takes (grind (arith, fits)) refl refl g)
      λ over.
        Returns-map (submit_recv-Gains (take u.free_num u.recv_que) _)
          λ w g. takes (grind (arith, over, length-take u.free_num u.recv_que)) refl refl g)

begin_send-Gains : (u : Uring) → Returns (Gains 0 u) (begin_send u)
unfolding begin_send
begin_send-Gains u = Returns-if (length u.send_que == 0) (Returns-ok (refl-Gains refl refl refl)) (
    Returns-when (leb (length u.send_que) u.free_num)
      (λ fits.
        Returns-map (submit_send-Gains u.send_que _) λ w g. takes (grind (arith, fits)) refl refl g)
      λ over.
        Returns-map (submit_send-Gains (take u.free_num u.send_que) _)
          λ w g. takes (grind (arith, over, length-take u.free_num u.send_que)) refl refl g)

length-remove_at :
    {A : Type 0} (xs : List A) (i : ℕ) {x : A}
    → get_elem? xs i ≡ some x
    → length (remove_at i xs) + 1 ≡ length xs
unfolding remove_at
length-remove_at [] i h = cc
length-remove_at (x ∷ xs) zero h = omega arith
length-remove_at (x ∷ xs) (suc i) h = omega (arith, length-remove_at xs i h)

module _ {S : Type 0} (read_call_back : ℕ → Buffer → S → Outcome (List (List ℕ) × Buffer × S)) where
  resume-Gains :
      (fd : ℕ) (u : Uring) (s : S)
      → Returns (λ (x : Uring × S). Gains 0 u x.0) (resume read_call_back fd u s)
  unfolding resume put_channel add_read_request
  resume-Gains fd u s = Returns->>= (channel_of fd u) anyhow λ c _. Returns-check c.running _ (
      Returns-if (length (Buffer.dis_read c.read_buf) == 0)
        (Returns-check (ltb 0 c.send_flag) _ (Returns-ok (refl-Gains refl refl refl)))
        (Returns->>= (read_call_back fd c.read_buf s) anyhow λ (texts, b, s') _.
          Returns->>= (sends fd texts (put_channel fd (record c { read_buf = b }) u))
            (sends-Gains fd texts _)
            λ v g. Returns-ok (
              trans-Gains (refl-Gains refl refl refl) (trans-Gains g (refl-Gains refl refl refl)))))

  on_read-Gains :
      (fd : ℕ) (res : ℤ) (no_error : Bool) (bytes : List ℕ) (u : Uring) (s : S)
      → Returns
          (λ (x : Uring × S). Gains 1 u x.0)
          (on_read read_call_back fd res no_error bytes u s)
  unfolding on_read put_channel
  on_read-Gains fd res no_error bytes u s = Returns->>= (channel_of fd u) anyhow λ c _.
      Returns-if _
        (Returns->>= (Uring.close fd u) (close-Gains fd u) λ v g. Returns-ok (one_more g))
        (Returns->>= (copy_in bytes c.read_buf.write_index c.read_buf.buf) anyhow λ buf' _.
          Returns->>= (Buffer.already (to_word (2 ^ 64) res) _) anyhow λ b _.
            Returns->>= (resume read_call_back fd _ s) (resume-Gains fd _ s)
              λ (v, s') g. Returns-ok (one_more (trans-Gains (refl-Gains refl refl refl) g)))

  handle-Gains :
      (type : TaskOption) (fd : ℕ) (c : Completion) (u : Uring) (s : S)
      → Returns (λ (x : Uring × S). Gains 1 u x.0) (handle read_call_back type fd c u s)
  unfolding handle
  handle-Gains TaskOption.read fd c u s = on_read-Gains fd c.res c.no_error c.bytes u s
  handle-Gains TaskOption.write fd c u s =
      Returns->>= (on_write fd c.res u) (on_write-Gains fd c.res u) λ v g. Returns-ok g

  complete-Gains :
      (c : Completion) (u : Uring) (s : S)
      → Returns (λ (x : Uring × S). Gains 0 u x.0) (complete read_call_back c u s)
  unfolding complete
  complete-Gains c u s = elim (Option-cases (get_elem? u.submitted c.index)) [
    | inl e ↦ rw (e, complete) (Returns-ok (refl-Gains refl refl refl))
    | inr (request, e) ↦
        rw (e, complete)
          (Returns-map (handle-Gains request.event_type request.client_socket c _ s) λ (v, s') g.
            record {
              no_more = omega (arith, g.no_more, length-remove_at u.submitted c.index e);
              same_size = g.same_size;
            })
  ]

  completes-Gains :
      (cs : List Completion) (u : Uring) (s : S)
      → Returns (λ (x : Uring × S). Gains 0 u x.0) (completes read_call_back cs u s)
  unfolding completes
  completes-Gains [] u s = Returns-ok (refl-Gains refl refl refl)
  completes-Gains (c ∷ cs) u s =
      Returns->>= (complete read_call_back c u s) (complete-Gains c u s)
        λ (v, s') g. Returns-map (completes-Gains cs v s') λ x. trans-Gains g

  event_loop-Gains :
      (cs : List Completion) (u : Uring) (s : S)
      → Returns (λ (x : Uring × S). Gains 0 u x.0) (event_loop read_call_back cs u s)
  unfolding event_loop
  event_loop-Gains cs u s =
      Returns->>= (completes read_call_back cs u s) (completes-Gains cs u s) λ (v, s') g.
        Returns->>= (begin_recv v) (begin_recv-Gains v) λ w h.
          Returns->>= (begin_send w) (begin_send-Gains w)
            λ x k. Returns-ok (trans-Gains g (trans-Gains h k))

  -- A step of the process: the loop of the ring, or a call from outside of it.
  pub data Step : Uring × S → Uring × S → Type 0 where
    loop :
        {u v : Uring} {s s' : S} (cs : List Completion)
        → event_loop read_call_back cs u s ≡ ok (v, s')
        → Step (u, s) (v, s')
    connect : {u v : Uring} {s : S} (fd : ℕ) → add_new_fd fd u ≡ ok v → Step (u, s) (v, s)
    text :
        {u v : Uring} {s : S} (fd : ℕ) (view : List ℕ) → send fd view u ≡ ok v → Step (u, s) (v, s)
    leave : {u v : Uring} {s : S} (fd : ℕ) → Uring.close fd u ≡ ok v → Step (u, s) (v, s)

  pub data Reach (x : Uring × S) : Uring × S → Type 0 where
    here : Reach x x
    next : {y z : Uring × S} → Reach x y → Step y z → Reach x z

  Step-Gains : {x y : Uring × S} → Step x y → Gains 0 x.0 y.0
  Step-Gains (loop {u} {s} cs e) = (event_loop-Gains cs u s).result _ e
  Step-Gains (connect {u} fd e) = (add_new_fd-Gains fd u).result _ e
  Step-Gains (text {u} fd view e) = (send-Gains fd view u).result _ e
  Step-Gains (leave {u} fd e) = (close-Gains fd u).result _ e

  Reach-Gains : {x y : Uring × S} → Reach x y → Gains 0 x.0 y.0
  Reach-Gains here = refl-Gains refl refl refl
  Reach-Gains (next r st) = trans-Gains (Reach-Gains r) (Step-Gains st)

  -- Whatever the callback and the kernel do: in every state that turns of the loop, new
  -- connections, sent texts and closed channels lead to from a ring for `queue_size` requests, the
  -- free places and the requests with the kernel are together at most `queue_size` - 1.
  pub submitted_bounded :
      (queue_size : ℕ) (s : S) {u : Uring} {s' : S}
      → Reach (Uring.construct queue_size, s) (u, s')
      → u.free_num + length u.submitted ≤ queue_size - 1
  unfolding Uring.construct
  submitted_bounded queue_size s r = omega (arith, (Reach-Gains r).no_more)
