-- ===== src/Net/Uring/Quiet.antt =====
-- Net/Uring: a server whose callback sends nothing never asks the kernel to send.
use fish_rpc.Prelude.{
  ltb, leb, ◌==◌, Option-cases, length, get_elem?, take, All, All-append, ℕ, zero, suc, ◌^◌, ◌≡◌,
  refl, subst, inl, inr, Bool, some, List, [], ◌∷◌,
}
use fish_rpc.Prelude.Outcome.{Outcome, ok}
use fish_rpc.Prelude.Int.{ℤ, to_word}
use fish_rpc.Prelude.Outcome.{Returns, Returns-ok, Returns->>=, Returns-check, Returns-if, anyhow}
use mathlib.Core.Option.{some_inj}
use fish_rpc.Prelude.Assoc.{lookup}
use fish_rpc.Net.Buffer
use fish_rpc.Net.Buffer.{Buffer, copy_in}
use fish_rpc.Net.Uring
use fish_rpc.Net.Uring.{
  Uring, Channel, UringRequest, Region, TaskOption, add_read_request, channel_of, put_channel,
  add_new_fd, remove_fd, sends,
}
use fish_rpc.Net.Uring.Loop.{
  Completion, remove_at, submit_recv, begin_recv, begin_send, resume, on_read, handle, complete,
  completes, event_loop,
}

abbrev pub IsRead : UringRequest → Type 0
IsRead r = r.event_type ≡ TaskOption.read

-- Nothing is queued to be sent, and the kernel was asked for reads only.
pub record Quiet (u : Uring) : Type 0 where
  pub none_queued : u.send_que ≡ []
  pub only_reads : All IsRead u.submitted

remove_fd-Quiet : (fd : ℕ) {u : Uring} → Quiet u → Returns Quiet (remove_fd fd u)
unfolding remove_fd
remove_fd-Quiet fd {u} q =
    Returns->>= (channel_of fd u) anyhow
      λ c _. Returns-ok (record { none_queued = q.none_queued; only_reads = q.only_reads })

close-Quiet : (fd : ℕ) {u : Uring} → Quiet u → Returns Quiet (Uring.close fd u)
unfolding Uring.close put_channel
close-Quiet fd {u} q = Returns->>= (channel_of fd u) anyhow λ c _.
    Returns-if (ltb 0 c.send_flag)
      (Returns-ok (record { none_queued = q.none_queued; only_reads = q.only_reads }))
      (Returns-check c.running _ (remove_fd-Quiet fd q))

add_new_fd-Quiet : (fd : ℕ) {u : Uring} → Quiet u → Returns Quiet (add_new_fd fd u)
unfolding add_new_fd put_channel add_read_request
add_new_fd-Quiet fd {u} q = elim (Option-cases (lookup fd u.connections)) [
  | inl e ↦
      rw (e, add_new_fd)
        (Returns-ok (record { none_queued = q.none_queued; only_reads = q.only_reads }))
  | inr (c, e) ↦ rw (e, add_new_fd) (record { result = λ a h. cc })
]

submit_recv-Quiet : (fds : List ℕ) {u : Uring} → Quiet u → Returns Quiet (submit_recv fds u)
unfolding submit_recv
submit_recv-Quiet [] q = Returns-ok q
submit_recv-Quiet (fd ∷ fds) {u} q = Returns->>= (channel_of fd u) anyhow λ c _.
    Returns-check (c.fd == fd) _ (
      submit_recv-Quiet fds (record {
        none_queued = q.none_queued;
        only_reads = All-append IsRead u.submitted (_ ∷ []) q.only_reads (refl, tt);
      }))

begin_recv-Quiet : {u : Uring} → Quiet u → Returns Quiet (begin_recv u)
unfolding begin_recv
begin_recv-Quiet {u} q = Returns-if (length u.recv_que == 0) (Returns-ok q) (
    Returns-if (leb (length u.recv_que) u.free_num)
      (submit_recv-Quiet u.recv_que
        (record { none_queued = q.none_queued; only_reads = q.only_reads }))
      (submit_recv-Quiet (take u.free_num u.recv_que)
        (record { none_queued = q.none_queued; only_reads = q.only_reads })))

begin_send-Quiet : {u : Uring} → Quiet u → begin_send u ≡ ok u
unfolding begin_send
begin_send-Quiet {u} q = rw q.none_queued refl

get_elem?-All :
    {A : Type 0} (P : A → Type 0) (xs : List A) (i : ℕ) {x : A}
    → All P xs
    → get_elem? xs i ≡ some x
    → P x
get_elem?-All P [] i h e = cc
get_elem?-All P (y ∷ xs) zero h e = subst P (some_inj.0 e) h.0
get_elem?-All P (y ∷ xs) (suc i) h e = get_elem?-All P xs i h.1 e

remove_at-All :
    {A : Type 0} (P : A → Type 0) (i : ℕ) (xs : List A) → All P xs → All P (remove_at i xs)
unfolding remove_at
remove_at-All P i [] h = tt
remove_at-All P zero (x ∷ xs) h = h.1
remove_at-All P (suc i) (x ∷ xs) h = (h.0, remove_at-All P i xs h.1)

module _ {S : Type 0} (read_call_back : ℕ → Buffer → S → Outcome (List (List ℕ) × Buffer × S)) where
  -- A step of a process that sends nothing of its own accord.
  pub data Step : Uring × S → Uring × S → Type 0 where
    loop :
        {u v : Uring} {s s' : S} (cs : List Completion)
        → event_loop read_call_back cs u s ≡ ok (v, s')
        → Step (u, s) (v, s')
    connect : {u v : Uring} {s : S} (fd : ℕ) → add_new_fd fd u ≡ ok v → Step (u, s) (v, s)
    leave : {u v : Uring} {s : S} (fd : ℕ) → Uring.close fd u ≡ ok v → Step (u, s) (v, s)

  pub data Reach (x : Uring × S) : Uring × S → Type 0 where
    here : Reach x x
    next : {y z : Uring × S} → Reach x y → Step y z → Reach x z

module _ {S : Type 0} (read_call_back : ℕ → Buffer → S → Outcome (List (List ℕ) × Buffer × S))
    (silent : (fd : ℕ) (b : Buffer) (s : S)
      → Returns (λ (x : List (List ℕ) × Buffer × S). x.0 ≡ []) (read_call_back fd b s)) where
  resume-Quiet :
      (fd : ℕ) {u : Uring} (s : S)
      → Quiet u
      → Returns (λ (x : Uring × S). Quiet x.0) (resume read_call_back fd u s)
  unfolding resume put_channel add_read_request sends
  resume-Quiet fd {u} s q = Returns->>= (channel_of fd u) anyhow λ c _. Returns-check c.running _ (
      Returns-if (length (Buffer.dis_read c.read_buf) == 0)
        (Returns-check (ltb 0 c.send_flag) _
          (Returns-ok (record { none_queued = q.none_queued; only_reads = q.only_reads })))
        (Returns->>= (read_call_back fd c.read_buf s) (silent fd c.read_buf s)
          λ (texts, b, s') nothing.
            rw nothing
              (Returns-ok (record { none_queued = q.none_queued; only_reads = q.only_reads }))))

  on_read-Quiet :
      (fd : ℕ) (res : ℤ) (no_error : Bool) (bytes : List ℕ) {u : Uring} (s : S)
      → Quiet u
      → Returns (λ (x : Uring × S). Quiet x.0) (on_read read_call_back fd res no_error bytes u s)
  unfolding on_read put_channel
  on_read-Quiet fd res no_error bytes {u} s q = Returns->>= (channel_of fd u) anyhow λ c _.
      Returns-if _
        (Returns->>= (Uring.close fd u) (close-Quiet fd q)
          λ v w. Returns-ok (record { none_queued = w.none_queued; only_reads = w.only_reads }))
        (Returns->>= (copy_in bytes c.read_buf.write_index c.read_buf.buf) anyhow λ buf' _.
          Returns->>= (Buffer.already (to_word (2 ^ 64) res) _) anyhow λ b _.
            Returns->>= (resume read_call_back fd _ s)
              (resume-Quiet fd s
                (record { none_queued = q.none_queued; only_reads = q.only_reads }))
              λ (v, s') w.
                Returns-ok (record { none_queued = w.none_queued; only_reads = w.only_reads }))

  handle-Quiet :
      (type : TaskOption) (fd : ℕ) (c : Completion) {u : Uring} (s : S)
      → type ≡ TaskOption.read
      → Quiet u
      → Returns (λ (x : Uring × S). Quiet x.0) (handle read_call_back type fd c u s)
  unfolding handle
  handle-Quiet TaskOption.read fd c s e q = on_read-Quiet fd c.res c.no_error c.bytes s q
  handle-Quiet TaskOption.write fd c s e q = cc

  complete-Quiet :
      (c : Completion) {u : Uring} (s : S)
      → Quiet u
      → Returns (λ (x : Uring × S). Quiet x.0) (complete read_call_back c u s)
  unfolding complete
  complete-Quiet c {u} s q = elim (Option-cases (get_elem? u.submitted c.index)) [
    | inl e ↦ rw (e, complete) (Returns-ok q)
    | inr (request, e) ↦
        rw (e, complete)
          (handle-Quiet request.event_type request.client_socket c s
            (get_elem?-All IsRead u.submitted c.index q.only_reads e)
            (record {
              none_queued = q.none_queued;
              only_reads = remove_at-All IsRead c.index u.submitted q.only_reads;
            }))
  ]

  completes-Quiet :
      (cs : List Completion) {u : Uring} (s : S)
      → Quiet u
      → Returns (λ (x : Uring × S). Quiet x.0) (completes read_call_back cs u s)
  unfolding completes
  completes-Quiet [] s q = Returns-ok q
  completes-Quiet (c ∷ cs) {u} s q =
      Returns->>= (complete read_call_back c u s) (complete-Quiet c s q)
        λ (v, s') w. completes-Quiet cs s' w

  event_loop-Quiet :
      (cs : List Completion) {u : Uring} (s : S)
      → Quiet u
      → Returns (λ (x : Uring × S). Quiet x.0) (event_loop read_call_back cs u s)
  unfolding event_loop
  event_loop-Quiet cs {u} s q =
      Returns->>= (completes read_call_back cs u s) (completes-Quiet cs s q) λ (v, s') w.
        Returns->>= (begin_recv v) (begin_recv-Quiet w)
          λ x y. rw (begin_send-Quiet y) (Returns-ok y)

  Step-Quiet : {x y : Uring × S} → Quiet x.0 → Step read_call_back x y → Quiet y.0
  Step-Quiet q (loop {s} cs e) = (event_loop-Quiet cs s q).result _ e
  Step-Quiet q (connect fd e) = (add_new_fd-Quiet fd q).result _ e
  Step-Quiet q (leave fd e) = (close-Quiet fd q).result _ e

  pub Reach-Quiet : {x y : Uring × S} → Quiet x.0 → Reach read_call_back x y → Quiet y.0
  Reach-Quiet q here = q
  Reach-Quiet q (next r st) = Step-Quiet (Reach-Quiet q r) st
