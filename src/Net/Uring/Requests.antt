-- ===== src/Net/Uring/Requests.antt =====
-- Net/Uring: how the calls on channels and the completions of writes change the number of requests.
use fish_rpc.Prelude.{
  ltb, ◌==◌, Option-cases, length, ℕ, ◌+◌, ◌-◌, ◌≤◌, ◌≡◌, refl, ◌∙◌, inl, inr, ◌&&◌, List, [], ◌∷◌,
  arith,
}
use fish_rpc.Prelude.Outcome.{anyhow, Returns-map}
use fish_rpc.Prelude.Int.{ℤ}
use fish_rpc.Prelude.Outcome.{
  Returns, Returns-ok, Returns->>=, Returns-check, Returns-if, anyhow, Returns-map, Returns,
}
use fish_rpc.Net.Buffer
use fish_rpc.Net.Buffer.{Buffer, copy_in}
use fish_rpc.Net.Uring
use fish_rpc.Net.Uring.{
  Uring, Channel, UringRequest, Region, TaskOption, add_write_request, add_read_request, channel_of,
  put_channel, new_channel, add_new_fd, remove_fd, send, reduse_send, on_write, sends, lookup,
}

-- The requests that are free or with the kernel.
abbrev pub places : Uring → ℕ
places u = u.free_num + length u.submitted

-- No more than `k` of them more than before, in a queue of the same size.
pub record Gains (k : ℕ) (u u' : Uring) : Type 0 where
  pub no_more : places u' ≤ places u + k
  pub same_size : u'.queue_size ≡ u.queue_size

pub refl-Gains :
    {u u' : Uring}
    → u'.free_num ≡ u.free_num
    → u'.submitted ≡ u.submitted
    → u'.queue_size ≡ u.queue_size
    → Gains 0 u u'
refl-Gains f s q = record { no_more = rw (f, s) (omega arith); same_size = q }

pub trans-Gains : {k : ℕ} {u v w : Uring} → Gains 0 u v → Gains k v w → Gains k u w
trans-Gains a b = record {
  no_more = omega (arith, a.no_more, b.no_more);
  same_size = b.same_size ∙ a.same_size;
}

remove_fd-Gains : (fd : ℕ) (u : Uring) → Returns (Gains 0 u) (remove_fd fd u)
unfolding remove_fd
remove_fd-Gains fd u =
    Returns->>= (channel_of fd u) anyhow λ c _. Returns-ok (refl-Gains refl refl refl)

pub close-Gains : (fd : ℕ) (u : Uring) → Returns (Gains 0 u) (Uring.close fd u)
unfolding Uring.close put_channel
close-Gains fd u = Returns->>= (channel_of fd u) anyhow λ c _.
    Returns-if (ltb 0 c.send_flag) (Returns-ok (refl-Gains refl refl refl))
      (Returns-check c.running _ (remove_fd-Gains fd u))

pub send-Gains : (fd : ℕ) (view : List ℕ) (u : Uring) → Returns (Gains 0 u) (send fd view u)
unfolding send put_channel add_write_request
send-Gains fd view u = Returns->>= (channel_of fd u) anyhow λ c _.
    Returns-if c.close_flag (Returns-ok (refl-Gains refl refl refl)) (
      Returns->>= (Buffer.input view c.send_buf) anyhow
        λ b _. Returns-ok (refl-Gains refl refl refl))

pub sends-Gains :
    (fd : ℕ) (views : List (List ℕ)) (u : Uring) → Returns (Gains 0 u) (sends fd views u)
unfolding sends
sends-Gains fd [] u = Returns-ok (refl-Gains refl refl refl)
sends-Gains fd (view ∷ views) u =
    Returns->>= (send fd view u) (send-Gains fd view u)
      λ v e. Returns-map (sends-Gains fd views v) λ w. trans-Gains e

pub add_new_fd-Gains : (fd : ℕ) (u : Uring) → Returns (Gains 0 u) (add_new_fd fd u)
unfolding add_new_fd put_channel add_read_request
add_new_fd-Gains fd u = elim (Option-cases (lookup fd u.connections)) [
  | inl e ↦ rw (e, add_new_fd) (Returns-ok (refl-Gains refl refl refl))
  | inr (c, e) ↦ rw (e, add_new_fd) (record { result = λ a h. cc })
]

reduse_send-Gains : (fd : ℕ) (u : Uring) → Returns (Gains 0 u) (reduse_send fd u)
unfolding reduse_send put_channel
reduse_send-Gains fd u = Returns->>= (channel_of fd u) anyhow λ c _.
    Returns-check (ltb 0 c.send_flag) _ (
      Returns-if (c.send_flag - 1 == 0 && c.close_flag)
        (Returns-map (close-Gains fd _) λ w e. trans-Gains (refl-Gains refl refl refl) e)
        (Returns-ok (refl-Gains refl refl refl)))

pub one_more : {u u' : Uring} → Gains 0 u u' → Gains 1 u (record u' { free_num = u'.free_num + 1 })
one_more g = record { no_more = omega (arith, g.no_more); same_size = g.same_size }

more : {u u' : Uring} → Gains 0 u u' → Gains 1 u u'
more g = record { no_more = omega (arith, g.no_more); same_size = g.same_size }

pub on_write-Gains : (fd : ℕ) (res : ℤ) (u : Uring) → Returns (Gains 1 u) (on_write fd res u)
unfolding on_write put_channel add_write_request
on_write-Gains fd res u = Returns->>= (channel_of fd u) anyhow λ c _.
    Returns->>= (Buffer.erase_data res c.send_buf) anyhow λ b _.
      Returns-if _ (Returns-ok (more (refl-Gains refl refl refl))) (
        Returns->>= (reduse_send fd _) (reduse_send-Gains fd _)
          λ v g. Returns-ok (one_more (trans-Gains (refl-Gains refl refl refl) g)))
