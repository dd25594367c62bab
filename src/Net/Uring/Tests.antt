-- ===== src/Net/Uring/Tests.antt =====
-- Net/Uring at concrete rings, with a callback that sends back what it reads.
use fish_rpc.Prelude.{
  replicate, ℕ, ◌+◌, ◌-◌, ◌≤◌, ◌≡◌, refl, true, false, List, [], ◌∷◌, ◌++◌, map, arith, All,
}
use fish_rpc.Prelude.Outcome.{Outcome, ok, fault, Fault, ◌>>=◌}
use fish_rpc.Prelude.Int.{pos}
use fish_rpc.Prelude.Assoc.{lookup, insert, erase}
use fish_rpc.Net.Buffer
use fish_rpc.Net.Buffer.{Buffer, dis_read, copy_in}
use fish_rpc.Net.Uring
use fish_rpc.Net.Uring.{
  Uring, Channel, UringRequest, Region, TaskOption, add_write_request, add_read_request, channel_of,
  put_channel, new_channel, add_new_fd, remove_fd, send, reduse_send, on_write, sends, free_memory,
  unsent, lookup, insert, erase, false, as_int,
}
use fish_rpc.Net.Uring.Loop.{
  remove_at, submit_recv, submit_send, begin_recv, begin_send, on_read, handle, complete, completes,
  event_loop,
}
use fish_rpc.Net.Uring.Bounded.{Reach, Step, submitted_bounded}
use fish_rpc.Net.Uring.Queues.{kind, IntoFree, begin_recv-begin_send}
use fish_rpc.Net.Uring.Unending.{on_writes, on_writes-unending}
use fish_rpc.Net.Uring.Sending.{IsOpen, as_queued, sends-assert, sends-sums, sums}

abbrev echo : ℕ → Buffer → ℕ → Outcome (List (List ℕ) × Buffer × ℕ)
echo fd b n = ok (dis_read b ∷ [], Buffer.clear b, n + 1)

abbrev small : ℕ → Channel
small fd = record {
  read_buf = record { buf = 0 ∷ 0 ∷ 0 ∷ []; write_index = 0; read_index = 0 };
  send_buf = record { buf = replicate 8 0; write_index = 0; read_index = 0 };
  send_flag = 0;
  close_flag = false;
  fd = fd;
  running = true;
}

abbrev ring :
    List ℕ → List (ℕ × Region) → List (ℕ × Channel) → ℕ → List UringRequest → List ℕ → Uring
ring recv_que send_que connections free_num submitted closed = record {
  recv_que = recv_que;
  send_que = send_que;
  connections = connections;
  free_num = free_num;
  queue_size = 4;
  submitted = submitted;
  closed = closed;
}

abbrev asked : UringRequest
asked = record {
  event_type = TaskOption.read;
  client_socket = 5;
  region = record { in_send = false; offset = 0; size = 1023 };
}

abbrev fresh : List (ℕ × Channel)
unfolding new_channel Buffer.create
fresh = (5, new_channel 5 1024) ∷ []

submitted_bounded_example : 3 + 0 ≤ 4 - 1
unfolding lookup insert erase Uring.construct add_new_fd put_channel add_read_request event_loop
    completes complete handle begin_recv begin_send submit_recv submit_send channel_of on_read
    Uring.close remove_fd remove_at new_channel Buffer.create copy_in Buffer.already Buffer.room
    Buffer.dis_write_size fresh
submitted_bounded_example =
    submitted_bounded echo 4 0 {u = ring [] [] [] 3 [] (5 ∷ [])}
      (Reach.next (Reach.next (Reach.next Reach.here joins) waits) closes)
  where
    joins : Step echo (Uring.construct 4, 0) (ring (5 ∷ []) [] fresh 3 [] [], 0)
    joins = Step.connect {u = Uring.construct 4} {v = ring (5 ∷ []) [] fresh 3 [] []} 5 refl

    waits : Step echo (ring (5 ∷ []) [] fresh 3 [] [], 0) (ring [] [] fresh 2 (asked ∷ []) [], 0)
    waits = Step.loop [] refl

    closes : Step echo (ring [] [] fresh 2 (asked ∷ []) [], 0) (ring [] [] [] 3 [] (5 ∷ []), 0)
    closes = Step.loop (record { index = 0; res = pos 0; no_error = true; bytes = [] } ∷ []) refl

abbrev busy : Uring
busy =
    ring (5 ∷ 6 ∷ []) ((6, record { in_send = true; offset = 0; size = 2 }) ∷ [])
      ((6, small 6) ∷ (5, small 5) ∷ []) 2 [] []

begin_recv-begin_send_example :
    (rs : List UringRequest) × (ss : List UringRequest) × ((begin_recv busy >>= begin_send)
      ≡ ok (record busy { free_num = 0; recv_que = []; submitted = rs ++ ss }))
    × (map kind rs ≡ (TaskOption.read, 5) ∷ (TaskOption.read, 6) ∷ [])
    × All (IntoFree busy) rs
    × (map kind ss ≡ [])
    × (map {B = ℕ × Region} (λ r. (r.client_socket, r.region)) ss ≡ [])
unfolding lookup
begin_recv-begin_send_example =
    begin_recv-begin_send busy ((small 5, refl, refl), ((small 6, refl, refl), tt))
      ((small 6, refl, refl), tt)

abbrev idle : Uring
idle = ring [] [] ((5, small 5) ∷ []) 2 [] []

idle-IsOpen : IsOpen 5 idle (small 5)
unfolding lookup
idle-IsOpen = record {
  found = refl;
  stays = refl;
  valid = record { ordered = omega arith; inside = omega arith; small = omega arith };
}

sends-assert_example :
    (sends 5 ((1 ∷ 2 ∷ []) ∷ (3 ∷ []) ∷ []) idle >>= on_write 5 (pos 2) >>= on_write 5 (pos 3))
    ≡ fault Fault.assert_failed
unfolding dis_read Buffer.slice
sends-assert_example =
    sends-assert 5 (1 ∷ 2 ∷ []) (3 ∷ []) idle-IsOpen refl (omega arith) (omega arith)

abbrev sent : Channel
sent = record (small 5) {
  send_buf = record { buf = 7 ∷ 8 ∷ replicate 6 0; write_index = 2; read_index = 0 };
  send_flag = 1;
}

sent-IsOpen : IsOpen 5 (ring [] [] ((5, sent) ∷ []) 1 [] []) sent
unfolding lookup
sent-IsOpen = record {
  found = refl;
  stays = refl;
  valid = record { ordered = omega arith; inside = omega arith; small = omega arith };
}

on_writes-unending_example :
    (u' : Uring) × (c' : Channel) × (on_writes 5
        (1 ∷ 1 ∷ 0 ∷ [])
        (ring [] [] ((5, sent) ∷ []) 1 [] [])
      ≡ ok u')
    × IsOpen 5 u' c'
    × (dis_read c'.send_buf ≡ [])
    × (c'.send_flag ≡ 1)
    × (u'.free_num ≡ 1)
    × (u'.send_que ≡ replicate 3 (5, as_queued (free_memory sent)))
unfolding dis_read Buffer.slice
on_writes-unending_example =
    on_writes-unending 5 (1 ∷ 1 ∷ 0 ∷ []) sent-IsOpen
      (record { ordered = omega arith; inside = omega arith; small = omega arith }) (omega arith)
      (omega arith)

sends-sums_example :
    (u' : Uring) × (c' : Channel) × (regions : List Region) × (sends 5
        ((1 ∷ 2 ∷ []) ∷ (3 ∷ []) ∷ [])
        idle
      ≡ ok u')
    × IsOpen 5 u' c'
    × (dis_read c'.send_buf ≡ 1 ∷ 2 ∷ 3 ∷ [])
    × (c'.send_flag ≡ 2)
    × (u'.send_que ≡ map (λ r. (5, r)) regions)
    × (map (λ (r : Region). r.size) regions ≡ 2 ∷ 3 ∷ [])
unfolding dis_read Buffer.slice sums as_int
sends-sums_example = sends-sums 5 ((1 ∷ 2 ∷ []) ∷ (3 ∷ []) ∷ []) idle-IsOpen (omega arith)
