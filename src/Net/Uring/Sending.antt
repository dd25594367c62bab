-- ===== src/Net/Uring/Sending.antt =====
-- Net/Uring: what becomes of texts that are sent, and of the completions of writes.
use fish_rpc.Prelude.{
  ltb, ◌==◌, lt→ltb, ==_refl, Bool-cases, length, drop, length-append, length-drop, ℕ, ◌+◌, ◌-◌,
  ◌≤◌, ◌<◌, ◌≡◌, refl, sym, ap, ◌∙◌, inl, inr, false, some, List, [], ◌∷◌, ◌++◌, map, append-nil,
  append_assoc, arith,
}
use fish_rpc.Prelude.Outcome.{ok, fault, Fault, ◌>>=◌}
use fish_rpc.Prelude.Int.{pos}
use fish_rpc.Prelude.Assoc.{lookup-insert}
use fish_rpc.Net.Buffer.{dis_read}
use fish_rpc.Net.Buffer.Queue.{
  IsValid, free, erase_data-drops, erase_data-asserts, filled-IsValid, input-filled, filled,
  dis_read-filled, free-filled,
}
use fish_rpc.Net.Uring.{
  Uring, Channel, Region, as_int, add_write_request, channel_of, put_channel, send, sends, unsent,
  free_memory, reduse_send, on_write, lookup,
}

-- A request as the queue of writes holds it.
abbrev pub as_queued : Region → Region
as_queued r = record r { size = as_int r.size }

-- The channel of `fd` is `c`, takes texts, and its send buffer is valid.
pub record IsOpen (fd : ℕ) (u : Uring) (c : Channel) : Type 0 where
  pub found : lookup fd u.connections ≡ some c
  pub stays : c.close_flag ≡ false
  pub valid : IsValid c.send_buf

pub channel_of-found :
    (fd : ℕ) (u : Uring) {c : Channel} → lookup fd u.connections ≡ some c → channel_of fd u ≡ ok c
unfolding channel_of
channel_of-found fd u e = rw (e, channel_of) refl

pub found-put :
    (fd : ℕ) (c : Channel) (u : Uring) → lookup fd (put_channel fd c u).connections ≡ some c
unfolding put_channel
found-put fd c u = lookup-insert fd fd c u.connections ∙ rw (==_refl fd) refl

abbrev pub total : List (List ℕ) → ℕ
total [] = 0
total (view ∷ views) = length view + total views

abbrev pub joined : List (List ℕ) → List ℕ
joined [] = []
joined (view ∷ views) = view ++ joined views

-- The sizes of the requests of texts that are sent onto `n` unsent bytes.
unfoldable pub sums : ℕ → List (List ℕ) → List ℕ
sums n [] = []
sums n (view ∷ views) = (n + length view) ∷ sums (n + length view) views

-- The channel with one more text in its send buffer, and with one more request queued.
abbrev with_text : List ℕ → Channel → Channel
with_text view c = record c { send_buf = filled view c.send_buf; send_flag = c.send_flag + 1 }

abbrev queued : ℕ → List ℕ → Channel → Uring → Uring
unfolding put_channel add_write_request
queued fd view c u =
    put_channel fd (with_text view c) (add_write_request fd (unsent (with_text view c)) u)

send-queued :
    (fd : ℕ) (view : List ℕ) {u : Uring} {c : Channel}
    → IsOpen fd u c
    → length view ≤ free c.send_buf
    → send fd view u ≡ ok (queued fd view c u)
unfolding send put_channel add_write_request
send-queued fd view {u} {c} o fits =
    rw (channel_of-found fd u o.found, o.stays, input-filled view o.valid fits) refl

queued-IsOpen :
    (fd : ℕ) (view : List ℕ) {u : Uring} {c : Channel}
    → IsOpen fd u c
    → length view ≤ free c.send_buf
    → IsOpen fd (queued fd view c u) (with_text view c)
unfolding queued
queued-IsOpen fd view {u} {c} o fits = record {
  found = found-put fd (with_text view c) (add_write_request fd (unsent (with_text view c)) u);
  stays = o.stays;
  valid = filled-IsValid view o.valid (omega (arith, o.valid.inside));
}

-- Texts that fit behind the write index of the valid send buffer of an open channel, sent one after
-- the other, are appended to what is unsent, and raise the count of open sends by one each; the
-- request that each text queues has as its size, passed as an int, the number of all unsent bytes
-- up to that text, those of the earlier requests included.
pub sends-sums :
    (fd : ℕ) (views : List (List ℕ)) {u : Uring} {c : Channel}
    → IsOpen fd u c
    → total views ≤ free c.send_buf
    → (u' : Uring) × (c' : Channel) × (regions : List Region) × (sends fd views u ≡ ok u')
      × IsOpen fd u' c'
      × (dis_read c'.send_buf ≡ dis_read c.send_buf ++ joined views)
      × (c'.send_flag ≡ c.send_flag + length views)
      × (u'.send_que ≡ u.send_que ++ map (λ r. (fd, r)) regions)
      × (map (λ (r : Region). r.size) regions
          ≡ map as_int (sums (length (dis_read c.send_buf)) views))
unfolding sends sums queued put_channel add_write_request
sends-sums fd [] {u} {c} o fits =
    (u, c, [], refl, o, sym (append-nil _), omega arith, sym (append-nil _), refl)
sends-sums fd (view ∷ views) {u} {c} o fits =
    let more = dis_read-filled view o.valid (omega (arith, o.valid.inside)) in
    let size : length (dis_read (filled view c.send_buf))
        ≡ length (dis_read c.send_buf) + length view =
      rw more (length-append (dis_read c.send_buf) view) in
    let (u', c', rs, e, o', d, f, q, s) =
      sends-sums fd views (queued-IsOpen fd view o (omega arith))
        (omega (arith, free-filled view c.send_buf (omega (arith, o.valid.inside)))) in
    (
      u',
      c',
      as_queued (unsent (with_text view c)) ∷ rs,
      rw (send-queued fd view o (omega arith)) e,
      o',
      d ∙ rw more (append_assoc (dis_read c.send_buf) view (joined views)),
      omega (arith, f),
      q
          ∙ append_assoc u.send_que ((fd, as_queued (unsent (with_text view c))) ∷ [])
              (map (λ r. (fd, r)) rs),
      ap (λ xs. as_int (length (dis_read (filled view c.send_buf))) ∷ xs) s
          ∙ ap (λ k. as_int k ∷ map as_int (sums k views)) size,
    )

reduse_send-stays :
    (fd : ℕ) (u : Uring) {c : Channel}
    → lookup fd u.connections ≡ some c
    → 1 < c.send_flag
    → reduse_send fd u ≡ ok (put_channel fd (record c { send_flag = c.send_flag - 1 }) u)
unfolding reduse_send put_channel
reduse_send-stays fd u {c} e several =
    let left : c.send_flag - 1 == 0 ≡ false = grind arith in
    rw (channel_of-found fd u e, lt→ltb 0 c.send_flag (omega arith), left) refl

on_write-IsOpen :
    (fd n : ℕ) {u : Uring} {c : Channel}
    → IsOpen fd u c
    → n ≤ length (dis_read c.send_buf)
    → 1 < c.send_flag
    → (u' : Uring) × (c' : Channel) × (on_write fd (pos n) u ≡ ok u')
      × IsOpen fd u' c'
      × (dis_read c'.send_buf ≡ drop n (dis_read c.send_buf))
unfolding on_write put_channel add_write_request reduse_send
on_write-IsOpen fd n {u} {c} o enough several =
    let (b, e, v, d) = erase_data-drops n o.valid enough in
    let c' : Channel = record c { send_buf = b } in
    elim (Bool-cases (ltb 0 (free_memory c).size)) [
      | inl room ↦ (
        add_write_request fd (free_memory c) (put_channel fd c' u),
        c',
        rw (channel_of-found fd u o.found, e, room) refl,
        record { found = found-put fd c' u; stays = o.stays; valid = v },
        d,
      )
      | inr full ↦
          let less : Channel = record c' { send_flag = c.send_flag - 1 } in
          let w = put_channel fd less (put_channel fd c' u) in
          (
            record w { free_num = w.free_num + 1 },
            less,
            rw
                (
                  channel_of-found fd u o.found,
                  e,
                  full,
                  reduse_send-stays fd (put_channel fd c' u) (found-put fd c' u) several,
                )
                refl,
            record { found = found-put fd less (put_channel fd c' u); stays = o.stays; valid = v },
            d,
          )
    ]

on_write-asserts :
    (fd n : ℕ) {u : Uring} {c : Channel}
    → IsOpen fd u c
    → length (dis_read c.send_buf) < n
    → on_write fd (pos n) u ≡ fault Fault.assert_failed
unfolding on_write
on_write-asserts fd n {u} o over =
    rw (channel_of-found fd u o.found, erase_data-asserts n o.valid over) refl

-- The second of two completions that count more bytes than were unsent fails the assertion of
-- `eraseData`, on an open channel with more than one open send.
pub on_write-again :
    (fd n m : ℕ) {u : Uring} {c : Channel}
    → IsOpen fd u c
    → 1 < c.send_flag
    → n ≤ length (dis_read c.send_buf)
    → length (dis_read c.send_buf) < n + m
    → (on_write fd (pos n) u >>= on_write fd (pos m)) ≡ fault Fault.assert_failed
on_write-again fd n m {u} {c} o several enough over =
    let (u', c', e, o', d) = on_write-IsOpen fd n o enough several in
    let left : length (dis_read c'.send_buf) < m =
      rw d (omega (arith, length-drop n (dis_read c.send_buf))) in
    rw e (on_write-asserts fd m o' left)

-- Where two texts, the first not empty, that fit behind the write index are sent on an open channel
-- with a valid send buffer and nothing unsent, and the kernel then reports that it sent all of the
-- first request and all of the second, the assertion of `eraseData` fails.
pub sends-assert :
    (fd : ℕ) (first second : List ℕ) {u : Uring} {c : Channel}
    → IsOpen fd u c
    → dis_read c.send_buf ≡ []
    → 0 < length first
    → length first + length second ≤ free c.send_buf
    → (sends fd (first ∷ second ∷ []) u
        >>= on_write fd (pos (length first))
        >>= on_write fd (pos (length first + length second)))
      ≡ fault Fault.assert_failed
sends-assert fd first second {u} {c} o bare some_text fits =
    let (u', c', rs, e, o', d, f, q, s) = sends-sums fd (first ∷ second ∷ []) o (omega arith) in
    let size : length (dis_read c'.send_buf) ≡ length first + length second =
      rw (d, bare) (omega (arith, length-append first (second ++ []), length-append second [])) in
    rw e (
      on_write-again fd (length first) (length first + length second) o' (omega (arith, f))
        (omega (arith, size)) (omega (arith, size)))
