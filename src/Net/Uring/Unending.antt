-- ===== src/Net/Uring/Unending.antt =====
-- Net/Uring: the completions of writes never end the sending of a channel.
use fish_rpc.Prelude.{
  lt→ltb, length, drop, replicate, length-drop, drop-drop, ℕ, ◌+◌, ◌≤◌, ◌<◌, ◌≡◌, refl, sym, ◌∙◌,
  ◌≢◌, List, [], ◌∷◌, ◌++◌, append-nil, append_assoc, arith,
}
use fish_rpc.Prelude.Outcome.{Outcome, ok, ◌>>=◌}
use fish_rpc.Prelude.Int.{pos}
use native.Mathlib.Decide.{dec_le}
use fish_rpc.Net.Buffer
use fish_rpc.Net.Buffer.{Buffer, dis_read}
use fish_rpc.Net.Buffer.Queue.{IsValid, erase_data-drops}
use fish_rpc.Net.Uring.{Uring, Channel, on_write, free_memory, put_channel, add_write_request}
use fish_rpc.Net.Uring.Sending.{IsOpen, as_queued, channel_of-found, found-put}

-- The completions of writes on `fd`, each with the bytes that it reports.
unfoldable pub on_writes : ℕ → List ℕ → Uring → Outcome Uring
on_writes fd [] u = ok u
on_writes fd (n ∷ ns) u = do u' ← on_write fd (pos n) u; on_writes fd ns u'

abbrev pub sum : List ℕ → ℕ
sum [] = 0
sum (n ∷ ns) = n + sum ns

-- The view of the free memory is empty only where one byte is left; in a full buffer its size wraps.
dis_write_size-positive :
    {b : Buffer} → IsValid b → length b.buf ≢ b.write_index + 1 → 0 < Buffer.dis_write_size b
unfolding Buffer.dis_write_size Buffer.room
dis_write_size-positive {b} v more = elim (dec_le (length b.buf) b.write_index) [
  | yes full ↦ omega (arith, v.inside, v.small)
  | no room ↦
      let distinct : b.write_index + 2 ≤ length b.buf = ground (arith, more, room) in
      omega (arith, v.inside, v.small)
]

on_write-again_queued :
    (fd n : ℕ) {u : Uring} {c : Channel}
    → IsOpen fd u c
    → n ≤ length (dis_read c.send_buf)
    → 0 < Buffer.dis_write_size c.read_buf
    → (u' : Uring) × (b : Buffer) × (on_write fd (pos n) u ≡ ok u')
      × IsOpen fd u' (record c { send_buf = b })
      × (dis_read b ≡ drop n (dis_read c.send_buf))
      × (u'.free_num ≡ u.free_num)
      × (u'.send_que ≡ u.send_que ++ ((fd, as_queued (free_memory c)) ∷ []))
unfolding on_write put_channel add_write_request
on_write-again_queued fd n {u} {c} o enough room =
    let (b, e, v, d) = erase_data-drops n o.valid enough in
    let c' : Channel = record c { send_buf = b } in
    (
      add_write_request fd (free_memory c) (put_channel fd c' u),
      b,
      rw (channel_of-found fd u o.found, e, lt→ltb 0 _ room) refl,
      record { found = found-put fd c' u; stays = o.stays; valid = v },
      d,
      refl,
      refl,
    )

-- However many writes complete one after the other on an open channel, with reports that together
-- are of bytes that were unsent, where the read buffer is valid and does not have just one byte
-- behind its write index: nothing faults, the bytes that were sent are removed, and each completion
-- queues one more request, to send the free memory of the read buffer, with its size as an int. The
-- count of open sends and the free places of the ring stay as they were, also where nothing is left
-- unsent.
pub on_writes-unending :
    (fd : ℕ) (ns : List ℕ) {u : Uring} {c : Channel}
    → IsOpen fd u c
    → IsValid c.read_buf
    → length c.read_buf.buf ≢ c.read_buf.write_index + 1
    → sum ns ≤ length (dis_read c.send_buf)
    → (u' : Uring) × (c' : Channel) × (on_writes fd ns u ≡ ok u')
      × IsOpen fd u' c'
      × (dis_read c'.send_buf ≡ drop (sum ns) (dis_read c.send_buf))
      × (c'.send_flag ≡ c.send_flag)
      × (u'.free_num ≡ u.free_num)
      × (u'.send_que ≡ u.send_que ++ replicate (length ns) (fd, as_queued (free_memory c)))
unfolding on_writes
on_writes-unending fd [] {u} {c} o v more enough =
    (u, c, refl, o, refl, refl, refl, sym (append-nil u.send_que))
on_writes-unending fd (n ∷ ns) {u} {c} o v more enough =
    let (w, b, e, o', d, free, que) =
      on_write-again_queued fd n o (omega arith) (dis_write_size-positive v more) in
    let left : sum ns ≤ length (dis_read b) =
      rw d (omega (arith, length-drop n (dis_read c.send_buf))) in
    let (u', c', e', o'', d', flag, free', que') = on_writes-unending fd ns o' v more left in
    (
      u',
      c',
      rw e e',
      o'',
      d' ∙ rw (d, drop-drop (sum ns) n (dis_read c.send_buf)) refl,
      flag,
      free' ∙ free,
      que'
          ∙ rw que (
              append_assoc u.send_que ((fd, as_queued (free_memory c)) ∷ [])
                (replicate (length ns) (fd, as_queued (free_memory c)))),
    )
