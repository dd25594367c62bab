-- ===== src/Log/LogThread/Steps.antt =====
-- Log/LogThread: the buffers of the logger in any order of what its threads do under the lock.
use fish_rpc.Prelude.{
  last-cases, All-front, leb, ◌==◌, length, length-append, length-replicate, All-append, ℕ, ◌+◌,
  ◌-◌, ◌≤◌, ◌≡◌, refl, sym, ap, ◌∙◌, subst, inl, inr, Bool, true, false, List, [], ◌∷◌, ◌++◌, arith,
}
use fish_rpc.Prelude.Outcome.{ok, ok-injective, Returns, Returns-if, Returns-ok, Returns-check}
use fish_rpc.Base.SafeQueue
use fish_rpc.Base.SafeQueue.{MyQueue, pop_back, try_pop, push}
use fish_rpc.Log.LogThread.{
  LogThread, Block, buf_size, size_of_mes, fill, construct, append_locked, take_ready, flush_one,
}
use fish_rpc.Log.LogThread.Blocks.{IsBlock, IsValid, used, waiting, pop_back-append}
use fish_rpc.Log.LogThread.Appending.{append_locked-waiting}

take_ready-IsValid :
    {l : LogThread} → IsValid l → Returns (λ (x : Bool × LogThread). IsValid x.1) (take_ready l)
unfolding take_ready
take_ready-IsValid {l} v = Returns-if (length l.ready_buf == 0) (Returns-ok v) (
    Returns-check (length l.buf_to_write == 0) _ (
      Returns-ok (record {
        sized = v.sized;
        inside = v.inside;
        spare = v.spare;
        ready = v.to_write;
        to_write = v.ready;
        bound = v.bound;
        kept = omega (arith, v.kept);
      })))

-- In a valid logger a buffer that is to be written is written, and its memory is kept.
pub flushed :
    {l : LogThread} {front : List Block} (b : Block)
    → IsValid l
    → l.buf_to_write ≡ front ++ (b ∷ [])
    → (l' : LogThread) × (flush_one l ≡ ok l')
      × IsValid l'
      × (l'.buf_to_write ≡ front)
      × (l'.log_file ≡ l.log_file ++ used b)
      × (waiting l' ≡ waiting l)
      × (l'.ready_buf ≡ l.ready_buf)
unfolding flush_one push
flushed {l} {front} b v e =
    let (rest, last) = All-front IsBlock front b (rw e at v.to_write) in
    let within : leb b.1 (length b.0) ≡ true = ground (arith, last.0, last.1) in
    let more : length l.buf_to_write ≡ length front + 1 =
      ap length e ∙ length-append front (b ∷ []) in
    let room : length l.pre_buf.que == l.pre_buf.max_size ≡ false =
      grind (arith, v.kept, v.bound, more) in
    (
      record l {
        buf_to_write = front;
        log_file = l.log_file ++ used b;
        write_mes = l.write_mes + b.1;
        pre_buf = record { que = l.pre_buf.que ++ (b.0 ∷ []); max_size = l.pre_buf.max_size };
      },
      rw (flush_one, e, pop_back-append front b, within, room) refl,
      record {
        sized = v.sized;
        inside = v.inside;
        spare = All-append _ l.pre_buf.que (b.0 ∷ []) v.spare (last.0, tt);
        ready = v.ready;
        to_write = rest;
        bound = v.bound;
        kept = omega (arith, v.kept, more, length-append l.pre_buf.que (b.0 ∷ []));
      },
      refl,
      refl,
      refl,
      refl,
    )

flush_one-IsValid : {l m : LogThread} → IsValid l → flush_one l ≡ ok m → IsValid m
unfolding flush_one
flush_one-IsValid {l} {m} v h = elim (last-cases l.buf_to_write) [
  | inl e ↦ cc (rw (flush_one, e) at h)
  | inr (front, b, e) ↦
      let (l', q, w, front_left, written, kept, same) = flushed b v e in
      subst IsValid (ok-injective (sym q ∙ h)) w
]

-- The steps of the threads: a text by any of them, up to the first `unlock`, and what the logger's
-- own thread does. No step begins within another: a second `unlock` that lets one in is undefined.
pub data Step (l m : LogThread) : Type 0 where
  text :
      (message : List ℕ)
      → length message ≤ buf_size - size_of_mes
      → (flag : Bool) → append_locked message l ≡ ok (flag, m)
      → Step l m
  takes : (b : Bool) → take_ready l ≡ ok (b, m) → Step l m
  flushes : flush_one l ≡ ok m → Step l m
  prints : m ≡ record l { reload_mes = false } → Step l m

pub data Reach (l : LogThread) : LogThread → Type 0 where
  here : Reach l l
  next : {m n : LogThread} → Reach l m → Step m n → Reach l n

Step-IsValid : {l m : LogThread} → IsValid l → Step l m → IsValid m
Step-IsValid v (text message short flag e) =
    let (l', q, w, rest) = append_locked-waiting message v short in
    subst IsValid (ap (λ (x : Bool × LogThread). x.1) (ok-injective (sym q ∙ e))) w
Step-IsValid v (takes b e) = (take_ready-IsValid v).result _ e
Step-IsValid v (flushes e) = flush_one-IsValid v e
Step-IsValid v (prints e) = subst IsValid (sym e) (record {
  sized = v.sized;
  inside = v.inside;
  spare = v.spare;
  ready = v.ready;
  to_write = v.to_write;
  bound = v.bound;
  kept = v.kept;
})

pub construct-IsValid : IsValid construct
unfolding construct fill push SafeQueue.construct
construct-IsValid =
    let e = length-replicate {A = ℕ} buf_size 0 in
    record {
      sized = e;
      inside = omega arith;
      spare = (e, (e, (e, (e, tt))));
      ready = tt;
      to_write = tt;
      bound = refl;
      kept = refl;
    }

Steps-IsValid : {l m : LogThread} → IsValid l → Reach l m → IsValid m
Steps-IsValid v here = v
Steps-IsValid v (next r s) = Step-IsValid (Steps-IsValid v r) s

-- In whatever order the threads do what they do under the lock, one after the other and up to the
-- first `unlock` of each text, from the constructor on and with texts of at most 102392 bytes: every
-- buffer of the logger has its full size and an index inside of it, and the buffer in use, the spare
-- ones, those that are ready and those to be written are together as many as the constructor made.
pub buffers_kept : {l : LogThread} → Reach construct l → IsValid l
buffers_kept r = Steps-IsValid construct-IsValid r
