-- ===== src/Log/LogThread/Turns.antt =====
-- Log/LogThread: what a turn of the logger's own thread writes to the file.
use fish_rpc.Prelude.{
  last-cases, leb, ◌==◌, ==→eq, Bool-cases, length, length-append, ℕ, zero, suc, ◌≡◌, refl, sym, ap,
  ◌∙◌, inl, inr, true, none, List, [], ◌∷◌, ◌++◌, append-nil, append_assoc, arith, length-zero,
}
use fish_rpc.Prelude.Outcome.{ok}
use fish_rpc.Log.LogThread.{LogThread, Block, take_ready, flush_loop, flush_to_file, log_loop}
use fish_rpc.Log.LogThread.Steps.{flushed}
use fish_rpc.Log.LogThread.Blocks.{IsValid, used, joined, waiting}
use mathlib.Core.List.{reverse, reverse-append}

joined-reverse :
    (xs : List Block) (b : Block)
    → joined (reverse (xs ++ (b ∷ []))) ≡ used b ++ joined (reverse xs)
joined-reverse xs b = ap joined (reverse-append xs (b ∷ []))

-- What a loop over `n` buffers does where there are as many.
flush_loop-reverses :
    (n : ℕ) {l : LogThread}
    → IsValid l
    → length l.buf_to_write ≡ n
    → (l' : LogThread) × (flush_loop n l ≡ ok l')
      × IsValid l'
      × (l'.buf_to_write ≡ [])
      × (l'.log_file ≡ l.log_file ++ joined (reverse l.buf_to_write))
      × (waiting l' ≡ waiting l)
      × (l'.ready_buf ≡ l.ready_buf)
unfolding flush_loop
flush_loop-reverses zero {l} v size =
    let bare : l.buf_to_write ≡ [] = elim (last-cases l.buf_to_write) [
      | inl e ↦ e
      | inr (front, b, e) ↦ absurd (omega (arith, size, ap length e, length-append front (b ∷ [])))
    ] in
    (l, refl, v, bare, rw bare (sym (append-nil l.log_file)), refl, refl)
flush_loop-reverses (suc n) {l} v size = elim (last-cases l.buf_to_write) [
  | inl e ↦ absurd (omega (arith, size, ap length e))
  | inr (front, b, e) ↦
      let (m, q, w, left, written, kept, same) = flushed b v e in
      let fewer : length m.buf_to_write ≡ n =
        omega (arith, size, ap length left, ap length e, length-append front (b ∷ [])) in
      let (l', r, w', bare, file, kept', same') = flush_loop-reverses n w fewer in
      (
        l',
        rw q r,
        w',
        bare,
        file
            ∙ rw (written, left, e, joined-reverse front b)
                (append_assoc l.log_file (used b) (joined (reverse front))),
        kept' ∙ kept,
        same' ∙ same,
      )
]

-- A turn of the logger's thread that no other thread interrupts, in a valid logger with nothing
-- left to be written and without the printing of statistics, does not fault; it writes all buffers
-- that are ready, the last one first, and leaves the bytes of the buffer in use to wait.
pub log_loop-reverses :
    {l : LogThread}
    → IsValid l
    → l.buf_to_write ≡ []
    → (l' : LogThread) × (log_loop none l ≡ ok l')
      × IsValid l'
      × (l'.ready_buf ≡ [])
      × (l'.buf_to_write ≡ [])
      × (l'.log_file ≡ l.log_file ++ joined (reverse l.ready_buf))
      × (joined l.ready_buf ++ waiting l' ≡ waiting l)
unfolding log_loop take_ready flush_to_file
log_loop-reverses {l} v clean = elim (Bool-cases (length l.ready_buf == 0)) [
  | inl none_ready ↦
      let bare : l.ready_buf ≡ [] = length-zero l.ready_buf (==→eq _ _ none_ready) in
      (l, rw none_ready refl, v, bare, clean, rw bare (sym (append-nil l.log_file)), rw bare refl)
  | inr some_ready ↦
      let taken : LogThread = record l {
        buf_to_write = l.ready_buf;
        ready_buf = l.buf_to_write;
        write_mes = 0;
      } in
      let w : IsValid taken = record {
        sized = v.sized;
        inside = v.inside;
        spare = v.spare;
        ready = v.to_write;
        to_write = v.ready;
        bound = v.bound;
        kept = omega (arith, v.kept);
      } in
      let (l', e, w', bare, file, kept, same) = flush_loop-reverses (length l.ready_buf) w refl in
      let few : leb (length l.ready_buf) 5 ≡ true = ground (arith, v.kept) in
      (
        l',
        rw (some_ready, clean_test, few) (rw e refl),
        w',
        same ∙ clean,
        bare,
        file,
        rw (kept, clean) refl,
      )
]
  where
    clean_test : length l.buf_to_write == 0 ≡ true
    clean_test = rw clean refl
