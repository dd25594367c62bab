-- ===== src/Log/LogThread/Appending.antt =====
-- What becomes of a text that is appended, and of the bytes that waited, in the logger of
-- Fish/base/log/log_thread.h.
use fish_rpc.Prelude.{
  last-cases, All-front, ltb, leb, ◌==◌, if◌then◌else◌, Bool-cases, length, take, drop,
  length-append, All-append, ℕ, ◌+◌, ◌-◌, ◌≤◌, ◌≡◌, refl, ap, ◌∙◌, inl, inr, true, false, List, [],
  ◌∷◌, ◌++◌, append-nil, arith,
}
use fish_rpc.Prelude.Outcome.{Fault, fault, ok}
use fish_rpc.Prelude.Int.{pos, ltb_ℤ}
use fish_rpc.Net.Buffer.{copy_in}
use fish_rpc.Log.LogThread.{
  LogThread, buf_size, over_flow_mes, size_of_mes, free_size, change_buf, append_locked,
  append_message, change_to,
}
use fish_rpc.Log.LogThread.Blocks.{
  IsBlock, IsValid, waiting, joined-append, take_zero, length-copied, with_text, with_text-IsValid,
  waiting-with_text, put_text, after_change, try_pop-none, try_pop-some,
}

change_buf-IsValid :
    {l : LogThread}
    → IsValid l
    → (l' : LogThread) × (change_buf l ≡ ok l')
      × IsValid l'
      × (l'.current_buf_index ≤ size_of_mes)
      × (waiting l' ≡ after_change l)
unfolding change_buf change_to copy_in
change_buf-IsValid {l} v = elim (last-cases l.pre_buf.que) [
  | inl e ↦
      let within : leb (0 + length over_flow_mes) (length l.current_buf) ≡ true =
        ground (arith, v.sized) in
      let bytes : List ℕ =
        take 0 l.current_buf ++ over_flow_mes ++ drop (0 + length over_flow_mes) l.current_buf in
      (
        record l { current_buf = bytes; current_buf_index = size_of_mes; reload_mes = true },
        rw (change_buf, try_pop-none l.pre_buf e, within) refl,
        record {
          sized = length-copied 0 over_flow_mes l.current_buf (omega (arith, v.sized)) ∙ v.sized;
          inside = omega arith;
          spare = v.spare;
          ready = v.ready;
          to_write = v.to_write;
          bound = v.bound;
          kept = v.kept;
        },
        omega arith,
        rw (e, take_zero l.current_buf) refl,
      )
  | inr (front, x, e) ↦
      let (rest, last) =
        All-front (λ (b : List ℕ). length b ≡ buf_size) front x (rw e at v.spare) in
      let more : length (front ++ (x ∷ [])) ≡ length front + 1 = length-append front (x ∷ []) in
      let some_spare : length (front ++ (x ∷ [])) == 0 ≡ false = grind (arith, more) in
      (
        record l {
          current_buf = x;
          current_buf_index = 0;
          pre_buf = record { que = front; max_size = l.pre_buf.max_size };
          ready_buf = l.ready_buf ++ ((l.current_buf, l.current_buf_index) ∷ []);
        },
        rw (change_buf, try_pop-some l.pre_buf e) refl,
        record {
          sized = last;
          inside = omega arith;
          spare = rest;
          ready = All-append IsBlock l.ready_buf (_ ∷ []) v.ready ((v.sized, v.inside), tt);
          to_write = v.to_write;
          bound = v.bound;
          kept = omega (
            arith,
            v.kept,
            ap length e,
            more,
            length-append l.ready_buf ((l.current_buf, l.current_buf_index) ∷ []),
          );
        },
        omega arith,
        rw (e, some_spare)
            (rw (take_zero x)
              (append-nil _ ∙ joined-append l.ready_buf (l.current_buf, l.current_buf_index))),
      )
]

free_size-enough :
    (l : LogThread) (n : ℕ)
    → l.current_buf_index ≤ buf_size
    → ltb_ℤ (free_size l) (pos n) ≡ ltb (buf_size - l.current_buf_index) n
unfolding free_size
free_size-enough l n h = ground arith

not_short : (l : LogThread) → ltb (buf_size - l.current_buf_index) 0 ≡ false
not_short l = ground arith

-- Up to the first `unlock`, in a valid logger, a text of at most 102392 bytes is taken.
pub append_locked-waiting :
    (message : List ℕ) {l : LogThread}
    → IsValid l
    → length message ≤ buf_size - size_of_mes
    → (l' : LogThread) × (append_locked message l
        ≡ ok (ltb (buf_size - l.current_buf_index) (length message), l'))
      × IsValid l'
      × (waiting l'
          ≡ (if ltb (buf_size - l.current_buf_index) (length message)
              then after_change l
              else waiting l)
            ++ message)
unfolding append_locked
append_locked-waiting message {l} v short =
    elim (Bool-cases (ltb (buf_size - l.current_buf_index) (length message))) [
      | inl full ↦
          let (c, e, w, low, left) = change_buf-IsValid v in
          let fits : c.current_buf_index + length message ≤ buf_size = omega arith in
          (
            with_text message c,
            rw
                (
                  free_size-enough l 0 v.inside,
                  free_size-enough l (length message) v.inside,
                  not_short l,
                  full,
                  e,
                )
                (rw (put_text message w fits) refl),
            with_text-IsValid message w fits,
            waiting-with_text message w ∙ rw (full, left) refl,
          )
      | inr room ↦
          let fits : l.current_buf_index + length message ≤ buf_size =
            ground (arith, v.inside, room) in
          (
            with_text message l,
            rw
                (
                  free_size-enough l 0 v.inside,
                  free_size-enough l (length message) v.inside,
                  not_short l,
                  room,
                )
                (rw (put_text message v fits) refl),
            with_text-IsValid message v fits,
            waiting-with_text message v ∙ rw room refl,
          )
    ]

-- In a valid logger a text of at most 102392 bytes is taken without a fault up to the first
-- `unlock`, and the logger is then valid. If the text fits into the buffer in use, it stands behind
-- the bytes that waited, and `apendMessage` returns that logger. Else the buffer is changed: the
-- text stands behind the bytes that waited if a spare buffer is there, else the bytes of the buffer
-- in use are lost and in their place are the first 8 bytes of the message on the overflow; and
-- `apendMessage` then unlocks a mutex that it no longer holds, which is undefined.
pub append_message-waiting :
    (message : List ℕ) {l : LogThread}
    → IsValid l
    → length message ≤ buf_size - size_of_mes
    → let full = ltb (buf_size - l.current_buf_index) (length message) in
      (l' : LogThread) × (append_locked message l ≡ ok (full, l'))
      × (append_message message l ≡ (if full then fault Fault.not_the_owner else ok l'))
      × IsValid l'
      × (waiting l' ≡ (if full then after_change l else waiting l) ++ message)
unfolding append_message
append_message-waiting message {l} v short =
    let (l', e, w, waits) = append_locked-waiting message v short in
    (
      l',
      e,
      elim (Bool-cases (ltb (buf_size - l.current_buf_index) (length message))) [
        | inl full ↦ rw (e, full) refl
        | inr room ↦ rw (e, room) refl
      ],
      w,
      waits,
    )
