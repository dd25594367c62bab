-- ===== src/Log/LogThread/Blocks.antt =====
-- Log/LogThread: the buffers of a valid logger and the bytes that wait in them, when a text is
-- appended.
use fish_rpc.Prelude.{
  leb, ◌==◌, if◌then◌else◌, length, take, drop, All, length-append, length-take, length-drop,
  take-append_length, ℕ, ◌+◌, ◌≤◌, ◌≡◌, refl, sym, ap, ◌∙◌, true, Option, none, some, List, [], ◌∷◌,
  ◌++◌, append-nil, append_assoc, arith,
}
use fish_rpc.Prelude.Outcome.{ok}
use fish_rpc.Base.SafeQueue.{MyQueue, pop_back, try_pop}
use fish_rpc.Net.Buffer.{copy_in}
use fish_rpc.Log.LogThread.{LogThread, Block, buf_size, buf_num, over_flow_mes, size_of_mes}

abbrev pub IsBlock : Block → Type 0
IsBlock b = (length b.0 ≡ buf_size) × (b.1 ≤ buf_size)

-- Every buffer has its full size, and there are as many as the constructor made.
pub record IsValid (l : LogThread) : Type 0 where
  pub sized : length l.current_buf ≡ buf_size
  pub inside : l.current_buf_index ≤ buf_size
  pub spare : All (λ (b : List ℕ). length b ≡ buf_size) l.pre_buf.que
  pub ready : All IsBlock l.ready_buf
  pub to_write : All IsBlock l.buf_to_write
  pub bound : l.pre_buf.max_size ≡ buf_num
  pub kept : 1 + length l.pre_buf.que + length l.ready_buf + length l.buf_to_write ≡ buf_num

-- The bytes in use.
abbrev pub used : Block → List ℕ
used b = take b.1 b.0

abbrev pub joined : List Block → List ℕ
joined [] = []
joined (b ∷ bs) = used b ++ joined bs

-- The bytes that wait, the oldest first.
abbrev pub waiting : LogThread → List ℕ
waiting l = joined l.ready_buf ++ take l.current_buf_index l.current_buf

module _ {A : Type 0} where
  pub pop_back-append : (xs : List A) (x : A) → pop_back (xs ++ (x ∷ [])) ≡ some (xs, x)
  unfolding pop_back
  pop_back-append [] x = refl
  pop_back-append (y ∷ ys) x = rw (pop_back-append ys x) refl

pub joined-append : (bs : List Block) (b : Block) → joined (bs ++ (b ∷ [])) ≡ joined bs ++ used b
joined-append [] b = append-nil (used b)
joined-append (c ∷ bs) b =
    ap (λ t. used c ++ t) (joined-append bs b) ∙ sym (append_assoc (used c) (joined bs) (used b))

pub take_zero : {A : Type 0} (xs : List A) → take 0 xs ≡ []
take_zero [] = refl
take_zero (x ∷ xs) = refl

pub length-copied :
    (j : ℕ) (view buf : List ℕ)
    → j + length view ≤ length buf
    → length (take j buf ++ view ++ drop (j + length view) buf) ≡ length buf
length-copied j view buf h = omega (
  arith,
  length-append (take j buf ++ view) (drop (j + length view) buf),
  length-append (take j buf) view,
  length-take j buf,
  length-drop (j + length view) buf,
)

take-copied :
    (j : ℕ) (view buf : List ℕ)
    → j ≤ length buf
    → take (j + length view) (take j buf ++ view ++ drop (j + length view) buf) ≡ take j buf ++ view
take-copied j view buf h =
    take-append_length (j + length view) (take j buf ++ view) (drop (j + length view) buf)
      (omega (arith, length-append (take j buf) view, length-take j buf))

-- The buffer in use, with a text behind what it holds.
abbrev pub with_text : List ℕ → LogThread → LogThread
with_text m l = record l {
  current_buf =
      take l.current_buf_index l.current_buf
      ++ m
      ++ drop (l.current_buf_index + length m) l.current_buf;
  current_buf_index = l.current_buf_index + length m;
}

pub with_text-IsValid :
    (m : List ℕ) {l : LogThread}
    → IsValid l
    → l.current_buf_index + length m ≤ buf_size
    → IsValid (with_text m l)
with_text-IsValid m {l} v fits = record {
  sized = length-copied l.current_buf_index m l.current_buf (omega (arith, v.sized)) ∙ v.sized;
  inside = fits;
  spare = v.spare;
  ready = v.ready;
  to_write = v.to_write;
  bound = v.bound;
  kept = v.kept;
}

pub waiting-with_text :
    (m : List ℕ) {l : LogThread} → IsValid l → waiting (with_text m l) ≡ waiting l ++ m
waiting-with_text m {l} v =
    ap (λ t. joined l.ready_buf ++ t)
      (take-copied l.current_buf_index m l.current_buf (omega (arith, v.sized, v.inside)))
    ∙ sym (append_assoc (joined l.ready_buf) (take l.current_buf_index l.current_buf) m)

pub put_text :
    (m : List ℕ) {l : LogThread}
    → IsValid l
    → l.current_buf_index + length m ≤ buf_size
    → copy_in m l.current_buf_index l.current_buf ≡ ok (with_text m l).current_buf
unfolding copy_in
put_text m {l} v fits =
    let within : leb (l.current_buf_index + length m) (length l.current_buf) ≡ true =
      ground (arith, v.sized) in
    rw within refl

-- What `change_buf` leaves to wait.
abbrev pub after_change : LogThread → List ℕ
after_change l =
    if length l.pre_buf.que == 0
    then joined l.ready_buf ++ take size_of_mes over_flow_mes
    else waiting l

pub try_pop-none : {T : Type 0} (q : MyQueue T) → q.que ≡ [] → try_pop q ≡ (none, q)
unfolding try_pop pop_back
try_pop-none {T} q e =
    ap {B = Option T × MyQueue T}
      (λ xs. elim (pop_back {T = T} xs) [
        | none ↦ (none, q)
        | some (front, last) ↦ (some last, record q { que = front })
      ])
      e

pub try_pop-some :
    {T : Type 0} (q : MyQueue T) {front : List T} {x : T}
    → q.que ≡ front ++ (x ∷ [])
    → try_pop q ≡ (some x, record { que = front; max_size = q.max_size })
unfolding try_pop
try_pop-some {T} q {front} {x} e =
    ap {B = Option T × MyQueue T}
      (λ xs. elim xs [
        | none ↦ (none, q)
        | some (front, last) ↦ (some last, record q { que = front })
      ])
      (ap pop_back e ∙ pop_back-append front x)
