-- ===== src/Rpc/Protocol/OwnMessages.antt =====
-- What `create` of source/rpc/protocol.cpp makes of the messages that `result` of the same file
-- writes.
use fish_rpc.Prelude.{
  ltb, lt→ltb, le→ltb_false, ==_refl, length, take, drop, All, length-append, length-take,
  drop-append, ℕ, ◌+◌, ◌^◌, ◌≤◌, ◌<◌, ◌≡◌, refl, ap, ◌∙◌, ◌≢◌, false, some, List, [], ◌∷◌, ◌++◌,
  append_assoc, arith,
}
use fish_rpc.Prelude.Outcome.{ok}
use fish_rpc.Prelude.Int.{ℤ, pos, negsuc, pos_part, neg_part}
use fish_rpc.Prelude.Bytes.{to_bytes}
use fish_rpc.Rpc.Protocol.{
  Protocol, Msg, View, RpcState, create, create_by, create_free, create_wait, found, df_head_length,
  df_magic, find, copy_head, msg_str,
}
use fish_rpc.Rpc.Protocol.Header.{HeaderFits, overlaid, copy_head-overlaid, length-msg_str}

-- The magic byte is found behind bytes that are not magic.
find-append :
    (c : ℕ) (xs ys : List ℕ) → All (λ x. x ≢ c) xs → find c (xs ++ (c ∷ ys)) ≡ some (length xs)
unfolding find
find-append c [] ys h = rw (==_refl c)
find-append c (x ∷ xs) ys h = ground (arith, find-append c xs ys h.1)

-- A header as the library writes it: 15 bytes that begin with the magic byte.
pub record IsOwn (m : Msg) : Type 0 where
  pub fits : HeaderFits m
  pub magic_first : m.magic ≡ df_magic
  pub standard : m.total_length ≡ df_head_length

abbrev pub head_bytes : Msg → List ℕ
head_bytes s = take 15 (msg_str s)

head_bytes-cons :
    (s : Msg) → IsOwn s → (ys : List ℕ) × (head_bytes s ≡ df_magic ∷ ys) × (length ys ≡ 14)
unfolding msg_str to_bytes
head_bytes-cons s o =
    (drop 1 (head_bytes s), ap (λ c. c ∷ drop 1 (head_bytes s)) o.magic_first, refl)

create-free :
    (v : View) (p : Protocol)
    → df_head_length ≤ length v.bytes
    → p.state ≡ RpcState.free
    → create v p ≡ create_free v p
unfolding create
create-free v p h st =
    let e : ltb (length v.bytes) df_head_length ≡ false = le→ltb_false _ _ h in
    rw e (ap (λ s. create_by s v p) st ∙ unfold create_by in refl)

pub create-brief :
    (v : View) (p : Protocol) → length v.bytes < df_head_length → create v p ≡ ok (negsuc 0, p)
unfolding create
create-brief v p h = rw (lt→ltb _ _ h)

pub create-wait :
    (v : View) (p : Protocol)
    → df_head_length ≤ length v.bytes
    → p.state ≡ RpcState.wait_content
    → create v p ≡ create_wait v p
unfolding create
create-wait v p h st =
    let e : ltb (length v.bytes) df_head_length ≡ false = le→ltb_false _ _ h in
    rw e (ap (λ s. create_by s v p) st ∙ unfold create_by in refl)

create_free-found :
    (v : View) (p : Protocol) (i : ℕ) (s : List ℕ) (m : Msg)
    → find df_magic v.bytes ≡ some i
    → drop i v.bytes ≡ s
    → copy_head (s ++ v.behind) p.msg ≡ ok m
    → create_free v p ≡ ok (found i s p m)
unfolding create_free found
create_free-found v p i s m e d c = rw (e, create_free, d, c)

-- What a receiver holds when the header of the sender's message has been read.
abbrev pub received : Msg → Protocol → Protocol
received s p = record p { msg = overlaid s p.msg; state = RpcState.wait_content }

-- A FREE message with a header of 15 bytes that is fed fewer than 2 ^ 30 bytes without the magic
-- byte, a header of the library's own, and anything behind it, takes over that header, but for the
-- top byte of the content length, and waits for content; the bytes in front and the header count as
-- read.
pub create-header :
    (s : Msg) (p : Protocol) (noise rest behind : List ℕ)
    → IsOwn s
    → p.state ≡ RpcState.free
    → p.msg.total_length ≡ df_head_length
    → All (λ x. x ≢ df_magic) noise
    → length noise < 2 ^ 30
    → create (record { bytes = noise ++ (head_bytes s ++ rest); behind = behind }) p
      ≡ ok (pos (length noise + 15), received s p)
unfolding found
create-header s p noise rest behind o st tot clean small =
    create-free _ p (omega (arith, length-append noise (head_bytes s ++ rest), long)) st
    ∙ create_free-found _ p (length noise) (head_bytes s ++ rest) (overlaid s p.msg) at_noise
        (drop-append noise (head_bytes s ++ rest))
        (rw (append_assoc (head_bytes s) rest behind)
          (copy_head-overlaid s p.msg (rest ++ behind) o.fits tot))
    ∙ ap ok found_all
  where
    long : length (head_bytes s ++ rest) ≡ 15 + length rest
    long =
        omega
          (arith, length-append (head_bytes s) rest, length-take 15 (msg_str s), length-msg_str s)

    at_noise : find df_magic (noise ++ (head_bytes s ++ rest)) ≡ some (length noise)
    at_noise =
        let (ys, e, _) = head_bytes-cons s o in rw e (find-append df_magic noise (ys ++ rest) clean)

    found_all :
        found (length noise) (head_bytes s ++ rest) p (overlaid s p.msg)
        ≡ (pos (length noise + 15), received s p)
    found_all = ground (arith, long, o.standard)

-- The int is negative, between -(k + d) and -k.
abbrev pub Negative : ℕ → ℕ → ℤ → Type 0
Negative k d z = (pos_part z ≡ 0) × (k ≤ neg_part z) × (neg_part z ≤ k + d)
