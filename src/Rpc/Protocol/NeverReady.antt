-- ===== src/Rpc/Protocol/NeverReady.antt =====
-- What the receiver makes of the content length of a message of its own library.
use fish_rpc.Prelude.{
  lt→ltb, length, take, drop, All, ℕ, ◌+◌, ◌-◌, ◌*◌, ◌/◌, ◌%◌, ◌^◌, ◌≤◌, ◌<◌, ◌≡◌, refl, ap, ◌∙◌,
  ◌≢◌, List, [], ◌∷◌, ◌++◌, arith,
}
use fish_rpc.Prelude.Outcome.{ok}
use fish_rpc.Prelude.Int.{ℤ, pos, negsuc, to_word}
use fish_rpc.Prelude.Bytes.{to_bytes}
use fish_rpc.Rpc.Protocol.{
  Protocol, Msg, View, RpcState, create, create_wait, df_head_length, df_magic, read_content_length,
  digits_value, add_digit, msg_str,
}
use native.Mathlib.Decide.{dec_le}
use fish_rpc.Rpc.Protocol.Stuck.{feed, feed-idle}
use fish_rpc.Rpc.Protocol.OwnMessages.{
  IsOwn, head_bytes, create-brief, create-wait, received, create-header, Negative,
}

-- One more digit of a negative number, whatever the byte.
add_digit-Negative :
    (k d c : ℕ) (z : ℤ)
    → c < 256
    → 18 ≤ k
    → Negative k d z
    → Negative (10 * k - 79) (10 * d + 255) (add_digit z c)
unfolding add_digit
add_digit-Negative k d c (pos n) hc hk h = absurd (omega arith)
add_digit-Negative k d c (negsuc n) hc hk h = ground arith

-- The four bytes in front of the end of a header of 15: the top byte of the id, and three bytes of
-- the content length.
length_digits :
    (m : Msg)
    → m.total_length ≡ 15
    → m.msg_id < 2 ^ 24
    → take 4 (drop (m.total_length - 4) (msg_str m))
      ≡ 0
        ∷ m.content_length % 256
        ∷ m.content_length / 256 % 256
        ∷ m.content_length / 256 / 256 % 256
        ∷ []
unfolding msg_str to_bytes
length_digits m e h =
    let a : m.total_length - 4 ≡ 11 = omega arith in
    let top : m.msg_id / 256 / 256 / 256 % 256 ≡ 0 = omega arith in rw (a, top)

four_digits :
    (a b c : ℕ)
    → a < 256
    → b < 256
    → c < 256
    → Negative 39231 28305 (digits_value (pos 0) (0 ∷ a ∷ b ∷ c ∷ []))
unfolding digits_value
four_digits a b c ha hb hc = add_digit-Negative 3931 2805 c _ hc (omega arith) (
    add_digit-Negative 401 255 b _ hb (omega arith)
      (add_digit-Negative 48 0 a (add_digit (pos 0) 0) ha (omega arith) minus_zero))
  where
    minus_zero : Negative 48 0 (add_digit (pos 0) 0)
    minus_zero = omega arith

-- Read as decimal digits they make a negative number.
read_content_length-Negative :
    (m : Msg)
    → m.total_length ≡ 15
    → m.msg_id < 2 ^ 24
    → (cl : ℤ) × (read_content_length m ≡ ok cl) × Negative 39231 28305 cl
unfolding read_content_length
read_content_length-Negative m e h = (
  digits_value (pos 0) (take 4 (drop (m.total_length - 4) (msg_str m))),
  ground arith,
  rw (length_digits m e h) (
      four_digits (m.content_length % 256) (m.content_length / 256 % 256)
        (m.content_length / 256 / 256 % 256) (omega arith) (omega arith) (omega arith)),
)

to_word-Negative : (z : ℤ) → Negative 39231 28305 z → 2 ^ 32 - 67536 ≤ to_word (2 ^ 32) z
to_word-Negative (pos n) h = absurd (omega arith)
to_word-Negative (negsuc n) h = omega arith

-- What a call comes to that finds too little content for the header `m`.
abbrev lacking : View → Protocol → Msg → Protocol
lacking v p m = record { msg = m; content = p.content ++ v.bytes; state = RpcState.lack }

create_wait-lacking :
    (v : View) (p : Protocol) (cl : ℤ)
    → read_content_length p.msg ≡ ok cl
    → length v.bytes + length p.content < to_word (2 ^ 32) cl
    → create_wait v p
      ≡ ok (pos 0, lacking v p (record p.msg { content_length = to_word (2 ^ 32) cl }))
unfolding create_wait
create_wait-lacking v p cl e h = rw (e, lt→ltb _ _ h)

-- A message that waits for the content that one of the library's own headers announces.
record WaitsForOwn (p : Protocol) : Type 0 where
  waiting : p.state ≡ RpcState.wait_content
  bare : p.content ≡ []
  standard : p.msg.total_length ≡ 15
  small_id : p.msg.msg_id < 2 ^ 24

-- It goes to LACK on the next view that is long enough to be looked at, and reads nothing.
create-WaitsForOwn :
    (v : View) (p : Protocol)
    → WaitsForOwn p
    → length v.bytes < 2 ^ 31
    → 15 ≤ length v.bytes
    → (m : Msg) × (create v p ≡ ok (pos 0, lacking v p m))
create-WaitsForOwn v p w small long =
    let (cl, e, neg) = read_content_length-Negative p.msg w.standard w.small_id in
    let none_held : length p.content ≡ 0 = ap length w.bare in
    (
      record p.msg { content_length = to_word (2 ^ 32) cl },
      create-wait v p long w.waiting
          ∙ create_wait-lacking v p cl e (omega (arith, to_word-Negative cl neg)),
    )

abbrev Short : View → Type 0
Short v = length v.bytes < 2 ^ 31

feed-WaitsForOwn :
    (vs : List View) (p : Protocol)
    → WaitsForOwn p
    → All Short vs
    → (p' : Protocol) × (feed vs p ≡ ok p') × (p'.state ≢ RpcState.ready)
unfolding feed
feed-WaitsForOwn [] p w h = (p, refl, λ e. cc (w.waiting))
feed-WaitsForOwn (v ∷ vs) p w h = elim (dec_le 15 (length v.bytes)) [
  | yes long ↦
      let (m, e) = create-WaitsForOwn v p w h.0 long in
      (lacking v p m, rw e (feed-idle vs (lacking v p m) (λ r. r)), λ q. cc)
  | no brief ↦
      let (p', e, n) = feed-WaitsForOwn vs p w h.1 in (p', rw (create-brief v p (omega arith)) e, n)
]

-- Where a receiver that was FREE, without content and with 15 in its own total_length, gets a view
-- in which fewer than 2 ^ 30 bytes, none of them the magic byte, stand in front of the whole header
-- of a message of the library's own, with an id below 2 ^ 24: whatever follows in that view, and
-- however the stream is cut into later views of less than 2 ^ 31 bytes, the receiver never becomes
-- READY, and `create` does not fault.
pub own-never-ready :
    (s : Msg) (p : Protocol) (noise rest behind : List ℕ) (vs : List View)
    → IsOwn s
    → s.msg_id < 2 ^ 24
    → p.state ≡ RpcState.free
    → p.content ≡ []
    → p.msg.total_length ≡ df_head_length
    → All (λ x. x ≢ df_magic) noise
    → length noise < 2 ^ 30
    → All Short vs
    → (p' : Protocol) × (feed
          (record { bytes = noise ++ (head_bytes s ++ rest); behind = behind } ∷ vs)
          p
        ≡ ok p')
      × (p'.state ≢ RpcState.ready)
unfolding feed
own-never-ready s p noise rest behind vs o id st bare tot clean small short =
    let (p', e, n) = feed-WaitsForOwn vs (received s p) waits short in
    (p', rw (create-header s p noise rest behind o st tot clean small) e, n)
  where
    waits : WaitsForOwn (received s p)
    waits = record { waiting = refl; bare = bare; standard = o.standard; small_id = id }
