-- ===== src/Rpc/Protocol/Header.antt =====
-- The two members of the header union of Fish/rpc/protocol.h: the struct and its bytes.
use fish_rpc.Prelude.{
  leb, length, take, drop, length-append, length-take, take-append_length, ℕ, ◌+◌, ◌*◌, ◌/◌, ◌%◌,
  ◌^◌, ◌<◌, ◌≡◌, refl, sym, ap, true, List, ◌++◌, arith,
}
use fish_rpc.Prelude.Outcome.{ok}
use fish_rpc.Prelude.Bytes.{to_bytes, from_bytes}
use fish_rpc.Rpc.Protocol.{Msg, msg_str, of_str, copy_head, str_size}

-- The ranges of the fields' types.
pub record HeaderFits (m : Msg) : Type 0 where
  pub magic_fits : m.magic < 256
  pub total_fits : m.total_length < 256
  pub head_fits : m.head_length < 256
  pub version_fits : m.version < 256
  pub type_fits : m.msg_type < 2 ^ 16
  pub format_fits : m.s_format < 256
  pub padding_fits : m.padding < 256
  pub id_fits : m.msg_id < 2 ^ 32
  pub content_fits : m.content_length < 2 ^ 32

pub length-msg_str : (m : Msg) → length (msg_str m) ≡ str_size
unfolding msg_str to_bytes
length-msg_str m = refl

-- The struct of the header union, with every field in the range of its type, is read back from its
-- 16 bytes.
pub of_str-msg_str : (m : Msg) → HeaderFits m → of_str (msg_str m) ≡ m
unfolding msg_str of_str to_bytes from_bytes
of_str-msg_str m v = ground arith

-- What a receiver's struct `m` becomes when the first 15 bytes of the sender's struct `s` are copied
-- over it: the sender's fields, but for the top byte of the content length, which stays.
abbrev pub overlaid : Msg → Msg → Msg
overlaid s m = record s {
  content_length = s.content_length % 2 ^ 24 + 2 ^ 24 * (m.content_length / 2 ^ 24 % 256);
}

head_bytes :
    (s m : Msg) → HeaderFits s → of_str (take 15 (msg_str s) ++ drop 15 (msg_str m)) ≡ overlaid s m
unfolding msg_str of_str to_bytes from_bytes
head_bytes s m v = ground arith

pub copy_head-overlaid :
    (s m : Msg) (rest : List ℕ)
    → HeaderFits s
    → m.total_length ≡ 15
    → copy_head (take 15 (msg_str s) ++ rest) m ≡ ok (overlaid s m)
unfolding copy_head
copy_head-overlaid s m rest v e =
    let l : length (take 15 (msg_str s)) ≡ 15 =
      omega (arith, length-take 15 (msg_str s), length-msg_str s) in
    let enough : leb 15 (length (take 15 (msg_str s) ++ rest)) ≡ true =
      ground (arith, length-append (take 15 (msg_str s)) rest) in
    simp (e, enough, take-append_length 15 (take 15 (msg_str s)) rest (sym l))
      (ap ok (head_bytes s m v))
