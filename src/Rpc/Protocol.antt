-- ===== src/Rpc/Protocol.antt =====
-- Fish/rpc/protocol.h and source/rpc/protocol.cpp: a message with its header, and the state machine
-- `create` that reads one from a stream.
pub mod Header
pub mod Machine
pub mod Stuck
pub mod OwnMessages
pub mod NeverReady
pub mod Packets
mod Tests
use fish_rpc.Prelude.{
  ltb, leb, ◌==◌, if◌then◌else◌, length, get_or, take, drop, ℕ, suc, ◌+◌, ◌-◌, ◌*◌, ◌%◌, ◌^◌, ◌&&◌,
  Option, none, some, List, [], ◌∷◌, ◌++◌, map,
}
use fish_rpc.Prelude.Outcome.{Outcome, ok, Fault, ◌>>=◌, ◌>>◌, check}
use fish_rpc.Prelude.Int.{ℤ, pos, negsuc, ◌+ℤ◌, ◌-ℤ◌, to_word, signed, to_int32}
use fish_rpc.Prelude.Bytes.{to_bytes, from_bytes}
use mathlib.Core.Option

pub data MsgType : Type 0 where
  nonsence heartbeat provider consumer : MsgType
  provider_request consumer_request provider_response consumer_response : MsgType
  method_provider_request method_provider_response : MsgType
  method_consumer_request method_consumer_response : MsgType

abbrev pub type_code : MsgType → ℕ
type_code MsgType.nonsence = 0
type_code MsgType.heartbeat = 1
type_code MsgType.provider = 2
type_code MsgType.consumer = 3
type_code MsgType.provider_request = 4
type_code MsgType.consumer_request = 5
type_code MsgType.provider_response = 6
type_code MsgType.consumer_response = 7
type_code MsgType.method_provider_request = 8
type_code MsgType.method_provider_response = 9
type_code MsgType.method_consumer_request = 10
type_code MsgType.method_consumer_response = 11

-- `RPCSTATE`, in the order of its numbers.
pub data RpcState : Type 0 where
  working free ready wait_content lack : RpcState

abbrev pub state_code : RpcState → ℕ
state_code RpcState.working = 0
state_code RpcState.free = 1
state_code RpcState.ready = 2
state_code RpcState.wait_content = 3
state_code RpcState.lack = 4

-- `struct Msg`, with its padding byte.
pub record Msg : Type 0 where
  pub magic : ℕ
  pub total_length : ℕ
  pub head_length : ℕ
  pub version : ℕ
  pub msg_type : ℕ
  pub s_format : ℕ
  pub padding : ℕ
  pub msg_id : ℕ
  pub content_length : ℕ

-- The other member of the union: the 16 bytes of the struct.
unfoldable pub msg_str : Msg → List ℕ
msg_str m =
    (m.magic ∷ m.total_length ∷ m.head_length ∷ m.version ∷ [])
    ++ (to_bytes 2 m.msg_type
        ++ ((m.s_format ∷ m.padding ∷ []) ++ (to_bytes 4 m.msg_id ++ to_bytes 4 m.content_length)))

-- The struct that 16 bytes make.
unfoldable pub of_str : List ℕ → Msg
of_str s = record {
  magic = get_or s 0 0;
  total_length = get_or s 1 0;
  head_length = get_or s 2 0;
  version = get_or s 3 0;
  msg_type = from_bytes (take 2 (drop 4 s));
  s_format = get_or s 6 0;
  padding = get_or s 7 0;
  msg_id = from_bytes (take 4 (drop 8 s));
  content_length = from_bytes (take 4 (drop 12 s));
}

pub record Protocol : Type 0 where
  pub msg : Msg
  pub content : List ℕ
  pub state : RpcState

abbrev pub df_magic : ℕ
df_magic = 0xcc

abbrev pub df_head_length : ℕ
df_head_length = 15

abbrev pub df_version : ℕ
df_version = 1

-- `sizeof(msgStr)`.
abbrev pub str_size : ℕ
str_size = 16

-- The constructor. The header's other fields keep what the memory held, `m`.
unfoldable pub construct : Msg → Protocol
construct m = record {
  msg = record m {
    magic = df_magic;
    total_length = df_head_length;
    head_length = df_head_length;
    version = df_version;
    s_format = 1;
  };
  content = [];
  state = RpcState.free;
}

-- `setContent`. The length is added to the one that stands there.
unfoldable pub set_content : List ℕ → Protocol → Protocol
set_content content p = record p {
  msg = record p.msg { content_length = (p.msg.content_length + length content) % 2 ^ 32 };
  content = content;
}

-- `setLength`; the test for a negative length is one of an unsigned byte.
unfoldable pub set_length : ℕ → Protocol → Protocol
set_length len p = record p {
  msg = record p.msg {
    total_length = (p.msg.total_length + len + 256 - p.msg.head_length) % 256;
    head_length = len % 256;
  };
}

-- `setAppendLength`.
unfoldable pub set_append_length : ℕ → Protocol → Protocol
set_append_length len p = record p {
  msg = record p.msg { total_length = (len + p.msg.head_length) % 256 };
}

-- `setHeadMsg`.
unfoldable pub set_head_msg : MsgType → ℕ → Protocol → Protocol
set_head_msg type id p = record p { msg = record p.msg { msg_type = type_code type; msg_id = id } }

-- `gettime`: the object bytes of the clock's microseconds.
abbrev pub gettime : ℕ → List ℕ
gettime now = to_bytes 8 now

-- `hbCreate`, `pvdCreat` and `csmCreate`. Each has a static object, `p`, that it sets anew and
-- hands out again on every call.
unfoldable pub hb_create : ℕ → ℕ → Protocol → Protocol
unfolding set_head_msg set_content
hb_create now id p = set_content (gettime now) (set_head_msg MsgType.heartbeat id p)

unfoldable pub pvd_creat : ℕ → ℕ → Protocol → Protocol
unfolding set_head_msg set_content
pvd_creat now id p = set_content (gettime now) (set_head_msg MsgType.provider id p)

unfoldable pub csm_create : ℕ → ℕ → Protocol → Protocol
unfolding set_head_msg set_content
csm_create now id p = set_content (gettime now) (set_head_msg MsgType.consumer id p)

-- `result`: the first `totalLength_` bytes of the header, and the content.
unfoldable pub result : Protocol → Outcome (List ℕ)
result p = do
  check (leb p.msg.total_length str_size) Fault.out_of_bounds
  ok (take p.msg.total_length (msg_str p.msg) ++ p.content)

-- The stream that `create` is given: the bytes in view, and the memory behind them, which a copy
-- past the end of the view reads.
pub record View : Type 0 where
  pub bytes : List ℕ
  pub behind : List ℕ

-- `sView.find(c)`.
unfoldable pub find : ℕ → List ℕ → Option ℕ
find c [] = none
find c (x ∷ xs) = if x == c then some 0 else Option.map suc (find c xs)

-- `std::copy(data, data + totalLength_, msgStr)`.
unfoldable pub copy_head : List ℕ → Msg → Outcome Msg
copy_head memory m = do
  let n = m.total_length
  check (leb n str_size && leb n (length memory)) Fault.out_of_bounds
  ok (of_str (take n memory ++ drop n (msg_str m)))

-- A `char` as the int that it is promoted to.
abbrev pub char_value : ℕ → ℤ
char_value c = signed (2 ^ 7) c

abbrev times_ten : ℤ → ℤ
times_ten (pos n) = pos (10 * n)
times_ten (negsuc n) = negsuc (10 * n + 9)

-- `cl *= 10; cl += (c - '0');`
unfoldable pub add_digit : ℤ → ℕ → ℤ
add_digit cl c = times_ten cl +ℤ (char_value c -ℤ pos b'0')

unfoldable pub digits_value : ℤ → List ℕ → ℤ
unfolding add_digit
digits_value cl [] = cl
digits_value cl (c ∷ cs) = digits_value (add_digit cl c) cs

-- The loop over the four bytes that end at `totalLength_`. Its index starts below 0 if the length
-- is less than 4.
unfoldable pub read_content_length : Msg → Outcome ℤ
unfolding digits_value
read_content_length m = do
  check (leb 4 m.total_length && leb m.total_length str_size) Fault.out_of_bounds
  ok (digits_value (pos 0) (take 4 (drop (m.total_length - 4) (msg_str m))))

-- What a call in state FREE comes to when the magic byte stands at `idx`, `s` is the view from
-- there on, and `m` the header that was copied: LACK if the view is shorter than the message says,
-- with `-1*idx` as the result; else the header counts as read.
unfoldable pub found : ℕ → List ℕ → Protocol → Msg → ℤ × Protocol
found idx s p m =
    if ltb (length s) m.total_length
    then (to_int32 (2 ^ 64 - idx), record p { msg = m; state = RpcState.lack })
    else (to_int32 (idx + m.total_length), record p { msg = m; state = RpcState.wait_content })

-- `create` in state FREE. The copy is made before the view is known to be long enough. From here
-- the code falls into the case LACK, whose `break` ends the call.
unfoldable pub create_free : View → Protocol → Outcome (ℤ × Protocol)
unfolding found
create_free v p = elim (find df_magic v.bytes) [
  | none ↦ ok (negsuc 0, p)
  | some idx ↦ do
    let s = drop idx v.bytes
    m ← copy_head (s ++ v.behind) p.msg
    ok (found idx s p m)
]

-- `contentLength_ - content_.size()`, in `size_t`.
abbrev pub missing : ℕ → List ℕ → ℕ
missing len content = (len + 2 ^ 64 - length content) % 2 ^ 64

-- What a call in state WAITCONTENT comes to when the header is `m`, its content length read. Where
-- content is missing the code falls into the case READY, and no byte counts as read. The count at
-- the end is taken when the content has grown.
unfoldable pub take_content : View → Protocol → Msg → ℤ × Protocol
take_content v p m =
    let grown = p.content ++ take (missing m.content_length p.content) v.bytes in
    if ltb (length v.bytes + length p.content) m.content_length
    then (pos 0, record { msg = m; content = p.content ++ v.bytes; state = RpcState.lack })
    else (
      to_int32 (missing m.content_length grown),
      record { msg = m; content = grown; state = RpcState.ready },
    )

-- `create` in state WAITCONTENT.
unfoldable pub create_wait : View → Protocol → Outcome (ℤ × Protocol)
unfolding take_content
create_wait v p = do
  cl ← read_content_length p.msg
  ok (take_content v p (record p.msg { content_length = to_word (2 ^ 32) cl }))

-- The cases of the `switch`.
unfoldable pub create_by : RpcState → View → Protocol → Outcome (ℤ × Protocol)
unfolding create_free create_wait
create_by RpcState.free v p = create_free v p
create_by RpcState.wait_content v p = create_wait v p
create_by RpcState.lack v p = ok (pos 0, p)
create_by RpcState.ready v p = ok (pos 0, p)
create_by RpcState.working v p = ok (pos 0, p)

-- `create`.
unfoldable pub create : View → Protocol → Outcome (ℤ × Protocol)
unfolding create_by
create v p = if ltb (length v.bytes) df_head_length then ok (negsuc 0, p) else create_by p.state v p
