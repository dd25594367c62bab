-- ===== src/Rpc/Protocol/Packets.antt =====
-- The packets of `hbCreate`, `pvdCreat` and `csmCreate` in source/rpc/protocol.cpp, whose objects
-- are static and serve every call.
use fish_rpc.Prelude.{
  length, take, ℕ, ◌+◌, ◌*◌, ◌%◌, ◌^◌, ◌<◌, ◌≡◌, refl, List, [], ◌∷◌, ◌++◌, arith,
}
use fish_rpc.Prelude.Outcome.{ok}
use fish_rpc.Prelude.Bytes.{to_bytes, length-to_bytes}
use fish_rpc.Rpc.Protocol.{
  Protocol, Msg, MsgType, construct, hb_create, pvd_creat, csm_create, set_content, set_head_msg,
  result, msg_str, type_code,
}
use fish_rpc.Rpc.Protocol.Header.{HeaderFits}
use fish_rpc.Rpc.Protocol.OwnMessages.{IsOwn}

-- The calls of one of the three functions, with the time and the id of each.
unfoldable pub calls : (ℕ → ℕ → Protocol → Protocol) → List (ℕ × ℕ) → Protocol → Protocol
calls f [] p = p
calls f ((now, id) ∷ cs) p = calls f cs (f now id p)

-- The call of one kind of packet: it sets type and id, and puts the 8 bytes of the time there.
abbrev Makes : MsgType → (ℕ → ℕ → Protocol → Protocol) → Type 0
Makes type f =
    (now id : ℕ) (p : Protocol) → f now id p ≡ set_content (to_bytes 8 now) (set_head_msg type id p)

hb_create-Makes : Makes MsgType.heartbeat hb_create
unfolding hb_create
hb_create-Makes now id p = refl

pvd_creat-Makes : Makes MsgType.provider pvd_creat
unfolding pvd_creat
pvd_creat-Makes now id p = refl

csm_create-Makes : Makes MsgType.consumer csm_create
unfolding csm_create
csm_create-Makes now id p = refl

packet-content_length :
    (type : MsgType) (f : ℕ → ℕ → Protocol → Protocol)
    → Makes type f
    → (now id : ℕ) (p : Protocol)
    → ((f now id p).msg.content_length ≡ (p.msg.content_length + 8) % 2 ^ 32)
      × (length (f now id p).content ≡ 8)
unfolding set_content set_head_msg
packet-content_length type f h now id p =
    rw (h now id p) (rw (length-to_bytes 8 now), length-to_bytes 8 now)

calls-content_length :
    (type : MsgType) (f : ℕ → ℕ → Protocol → Protocol)
    → Makes type f
    → (cs : List (ℕ × ℕ)) (p : Protocol) → p.msg.content_length < 2 ^ 32
    → (calls f cs p).msg.content_length ≡ (p.msg.content_length + 8 * length cs) % 2 ^ 32
unfolding calls
calls-content_length type f h [] p fits = omega arith
calls-content_length type f h ((now, id) ∷ cs) p fits =
    let e = (packet-content_length type f h now id p).0 in
    omega (arith, e, calls-content_length type f h cs (f now id p) (omega (arith, e)))

calls-length :
    (type : MsgType) (f : ℕ → ℕ → Protocol → Protocol)
    → Makes type f
    → (c : ℕ × ℕ) (cs : List (ℕ × ℕ)) (p : Protocol) → length (calls f (c ∷ cs) p).content ≡ 8
unfolding calls
calls-length type f h (now, id) [] p = (packet-content_length type f h now id p).1
calls-length type f h (now, id) (c ∷ cs) p = calls-length type f h c cs (f now id p)

-- After the calls the content is 8 bytes long, and the content length is 8 times their number, on
-- top of what stood there.
abbrev pub Accumulated : (ℕ → ℕ → Protocol → Protocol) → List (ℕ × ℕ) → Protocol → Type 0
Accumulated f cs p =
    (length (calls f cs p).content ≡ 8)
    × ((calls f cs p).msg.content_length ≡ (p.msg.content_length + 8 * length cs) % 2 ^ 32)

-- After any calls of one of the three packet functions on one object, one at least, the content is
-- 8 bytes long, and the content length is, modulo 2 ^ 32, what stood there at first and 8 for each
-- call.
pub packets-Accumulated :
    (c : ℕ × ℕ) (cs : List (ℕ × ℕ)) (p : Protocol)
    → p.msg.content_length < 2 ^ 32
    → Accumulated hb_create (c ∷ cs) p
      × Accumulated pvd_creat (c ∷ cs) p
      × Accumulated csm_create (c ∷ cs) p
packets-Accumulated c cs p fits = (
  accumulated MsgType.heartbeat hb_create hb_create-Makes,
  accumulated MsgType.provider pvd_creat pvd_creat-Makes,
  accumulated MsgType.consumer csm_create csm_create-Makes,
)
  where
    accumulated :
        (type : MsgType) (f : ℕ → ℕ → Protocol → Protocol) → Makes type f → Accumulated f (c ∷ cs) p
    accumulated type f h =
        (calls-length type f h c cs p, calls-content_length type f h (c ∷ cs) p fits)

type_code-lt : (t : MsgType) → type_code t < 2 ^ 16
type_code-lt MsgType.nonsence = omega arith
type_code-lt _ = omega arith

-- A packet made from a freshly constructed object: `result` sends a header of the library's own,
-- with the packet's type and id, and the 8 bytes of the time.
abbrev pub SendsOwn : MsgType → (ℕ → ℕ → Protocol → Protocol) → ℕ → ℕ → Msg → Type 0
SendsOwn type f now id junk =
    let q = f now id (construct junk) in
    (result q ≡ ok (take 15 (msg_str q.msg) ++ to_bytes 8 now))
    × IsOwn q.msg
    × (q.msg.msg_type ≡ type_code type)
    × (q.msg.msg_id ≡ id)

packet-SendsOwn :
    (type : MsgType) (f : ℕ → ℕ → Protocol → Protocol)
    → Makes type f
    → (now id : ℕ) (junk : Msg) → HeaderFits junk
    → id < 2 ^ 32
    → SendsOwn type f now id junk
unfolding construct set_content set_head_msg result
packet-SendsOwn type f h now id junk fits small =
    rw (h now id (construct junk)) (refl, own, refl, refl)
  where
    own : IsOwn (set_content (to_bytes 8 now) (set_head_msg type id (construct junk))).msg
    own = omega (arith, type_code-lt type)

-- The first packet of each of the three kinds, for an id below 2 ^ 32, whatever the memory held:
-- `result` does not fault, and gives the first 15 bytes of the header and the 8 bytes of the time.
-- The header begins with the magic byte, announces 15 bytes for itself, and carries the packet's
-- type and id.
pub packets-SendsOwn :
    (now id : ℕ) (junk : Msg)
    → HeaderFits junk
    → id < 2 ^ 32
    → SendsOwn MsgType.heartbeat hb_create now id junk
      × SendsOwn MsgType.provider pvd_creat now id junk
      × SendsOwn MsgType.consumer csm_create now id junk
packets-SendsOwn now id junk fits small = (
  packet-SendsOwn MsgType.heartbeat hb_create hb_create-Makes now id junk fits small,
  packet-SendsOwn MsgType.provider pvd_creat pvd_creat-Makes now id junk fits small,
  packet-SendsOwn MsgType.consumer csm_create csm_create-Makes now id junk fits small,
)
