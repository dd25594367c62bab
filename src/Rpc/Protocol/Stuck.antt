-- ===== src/Rpc/Protocol/Stuck.antt =====
-- Streams of views through `create` of source/rpc/protocol.cpp, and the states that it never leaves.
use fish_rpc.Prelude.{ltb, Bool-cases, length, ◌≡◌, refl, inl, inr, List, [], ◌∷◌, arith}
use fish_rpc.Prelude.Outcome.{Outcome, ok, ◌>>=◌}
use fish_rpc.Prelude.Int.{ℤ, pos, negsuc, ◌≤ℤ◌}
use fish_rpc.Rpc.Protocol.{Protocol, View, RpcState, create, create_by, df_head_length}

-- A message that is fed one view after the other.
unfoldable pub feed : List View → Protocol → Outcome Protocol
feed [] p = ok p
feed (v ∷ vs) p = do (_, p') ← create v p; feed vs p'

-- Only a message in one of these two states reads anything.
abbrev pub IsReading : RpcState → Type 0
IsReading RpcState.free = Unit {0}
IsReading RpcState.wait_content = Unit {0}
IsReading RpcState.ready = ⊥
IsReading RpcState.working = ⊥
IsReading RpcState.lack = ⊥

create_by-idle :
    (s : RpcState) (v : View) (p : Protocol) → ¬ IsReading s → create_by s v p ≡ ok (pos 0, p)
unfolding create_by
create_by-idle RpcState.free v p h = absurd (h tt)
create_by-idle RpcState.wait_content v p h = absurd (h tt)
create_by-idle RpcState.ready v p h = refl
create_by-idle RpcState.working v p h = refl
create_by-idle RpcState.lack v p h = refl

pub create-idle :
    (v : View) (p : Protocol)
    → ¬ IsReading p.state
    → (n : ℤ) × (create v p ≡ ok (n, p)) × (n ≤ℤ pos 0)
unfolding create
create-idle v p h = elim (Bool-cases (ltb (length v.bytes) df_head_length)) [
  | inl e ↦ (negsuc 0, rw e, omega arith)
  | inr e ↦ (pos 0, rw e (create_by-idle p.state v p h), omega arith)
]

-- A message that is neither FREE nor in WAITCONTENT stays as it is, and nothing faults, whatever
-- views it is fed; in particular LACK is never left.
pub feed-idle : (vs : List View) (p : Protocol) → ¬ IsReading p.state → feed vs p ≡ ok p
unfolding feed
feed-idle [] p h = refl
feed-idle (v ∷ vs) p h = let (n, e, _) = create-idle v p h in rw e (feed-idle vs p h)
