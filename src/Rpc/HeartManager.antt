-- ===== src/Rpc/HeartManager.antt =====
-- Fish/rpc/heart_manager.h and source/rpc/heart_manager.cpp: the heartbeats to one peer, their
-- statistics, and whether the peer is alive.
pub mod Window
pub mod Statistics
mod Tests
use fish_rpc.Prelude.{
  ltb, ◌==◌, if◌then◌else◌, length, ℕ, ◌+◌, ◌-◌, ◌/◌, ◌%◌, ◌^◌, Bool, true, false, not, Option,
  none, some, List, [], ◌∷◌, ◌++◌, map,
}
use fish_rpc.Prelude.Outcome.{Outcome, ok, fault, Fault, ◌>>=◌, ◌>>◌, check}
use fish_rpc.Prelude.Int.{ℤ, pos, ◌-ℤ◌, ltb_ℤ, to_word, signed}

-- `heatTask`.
pub record HeatTask : Type 0 where
  pub send_time : ℤ
  pub recv_time : ℤ
  pub id : ℕ
  pub service_id : ℕ
  pub statistics : Bool

-- The list's first node is the oldest.
pub record HeartManager : Type 0 where
  pub max_size : ℕ
  pub list : List HeatTask
  pub self_id : ℕ
  pub target_id : ℕ
  pub begin_time : ℤ
  pub total_time : ℕ
  pub total_num : ℕ
  pub loss_num : ℕ

-- The constructor.
unfoldable pub construct : ℕ → ℕ → ℕ → HeartManager
construct self target max_size = record {
  max_size = max_size;
  list = [];
  self_id = self;
  target_id = target;
  begin_time = pos 0;
  total_time = 0;
  total_num = 0;
  loss_num = 0;
}

-- `node.recvTime > node.sendTime`.
abbrev pub answered : HeatTask → Bool
answered node = ltb_ℤ node.send_time node.recv_time

-- The loop of `alive`.
unfoldable pub any_answered : List HeatTask → Bool
any_answered [] = false
any_answered (node ∷ nodes) = let rest = any_answered nodes in if answered node then true else rest

unfoldable pub alive : HeartManager → Bool
unfolding any_answered
alive m = any_answered m.list

-- `sendHeart`: an empty text while the peer is alive.
unfoldable pub send_heart : HeartManager → Option (List ℕ)
unfolding alive
send_heart m = if alive m then some [] else none

-- `recvHeart`: it asserts `sizeof(HeartData)`, and changes nothing.
unfoldable pub recv_heart : List ℕ → HeartManager → Outcome HeartManager
recv_heart content m = do check (length content == 4) Fault.assert_failed; ok m

-- The node that is taken over for a new heartbeat: its other two fields stay.
abbrev pub reuse : HeatTask → HeatTask → HeatTask
reuse node old = record old { send_time = node.send_time; recv_time = node.recv_time; id = node.id }

-- The branches on the size of the list. In a list without a node the iterator cannot be spliced.
unfoldable pub rotate : HeatTask → List HeatTask → Outcome (List HeatTask)
rotate node [] = fault Fault.bad_iterator
rotate node (old ∷ nodes) = ok (nodes ++ (reuse node old ∷ []))

unfoldable pub place : ℕ → HeatTask → List HeatTask → Outcome (List HeatTask)
unfolding rotate
place max_size node list =
    if ltb (length list) max_size then ok (list ++ (node ∷ [])) else rotate node list

abbrev pub is_empty : List HeatTask → Bool
is_empty [] = true
is_empty (node ∷ nodes) = false

-- `insertNode`, at the clock's time `now`.
unfoldable pub insert_node : ℤ → HeatTask → HeartManager → Outcome HeartManager
unfolding place
insert_node now node m = do
  list ← place m.max_size node m.list
  ok (record m { begin_time = if is_empty m.list then now else m.begin_time; list = list })

-- What the loop of `updateMessage` does for a node: the node, and the statistics.
unfoldable pub count_node : HeatTask → HeartManager → HeartManager
count_node node m =
    if node.statistics
    then m
    else if answered node
    then record m {
      total_num = (m.total_num + 1) % 2 ^ 32;
      total_time = (m.total_time + to_word (2 ^ 64) (node.recv_time -ℤ node.send_time)) % 2 ^ 64;
    }
    else record m { total_num = (m.total_num + 1) % 2 ^ 32; loss_num = (m.loss_num + 1) % 2 ^ 16 }

unfoldable pub count_nodes : List HeatTask → HeartManager → HeartManager
unfolding count_node
count_nodes [] m = m
count_nodes (node ∷ nodes) m = count_nodes nodes (count_node node m)

abbrev pub mark : HeatTask → HeatTask
mark node = record node { statistics = true }

-- `updateMessage`.
unfoldable pub update_message : HeartManager → HeartManager
unfolding count_nodes
update_message m = record (count_nodes m.list m) { list = map mark m.list }

-- `aveTime`: the quotient is taken in `uint32_t`, and returned as an `int16_t`.
unfoldable pub ave_time : HeartManager → Outcome ℤ
ave_time m = do
  let answered_num = (m.total_num + 2 ^ 32 - m.loss_num) % 2 ^ 32
  check (not (answered_num == 0)) Fault.divide_by_zero
  ok (signed (2 ^ 15) (m.loss_num / answered_num % 2 ^ 16))
