-- ===== src/Rpc/HeartManager/Statistics.antt =====
-- What `updateMessage` and `aveTime` of Fish/rpc/heart_manager.h and source/rpc/heart_manager.cpp
-- count.
use fish_rpc.Prelude.{
  if◌then◌else◌, le→ltb_false, Bool-cases, length, All, All-append, ℕ, ◌+◌, ◌%◌, ◌^◌, ◌≤◌, ◌<◌, ◌≡◌,
  refl, ap, ◌∙◌, ◌↔◌, inl, inr, true, List, [], ◌∷◌, ◌++◌, map, arith,
}
use fish_rpc.Prelude.Outcome.{ok, fault, Fault}
use fish_rpc.Prelude.Int.{ℤ}
use fish_rpc.Rpc.HeartManager.{
  HeatTask, HeartManager, answered, count_node, count_nodes, mark, update_message, ave_time,
  insert_node, place, rotate, reuse, is_empty,
}

abbrev pub IsCounted : HeatTask → Type 0
IsCounted node = node.statistics ≡ true

count_nodes-counted :
    (nodes : List HeatTask) (m : HeartManager) → All IsCounted nodes → count_nodes nodes m ≡ m
unfolding count_nodes count_node
count_nodes-counted [] m h = refl
count_nodes-counted (node ∷ nodes) m h = rw h.0 (count_nodes-counted nodes m h.1)

mark-IsCounted : (nodes : List HeatTask) → All IsCounted (map mark nodes)
mark-IsCounted [] = tt
mark-IsCounted (node ∷ nodes) = (refl, mark-IsCounted nodes)

mark-mark : (nodes : List HeatTask) → map mark (map mark nodes) ≡ map mark nodes
mark-mark [] = refl
mark-mark (node ∷ nodes) = rw (mark-mark nodes)

-- A second `updateMessage` changes nothing: no heartbeat is counted twice.
pub update_message_idempotent :
    (m : HeartManager) → update_message (update_message m) ≡ update_message m
unfolding update_message
update_message_idempotent m =
    let u = update_message m in
    ap (λ (c : HeartManager). record c { list = map mark (map mark m.list) })
      (count_nodes-counted (map mark m.list) u (mark-IsCounted m.list))
    ∙ ap (λ l. record u { list = l }) (mark-mark m.list)

-- The heartbeats of a list that are not counted yet, and those of them without an answer.
abbrev pub fresh_one : HeatTask → ℕ
fresh_one node = if node.statistics then 0 else 1

abbrev pub lost_one : HeatTask → ℕ
lost_one node = if node.statistics then 0 else if answered node then 0 else 1

pub fresh_num : List HeatTask → ℕ
fresh_num [] = 0
fresh_num (node ∷ nodes) = fresh_one node + fresh_num nodes

pub lost_num : List HeatTask → ℕ
lost_num [] = 0
lost_num (node ∷ nodes) = lost_one node + lost_num nodes

-- The two counters of `m'` are those of `m` and `fresh` and `lost` more.
abbrev Counts : HeartManager → HeartManager → ℕ → ℕ → Type 0
Counts m m' fresh lost =
    (m'.total_num ≡ (m.total_num + fresh) % 2 ^ 32) × (m'.loss_num ≡ (m.loss_num + lost) % 2 ^ 16)

count_node-Counts :
    (node : HeatTask) (m : HeartManager)
    → m.total_num < 2 ^ 32
    → m.loss_num < 2 ^ 16
    → Counts m (count_node node m) (fresh_one node) (lost_one node)
unfolding count_node
count_node-Counts node m h k = elim (Bool-cases node.statistics) [
  | inl e ↦ rw e (omega arith, omega arith)
  | inr e ↦ elim (Bool-cases (answered node)) [
    | inl a ↦ rw (e, a) (omega arith, omega arith)
    | inr a ↦ rw (e, a) (omega arith, omega arith)
  ]
]

count_nodes-Counts :
    (nodes : List HeatTask) (m : HeartManager)
    → m.total_num < 2 ^ 32
    → m.loss_num < 2 ^ 16
    → Counts m (count_nodes nodes m) (fresh_num nodes) (lost_num nodes)
unfolding count_nodes fresh_num lost_num
count_nodes-Counts [] m h k = (omega arith, omega arith)
count_nodes-Counts (node ∷ nodes) m h k =
    let (t, l) = count_node-Counts node m h k in
    let (t', l') = count_nodes-Counts nodes (count_node node m) (omega arith) (omega arith) in
    (omega arith, omega arith)

place-IsCounted :
    (max_size : ℕ) (node : HeatTask) (list : List HeatTask)
    → 0 < max_size
    → length list ≡ max_size
    → All IsCounted list
    → (list' : List HeatTask) × (place max_size node list ≡ ok list') × All IsCounted list'
unfolding place rotate
place-IsCounted max_size node [] h full counted = absurd (omega arith)
place-IsCounted max_size node (old ∷ nodes) h full counted = (
  nodes ++ (reuse node old ∷ []),
  rw (le→ltb_false (length (old ∷ nodes)) max_size (omega arith)),
  All-append IsCounted nodes (reuse node old ∷ []) counted.1 (counted.0, tt),
)

-- `updateMessage` adds to the total number the heartbeats that were not counted yet, and to the
-- losses those of them that have no answer, up to the wrap-around of the two counters, which hold
-- 32 and 16 bits.
pub update_message-counts :
    (m : HeartManager)
    → m.total_num < 2 ^ 32
    → m.loss_num < 2 ^ 16
    → ((update_message m).total_num ≡ (m.total_num + fresh_num m.list) % 2 ^ 32)
      × ((update_message m).loss_num ≡ (m.loss_num + lost_num m.list) % 2 ^ 16)
unfolding update_message
update_message-counts m h k = count_nodes-Counts m.list m h k

-- In a full manager that may hold at least one heartbeat, and whose heartbeats are all counted, a
-- new one is never counted: after `insertNode` all are marked as counted, and `updateMessage`
-- leaves both counters as they were.
pub insert_node-uncounted :
    (now : ℤ) (node : HeatTask) (m : HeartManager)
    → 0 < m.max_size
    → length m.list ≡ m.max_size
    → All IsCounted m.list
    → (m' : HeartManager) × (insert_node now node m ≡ ok m')
      × All IsCounted m'.list
      × ((update_message m').total_num ≡ m.total_num)
      × ((update_message m').loss_num ≡ m.loss_num)
unfolding insert_node update_message
insert_node-uncounted now node m h full counted =
    let (list', e, c) = place-IsCounted m.max_size node m.list h full counted in
    let m' : HeartManager = record m {
      begin_time = if is_empty m.list then now else m.begin_time;
      list = list';
    } in
    let same = count_nodes-counted list' m' c in
    (
      m',
      rw e,
      c,
      ap (λ (x : HeartManager). x.total_num) same,
      ap (λ (x : HeartManager). x.loss_num) same,
    )

-- With counters in range, `aveTime` does not depend on the total time, and it divides by zero
-- exactly when every heartbeat that was counted was lost.
pub ave_time-blind :
    (m : HeartManager) (time : ℕ)
    → m.total_num < 2 ^ 32
    → m.loss_num ≤ m.total_num
    → (ave_time (record m { total_time = time }) ≡ ave_time m)
      × ((ave_time m ≡ fault Fault.divide_by_zero) ↔ (m.loss_num ≡ m.total_num))
unfolding ave_time
ave_time-blind m time h k = (refl, ground arith)
