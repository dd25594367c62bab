-- ===== src/Rpc/HeartManager/Window.antt =====
-- Which heartbeats `insertNode` of source/rpc/heart_manager.cpp keeps.
use native.Mathlib.Decide.{dec_le}
use fish_rpc.Prelude.{
  zero, suc, inl, inr, if◌then◌else◌, lt→ltb, le→ltb_false, length, drop, length-append,
  length-drop, drop-append_le, drop-drop, ℕ, ◌+◌, ◌-◌, ◌≤◌, ◌<◌, ◌≡◌, refl, sym, ap, ◌∙◌, List, [],
  ◌∷◌, ◌++◌, map, append-nil, append_assoc, arith, Bool, take, suc, ltb, Bool-cases, take_all,
}
use fish_rpc.Prelude.Outcome.{Outcome, ok, ◌>>=◌}
use fish_rpc.Prelude.Int.{ℤ}
use fish_rpc.Rpc.HeartManager.{HeatTask, HeartManager, reuse, rotate, place, insert_node, is_empty}

-- What `insertNode` copies of a heartbeat.
abbrev pub stamp : HeatTask → ℤ × ℤ × ℕ
stamp node = (node.send_time, node.recv_time, node.id)

abbrev pub stamps : List HeatTask → List (ℤ × ℤ × ℕ)
stamps list = map stamp list

map-append : {A B : Type 0} (f : A → B) (xs ys : List A) → map f (xs ++ ys) ≡ map f xs ++ map f ys
map-append f [] ys = refl
map-append f (x ∷ xs) ys = rw (map-append f xs ys)

-- The newest `n` of a list.
abbrev pub newest : {A : Type 0} → ℕ → List A → List A
newest n xs = drop (length xs - n) xs

-- What the code leaves of the node that a heartbeat takes over.
abbrev pub left_over : HeatTask → ℕ × Bool
left_over node = (node.service_id, node.statistics)

abbrev pub left_overs : List HeatTask → List (ℕ × Bool)
left_overs list = map left_over list

-- The list after `n` times its first element was moved to the end.
abbrev pub turned : {A : Type 0} → ℕ → List A → List A
turned zero xs = xs
turned (suc n) [] = []
turned (suc n) (x ∷ xs) = turned n (xs ++ (x ∷ []))

turned-nil : {A : Type 0} (n : ℕ) → turned {A = A} n [] ≡ []
turned-nil zero = refl
turned-nil (suc n) = refl

turned-suc : {A : Type 0} (n : ℕ) (xs : List A) → turned n (turned 1 xs) ≡ turned (suc n) xs
turned-suc n [] = turned-nil n
turned-suc n (x ∷ xs) = refl

length-left_overs : (list : List HeatTask) → length (left_overs list) ≡ length list
length-left_overs [] = refl
length-left_overs (node ∷ nodes) = rw (length-left_overs nodes)

-- What is left over after one more heartbeat: its own, in a list that grows.
abbrev one_more : ℕ → HeatTask → List HeatTask → List (ℕ × Bool)
one_more max_size node list =
    if ltb (length list) max_size
    then left_overs list ++ (left_over node ∷ [])
    else turned 1 (left_overs list)

length-stamps : (list : List HeatTask) → length (stamps list) ≡ length list
length-stamps [] = refl
length-stamps (node ∷ nodes) = rw (length-stamps nodes)

newest-drop : {A : Type 0} (n k : ℕ) (xs : List A) → length xs ≡ n + k → newest n xs ≡ drop k xs
newest-drop n k xs h = let e : length xs - n ≡ k = omega arith in rw e

length-added :
    (node : HeatTask) (list : List HeatTask)
    → length (stamps list ++ (stamp node ∷ [])) ≡ length list + 1
length-added node list =
    omega (arith, length-append (stamps list) (stamp node ∷ []), length-stamps list)

newest_short : {A : Type 0} (n : ℕ) (xs : List A) → length xs ≤ n → newest n xs ≡ xs
newest_short n xs h = let e : length xs - n ≡ 0 = omega arith in rw e

place-pushed :
    (max_size : ℕ) (node : HeatTask) (list : List HeatTask)
    → length list < max_size
    → (place max_size node list ≡ ok (list ++ (node ∷ [])))
      × (length (list ++ (node ∷ [])) ≤ max_size)
      × (stamps (list ++ (node ∷ [])) ≡ newest max_size (stamps list ++ (stamp node ∷ [])))
unfolding place
place-pushed max_size node list h = (
  rw (lt→ltb _ _ h),
  omega (arith, length-append list (node ∷ [])),
  map-append stamp list (node ∷ [])
      ∙ sym (newest_short max_size _ (omega (arith, length-added node list))),
)

place-rotated :
    (node old : HeatTask) (nodes : List HeatTask)
    → (place (length nodes + 1) node (old ∷ nodes) ≡ ok (nodes ++ (reuse node old ∷ [])))
      × (length (nodes ++ (reuse node old ∷ [])) ≤ length nodes + 1)
      × (stamps (nodes ++ (reuse node old ∷ []))
          ≡ newest (length nodes + 1) (stamps (old ∷ nodes) ++ (stamp node ∷ [])))
unfolding place rotate
place-rotated node old nodes = (
  rw (le→ltb_false (length (old ∷ nodes)) (length nodes + 1) (omega arith)),
  omega (arith, length-append nodes (reuse node old ∷ [])),
  map-append stamp nodes (reuse node old ∷ [])
      ∙ sym (
          newest-drop (length nodes + 1) 1 (stamps (old ∷ nodes) ++ (stamp node ∷ []))
            (omega (arith, length-added node (old ∷ nodes)))),
)

place-newest :
    (max_size : ℕ) (node : HeatTask) (list : List HeatTask)
    → 0 < max_size
    → length list ≤ max_size
    → (list' : List HeatTask) × (place max_size node list ≡ ok list')
      × (length list' ≤ max_size)
      × (stamps list' ≡ newest max_size (stamps list ++ (stamp node ∷ [])))
      × (left_overs list' ≡ one_more max_size node list)
place-newest max_size node [] h k =
    let (e, b, s) = place-pushed max_size node [] h in
    (node ∷ [], e, b, s, rw (lt→ltb 0 max_size h) refl)
place-newest max_size node (old ∷ nodes) h k = elim (dec_le max_size (length nodes + 1)) [
  | yes full ↦
      let e : length nodes + 1 ≡ max_size = omega arith in
      let (p, b, s) = place-rotated node old nodes in
      (
        nodes ++ (reuse node old ∷ []),
        rw (sym e) p,
        rw (sym e) b,
        rw (sym e) s,
        rw (le→ltb_false (length (old ∷ nodes)) max_size (omega arith))
            (map-append left_over nodes (reuse node old ∷ [])),
      )
  | no wide ↦
      let (e, b, s) = place-pushed max_size node (old ∷ nodes) (omega arith) in
      (
        (old ∷ nodes) ++ (node ∷ []),
        e,
        b,
        s,
        rw (lt→ltb (length (old ∷ nodes)) max_size (omega arith))
            (map-append left_over (old ∷ nodes) (node ∷ [])),
      )
]

insert_node-newest :
    (now : ℤ) (node : HeatTask) (m : HeartManager)
    → 0 < m.max_size
    → length m.list ≤ m.max_size
    → (m' : HeartManager) × (insert_node now node m ≡ ok m')
      × (length m'.list ≤ m'.max_size)
      × (m'.max_size ≡ m.max_size)
      × (stamps m'.list ≡ newest m.max_size (stamps m.list ++ (stamp node ∷ [])))
      × (left_overs m'.list ≡ one_more m.max_size node m.list)
unfolding insert_node
insert_node-newest now node m h k =
    let (list', e, b, s, left) = place-newest m.max_size node m.list h k in
    (
      record m { begin_time = if is_empty m.list then now else m.begin_time; list = list' },
      rw e,
      b,
      refl,
      s,
      left,
    )

-- The calls of `insertNode`, with the time of each.
unfoldable pub insert_nodes : List (ℤ × HeatTask) → HeartManager → Outcome HeartManager
insert_nodes [] m = ok m
insert_nodes ((now, node) ∷ calls) m = do m' ← insert_node now node m; insert_nodes calls m'

newest-append :
    {A : Type 0} (n : ℕ) (xs ys : List A) → newest n (newest n xs ++ ys) ≡ newest n (xs ++ ys)
newest-append n xs ys =
    let k = length xs - n in
    let e : newest n xs ++ ys ≡ drop k (xs ++ ys) = sym (drop-append_le k xs ys (omega arith)) in
    ap (newest n) e
    ∙ drop-drop (length (drop k (xs ++ ys)) - n) k (xs ++ ys)
    ∙ ap (λ j. drop j (xs ++ ys)) (omega (arith, length-drop k (xs ++ ys), length-append xs ys))

length-turned : (n : ℕ) {A : Type 0} (xs : List A) → length (turned n xs) ≡ length xs
length-turned zero xs = refl
length-turned (suc n) [] = refl
length-turned (suc n) (x ∷ xs) =
    length-turned n (xs ++ (x ∷ [])) ∙ omega (arith, length-append xs (x ∷ []))

-- What is left over after a heartbeat and then so many others, from a list that is not full or is.
left_overs-more :
    (n : ℕ) (node : HeatTask) (list : List HeatTask) (others : List (ℕ × Bool)) (l : ℕ)
    → length list ≤ n
    → l ≡ length (one_more n node list)
    → turned (length others - (n - l)) (one_more n node list ++ take (n - l) others)
      ≡ turned
          (suc (length others) - (n - length list))
          (left_overs list ++ take (n - length list) (left_over node ∷ others))
left_overs-more n node list others l h e = elim (Bool-cases (ltb (length list) n)) [
  | inl room ↦
      let held = length-append (left_overs list) (left_over node ∷ []) in
      let e' : l ≡ length (left_overs list ++ (left_over node ∷ [])) = rw room at e in
      let spare : n - length list ≡ suc (n - l) =
        ground (arith, room, e', held, length-left_overs list) in
      let rest : length others - (n - l) ≡ suc (length others) - suc (n - l) = omega arith in
      rw (room, spare, rest)
        (ap (turned (suc (length others) - suc (n - l)))
          (append_assoc (left_overs list) (left_over node ∷ []) (take (n - l) others)))
  | inr full ↦
      let e' : l ≡ length (turned 1 (left_overs list)) = rw full at e in
      let none_left : n - l ≡ 0 =
        ground (arith, full, e', length-turned 1 (left_overs list), length-left_overs list) in
      let none_spare : n - length list ≡ 0 = ground (arith, full) in
      let others_left : length others - 0 ≡ length others = omega arith in
      let all_left : suc (length others) - 0 ≡ suc (length others) = omega arith in
      rw
        (
          full,
          none_left,
          none_spare,
          others_left,
          all_left,
          append-nil (turned 1 (left_overs list)),
          append-nil (left_overs list),
        )
        (turned-suc (length others) (left_overs list))
]

length-map : {A B : Type 0} (f : A → B) (xs : List A) → length (map f xs) ≡ length xs
length-map f [] = refl
length-map f (x ∷ xs) = ap suc (length-map f xs)

left_overs-none :
    (n : ℕ) (list : List HeatTask) → left_overs list ≡ turned (0 - n) (left_overs list ++ take n [])
left_overs-none n list =
    let still : 0 - n ≡ 0 = omega arith in
    rw (still, take_all n (map left_over []) (omega arith)) (sym (append-nil (left_overs list)))

-- Heartbeats inserted one after the other, into a manager that may hold at least one and holds no
-- more than it may, do not make it fault. Of their times and ids it keeps the newest of its own and
-- these, as many as it may hold, in their order. Their service ids and marks are kept only while
-- the list grows: from then on those that are there are moved around with the nodes, one place for
-- each heartbeat, and those of new heartbeats are lost.
pub insert_nodes-newest :
    (calls : List (ℤ × HeatTask)) (m : HeartManager)
    → 0 < m.max_size
    → length m.list ≤ m.max_size
    → (m' : HeartManager) × (insert_nodes calls m ≡ ok m')
      × (length m'.list ≤ m'.max_size)
      × (stamps m'.list ≡ newest m.max_size (stamps m.list ++ map (λ c. stamp c.1) calls))
      × (let spare = m.max_size - length m.list in
          left_overs m'.list
          ≡ turned
              (length calls - spare)
              (left_overs m.list ++ take spare (map (λ c. left_over c.1) calls)))
unfolding insert_nodes
insert_nodes-newest [] m h k = (
  m,
  refl,
  k,
  sym (
      ap (newest m.max_size) (append-nil (stamps m.list))
      ∙ newest_short m.max_size (stamps m.list) (omega (arith, length-stamps m.list))),
  left_overs-none (m.max_size - length m.list) m.list,
)
insert_nodes-newest ((now, node) ∷ calls) m h k =
    let (m', e, b, same, s, left) = insert_node-newest now node m h k in
    let (m'', e', b', s', left') = insert_nodes-newest calls m' (omega arith) b in
    let later = map (λ (c : ℤ × HeatTask). stamp c.1) calls in
    let others = map (λ (c : ℤ × HeatTask). left_over c.1) calls in
    let size : length m'.list ≡ length (one_more m.max_size node m.list) =
      sym (length-left_overs m'.list) ∙ ap length left in
    let many : length others ≡ length calls = length-map _ calls in
    (
      m'',
      rw e e',
      b',
      s'
          ∙ rw (same, s)
              (newest-append m.max_size (stamps m.list ++ (stamp node ∷ [])) later
                ∙ ap (newest m.max_size) (append_assoc (stamps m.list) (stamp node ∷ []) later)),
      left'
          ∙ rw (same, left, sym many)
              (left_overs-more m.max_size node m.list others (length m'.list) k size),
    )
