-- ===== src/Rpc/HeartManager/Tests.antt =====
-- Fish/rpc/heart_manager.h and source/rpc/heart_manager.cpp with two heartbeats.
use fish_rpc.Prelude.{length, ◌≤◌, ◌≡◌, true, false, [], ◌∷◌, arith}
use fish_rpc.Prelude.Outcome.{ok}
use fish_rpc.Prelude.Int.{pos}
use fish_rpc.Rpc.HeartManager.{HeatTask, HeartManager}
use fish_rpc.Rpc.HeartManager.Window.{
  newest, left_overs, stamp, stamps, insert_nodes, insert_nodes-newest,
}

abbrev lost_task : HeatTask
lost_task = record {
  send_time = pos 5;
  recv_time = pos 0;
  id = 1;
  service_id = 9;
  statistics = false;
}

abbrev counted_task : HeatTask
counted_task = record {
  send_time = pos 6;
  recv_time = pos 8;
  id = 2;
  service_id = 9;
  statistics = true;
}

-- A manager that may hold one heartbeat.
abbrev single : HeartManager
single = record {
  max_size = 1;
  list = counted_task ∷ [];
  self_id = 3;
  target_id = 9;
  begin_time = pos 6;
  total_time = 2;
  total_num = 1;
  loss_num = 0;
}

insert_nodes-newest_example :
    (m' : HeartManager) × (insert_nodes ((pos 5, lost_task) ∷ (pos 6, counted_task) ∷ []) single
      ≡ ok m')
    × (length m'.list ≤ m'.max_size)
    × (stamps m'.list ≡ newest 1 (stamp counted_task ∷ stamp lost_task ∷ stamp counted_task ∷ []))
    × (left_overs m'.list ≡ (9, true) ∷ [])
insert_nodes-newest_example =
    insert_nodes-newest ((pos 5, lost_task) ∷ (pos 6, counted_task) ∷ []) single (omega arith)
      (omega arith)
