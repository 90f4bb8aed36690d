-- ===== src/Examples/Tasks.antt =====
-- Schedules, the monitor's advice, and the progress of a task.
use rappa_master.Base.Assoc.{lookup}
use rappa_master.Base.{
  All, ◌≤ℤ◌, ◌+◌, ◌*◌, ◌%◌, ◌≡◌, refl, string_eq, ℤ, pos, int_eq, wrap_i32, some, List, [], ◌∷◌,
  arith, length, get_elem?, decimal, ◌<>◌,
}
use rappa_master.Paradigm.Model.{TaskHash, SlotHash}
use rappa_master.Paradigm.Commit.{finalized}
use rappa_master.Paradigm.Slot.{new_slot}
use rappa_master.Schedule.{index_of, advance_index, make_slots, generate_synth_schedule}
use rappa_master.Schedule.Index.{Request, run, generate_synth_schedule-index}
use rappa_master.Schedule.Nodes.{generate_synth_schedule-node_id_map}
use rappa_master.Monitor.{fill_nodes, AdviceResponse, advice, fill_nodes}
use rappa_master.Monitor.Advice.{total, share, advice_total, advice_covers, advice_surplus}
use rappa_master.Tracker.Progress.{Work}
use rappa_master.Examples.Data.{task, item_of, slot_of}

abbrev slot_hash : TaskHash → ℤ → ℤ → SlotHash
slot_hash t i n = t <> "_" <> decimal i <> "_" <> decimal n

abbrev nodes : List ℤ
nodes = pos 4 ∷ pos 2 ∷ []

abbrev sizes : List ℤ
sizes = pos 5 ∷ pos 5 ∷ []

abbrev request : Request
request = record { task = task; node_ids = nodes; sizes = sizes }

-- The third schedule has the index 1, and the hashes of its slots the index 2.
generate_synth_schedule-index_example :
    let s =
      (generate_synth_schedule slot_hash task nodes sizes
        (run slot_hash (request ∷ request ∷ []) [])).0 in
    (s.schedule_id ≡ pos 1) × (s.slots ≡ make_slots slot_hash "task" (pos 2) (pos 1) nodes sizes)
generate_synth_schedule-index_example =
    generate_synth_schedule-index slot_hash (request ∷ request ∷ []) task nodes sizes (omega arith)

generate_synth_schedule-node_id_map_example :
    let s = (generate_synth_schedule slot_hash task nodes sizes []).0 in
    (lookup (pos 2) s.node_id_map ≡ some 1)
    × (get_elem? s.slots 1
        ≡ some (
            new_slot
              (slot_hash "task" (wrap_i32 (index_of "task" (advance_index "task" []))) (pos 2))
              "task"
              s.schedule_id
              (pos 5)))
generate_synth_schedule-node_id_map_example =
    generate_synth_schedule-node_id_map slot_hash task nodes sizes [] 1 (pos 2) (pos 5)
      ((refl, tt), (tt, tt)) refl refl

advice_total_example :
    (r : AdviceResponse) × (advice 3 (pos 100) (pos 20) ≡ some r)
    × (r.node_ids ≡ fill_nodes 0 3)
    × (length r.schedule_size ≡ 3)
    × (total r.schedule_size ≡ pos (3 * share 100 20 3 + 100 % 3))
advice_total_example = advice_total 3 100 20 (omega arith) (omega arith) (omega arith)

advice_covers_example :
    (r : AdviceResponse) × (advice 3 (pos 100) (pos 50) ≡ some r)
    × (total r.schedule_size ≡ pos 100)
advice_covers_example =
    advice_covers 3 100 50 (omega arith) (omega arith) (omega arith) (omega arith) (omega arith)

advice_surplus_example :
    (r : AdviceResponse) × (advice 7 (pos 4) (pos 50) ≡ some r)
    × (r.node_ids ≡ fill_nodes 0 7)
    × (length r.schedule_size ≡ 7)
    × All (λ share. pos 1 ≤ℤ share) r.schedule_size
    × (total r.schedule_size ≡ pos 11)
advice_surplus_example =
    advice_surplus 7 4 50 (omega arith) (omega arith) (omega arith) (omega arith)

abbrev works : List Work
works =
    (record {
      item = item_of finalized "a" 7;
      slot = slot_of 7;
      amount = 7;
      is_final = refl;
      holds = refl;
      commits = refl;
    })
    ∷ (record {
      item = item_of finalized "b" 6;
      slot = slot_of 6;
      amount = 6;
      is_final = refl;
      holds = refl;
      commits = refl;
    })
    ∷ []
