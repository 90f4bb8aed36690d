-- ===== src/Examples/Monitoring.antt =====
-- The monitor's statuses.
use rappa_master.Base.Assoc.{contains}
use rappa_master.Base.{◌≡◌, refl, pos, false, some, List, [], ◌∷◌, arith, get_elem?, string_eq}
use rappa_master.Paradigm.Model.{ctgan, model_eq}
use rappa_master.Paradigm.Slot.{new_slot, SynthTaskSchedule}
use rappa_master.Paradigm.Commit.{CommitSlotItem, JustifiedSlot, justified, no_reason}
use rappa_master.Monitor.Status.{
  NodeStatus, Info, heartbeat, schedule, task_process, process_infos, new_statuses,
}
use rappa_master.Monitor.Standing.{amount, process_infos-standing}

-- A schedule of one slot for each of two nodes, a heartbeat of the first, and its slot done.
abbrev schedule_two : SynthTaskSchedule
schedule_two = record {
  task_id = "task";
  schedule_id = pos 0;
  size = pos 9;
  slot_size = pos 5;
  model = ctgan;
  params = [];
  slots = new_slot "slot0" "task" (pos 0) (pos 5) ∷ new_slot "slot1" "task" (pos 0) (pos 4) ∷ [];
  node_id_map = (pos 0, 0) ∷ (pos 1, 1) ∷ [];
}

abbrev done : JustifiedSlot
done = record {
  nid = pos 0;
  process = pos 5;
  sign = "task";
  slot = pos 0;
  epoch = pos 0;
  padding = [];
  store = pos 0;
  commitment = [];
  upload_size = pos 0;
}

abbrev item : CommitSlotItem
item = record {
  justified_slot = some done;
  state = justified;
  hash = "slot0";
  invalid_type = no_reason;
}

abbrev infos : List Info
infos =
    schedule schedule_two
    ∷ heartbeat (record {
      node_id = pos 0;
      cpu_usage = pos 20;
      disk_usage = pos 3;
      disk_storage = pos 7;
      is_error = false;
      err_message = "";
    })
    ∷ task_process item ctgan
    ∷ []

process_infos-standing_example :
    (nodes : List NodeStatus) × (s : NodeStatus) × (process_infos infos (new_statuses 0 2)
      ≡ some nodes)
    × (get_elem? nodes 0 ≡ some s)
    × (s.finished_slots ≡ "slot0" ∷ [])
    × (contains "slot0" s.pending_slots ≡ false)
    × (amount ctgan s.synth_data ≡ pos 5)
process_infos-standing_example =
    process_infos-standing 2 infos 0 "slot0" ctgan
      ((omega arith, (omega arith, tt)), (tt, ((done, refl), tt)))
      (
        (omega arith, omega arith),
        (
          (omega arith, omega arith),
          ((omega arith, omega arith), ((omega arith, omega arith), tt)),
        ),
      )
      (omega arith) (tt, (tt, (omega arith, tt))) (omega arith)
