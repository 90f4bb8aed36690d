-- ===== src/Schedule.antt =====
-- Schedule/scheduler.go: the scheduler turns a task into a schedule with one slot for each node.
-- fmt.Sprintf is a parameter: `slot_hash t i n` is the text "<t>_<i>_<n>".
pub mod Index
pub mod Nodes
use rappa_master.Base.Assoc.{Assoc, lookup, insert, contains}
use rappa_master.Base.{
  ℕ, suc, ◌+◌, String, string_eq, ℤ, pos, negsuc, ◌+ℤ◌, int_eq, wrap_i32, Bool, true, false, Option,
  none, some, List, [], ◌∷◌, length, nat_beq, if◌then◌else◌,
}
use rappa_master.Paradigm.Model.{TaskHash, SlotHash}
use rappa_master.Paradigm.Slot.{Slot, SynthTaskSchedule, new_slot}
use rappa_master.Paradigm.Track.{UnprocessedTask}

-- schedules: the latest index of each task.
abbrev pub Indices : Type 0
Indices = Assoc TaskHash ℤ

-- A read of a map gives 0 for a missing key.
unfoldable pub index_of : TaskHash → Indices → ℤ
index_of t m = elim (lookup t m) [ none ↦ pos 0 | some i ↦ i ]

-- `if !exist { m[t] = -1 }`
unfoldable pub start_index : TaskHash → Indices → Indices
start_index t m = if contains t m then m else insert t (negsuc 0) m

-- The same, and `m[t]++`.
unfoldable pub advance_index : TaskHash → Indices → Indices
unfolding index_of
advance_index t m = let m' = start_index t m in insert t (index_of t m' +ℤ pos 1) m'

-- nodeIDMap: `i` is the position of the next node.
unfoldable pub make_node_id_map : ℕ → List ℤ → Assoc ℤ ℕ → Assoc ℤ ℕ
make_node_id_map i [] m = m
make_node_id_map i (n ∷ ns) m = make_node_id_map (i + 1) ns (insert n i m)

module _ (slot_hash : TaskHash → ℤ → ℤ → SlotHash) where
  -- The slots of the loop over the nodes.
  unfoldable pub make_slots :
      TaskHash → (hash_index schedule_index : ℤ) → List ℤ → List ℤ → List Slot
  make_slots t h s [] sizes = []
  make_slots t h s (n ∷ ns) [] = []
  make_slots t h s (n ∷ ns) (z ∷ sizes) =
      new_slot (slot_hash t (wrap_i32 h) n) t (wrap_i32 s) z ∷ make_slots t h s ns sizes

  -- The index of the schedule is read before the count of the task is advanced, and the one in the
  -- hashes of the slots after it.
  unfoldable pub generate_synth_schedule :
      UnprocessedTask → List ℤ → List ℤ → Indices → SynthTaskSchedule × Indices
  unfolding index_of advance_index make_slots make_node_id_map
  generate_synth_schedule task nids sizes m =
      let schedule_index = index_of task.task_id m in
      let m' = advance_index task.task_id m in
      (
        record {
          task_id = task.task_id;
          schedule_id = wrap_i32 schedule_index;
          size = task.size;
          slot_size = task.slot_size;
          model = task.model;
          params = task.params;
          slots = make_slots task.task_id (index_of task.task_id m') schedule_index nids sizes;
          node_id_map = make_node_id_map 0 nids [];
        },
        m',
      )

  -- process, with the monitor's advice for the task. `none` is the panic on an advice with a size
  -- missing.
  unfoldable pub process :
      UnprocessedTask → List ℤ → List ℤ → Indices → Option (SynthTaskSchedule × Indices)
  unfolding generate_synth_schedule
  process task nids sizes m =
      if nat_beq (length sizes) (length nids)
      then some (generate_synth_schedule task nids sizes m)
      else none
