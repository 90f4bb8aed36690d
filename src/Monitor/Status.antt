-- ===== src/Monitor/Status.antt =====
-- Monitor/monitor.go and paradigm/monitor.go: what the monitor keeps of each node, and the messages
-- that change it. The handlers run side by side; a run here is the order in which their changes
-- happen. The address of a node, its speed and its rate, which are only shown, are left out.
use rappa_master.Base.Assoc.{Assoc, lookup, insert, delete}
use rappa_master.Base.{
  ℕ, zero, suc, ◌+◌, String, string_eq, ℤ, pos, negsuc, leb_ℤ, add_i32, Bool, true, false, Option,
  none, some, List, [], ◌∷◌, ◌++◌, get_elem?, set, if◌then◌else◌,
}
use rappa_master.Paradigm.Model.{SlotHash, SupportModelType, model_eq}
use rappa_master.Paradigm.Slot.{SlotStatus, failed, finished, processing, Slot, SynthTaskSchedule}
use rappa_master.Paradigm.Commit.{CommitSlotItem}

pub record NodeHeartbeatReport : Type 0 where
  pub node_id : ℤ
  pub cpu_usage : ℤ
  pub disk_usage : ℤ
  pub disk_storage : ℤ
  pub is_error : Bool
  pub err_message : String

pub record NodeStatus : Type 0 where
  pub node_id : ℤ
  pub average_cpu_usage : ℤ
  pub disk_usage : ℤ
  pub finished_slots : List SlotHash
  pub pending_slots : Assoc SlotHash Bool
  pub synth_data : Assoc SupportModelType ℤ
  pub disk_storage : ℤ
  pub is_error : Bool
  pub err_message : String

abbrev pub new_node_status : (node_id : ℤ) → NodeStatus
new_node_status node_id = record {
  node_id = node_id;
  average_cpu_usage = pos 0;
  disk_usage = pos 0;
  finished_slots = [];
  pending_slots = [];
  synth_data = [];
  disk_storage = pos 0;
  is_error = false;
  err_message = "";
}

abbrev pub set_error : String → NodeStatus → NodeStatus
set_error message s = record s { is_error = true; err_message = message }

abbrev pub discard_error : NodeStatus → NodeStatus
discard_error s = record s { is_error = false; err_message = "" }

-- A negative number means that the node did not measure it.
abbrev pub measured : (new old : ℤ) → ℤ
measured new old = if leb_ℤ (pos 0) new then new else old

unfoldable pub update_usage : (cpu disk total : ℤ) → NodeStatus → NodeStatus
update_usage cpu disk total s = discard_error (record s {
  average_cpu_usage = measured cpu s.average_cpu_usage;
  disk_usage = measured disk s.disk_usage;
  disk_storage = measured total s.disk_storage;
})

unfoldable pub update_pending_slot : SlotHash → NodeStatus → NodeStatus
update_pending_slot slot_hash s =
    discard_error (record s { pending_slots = insert slot_hash true s.pending_slots })

-- The amounts of the map after `process` more of a model.
abbrev pub add_data : SupportModelType → ℤ → Assoc SupportModelType ℤ → Assoc SupportModelType ℤ
add_data model process data_of = elim (lookup model data_of) [
  | none ↦ insert model process data_of
  | some value ↦ insert model (add_i32 value process) data_of
]

unfoldable pub update_finish_slot : SlotHash → ℤ → SupportModelType → NodeStatus → NodeStatus
update_finish_slot slot_hash process model s = discard_error (record s {
  pending_slots = delete slot_hash s.pending_slots;
  finished_slots = s.finished_slots ++ slot_hash ∷ [];
  synth_data = add_data model process s.synth_data;
})

-- m.nodeStatus[n] changed; `none` is the panic on an index out of range.
unfoldable pub update_node :
    (NodeStatus → NodeStatus) → ℤ → List NodeStatus → Option (List NodeStatus)
update_node f (pos n) nodes = elim (get_elem? nodes n) [
  | none ↦ none
  | some s ↦ some (set nodes n (f s))
]
update_node f (negsuc n) nodes = none

-- processHeartbeatResponse, for one report.
unfoldable pub process_heartbeat_response :
    NodeHeartbeatReport → List NodeStatus → Option (List NodeStatus)
process_heartbeat_response r nodes =
    if r.is_error
    then update_node (set_error r.err_message) r.node_id nodes
    else update_node (update_usage r.cpu_usage r.disk_usage r.disk_storage) r.node_id nodes

abbrev pub is_failed : SlotStatus → Bool
is_failed failed = true
is_failed finished = false
is_failed processing = false

-- The loop over the nodes of a schedule, which skips the slots that failed.
unfoldable pub process_schedule : List Slot → Assoc ℤ ℕ → List NodeStatus → Option (List NodeStatus)
process_schedule slots [] nodes = some nodes
process_schedule slots ((n, index) ∷ rest) nodes = elim (get_elem? slots index) [
  | none ↦ none
  | some slot ↦ elim (is_failed slot.status) [
    | true ↦ process_schedule slots rest nodes
    | false ↦ elim (update_node (update_pending_slot slot.slot_id) n nodes) [
      | none ↦ none
      | some nodes' ↦ process_schedule slots rest nodes'
    ]
  ]
]

-- The messages of the heartbeat and of the oracle. A transaction is its slot and its model.
pub data Info : Type 0 where
  heartbeat : NodeHeartbeatReport → Info
  schedule : SynthTaskSchedule → Info
  task_process : CommitSlotItem → SupportModelType → Info

unfoldable pub process_info : Info → List NodeStatus → Option (List NodeStatus)
unfolding process_heartbeat_response process_schedule
process_info (heartbeat r) nodes = process_heartbeat_response r nodes
process_info (schedule s) nodes = process_schedule s.slots s.node_id_map nodes
process_info (task_process tx model) nodes = elim tx.justified_slot [
  | none ↦ none
  | some j ↦ update_node (update_finish_slot tx.hash j.process model) j.nid nodes
]

unfoldable pub process_infos : List Info → List NodeStatus → Option (List NodeStatus)
process_infos [] nodes = some nodes
process_infos (info ∷ infos) nodes = elim (process_info info nodes) [
  | none ↦ none
  | some nodes' ↦ process_infos infos nodes'
]

-- NewMonitor, for nodes numbered from `first`.
unfoldable pub new_statuses : (first count : ℕ) → List NodeStatus
new_statuses first zero = []
new_statuses first (suc count) = new_node_status (pos first) ∷ new_statuses (first + 1) count
