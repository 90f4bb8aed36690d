-- ===== src/Query/Nodes.antt =====
-- Query/SynthTaskQuery.go, TaskOnNodesQuery, and Query/DataSynthMonitorQuery.go: what each node does. The
-- task rate is a float32 there; it is the fraction that it stands for here.
use rappa_master.Base.Assoc.{Assoc, lookup, insert, upsert}
use rappa_master.Base.{
  ℕ, suc, ◌+◌, ◌-◌, ◌*◌, String, string_eq, ℤ, pos, int_eq, add_i32, sub_i32, Bool, false, none,
  some, List, [], ◌∷◌, ◌++◌, length, ltb, nat_beq, if◌then◌else◌,
}
use rappa_master.Paradigm.Model.{SupportModelType, model_type_to_string}
use rappa_master.Paradigm.Slot.{Slot}
use rappa_master.Monitor.Status.{NodeStatus}
use rappa_master.Date.{DateRecord}

-- TaskOnNodesQuery.GenerateResponse: the loop over the slots of a task.
unfoldable pub add_slot : Slot → Assoc ℤ ℤ → Assoc ℤ ℤ
add_slot slot m = upsert slot.node_id (λ size. add_i32 size slot.schedule_size) slot.schedule_size m

unfoldable pub node_info : List Slot → Assoc ℤ ℤ → Assoc ℤ ℤ
node_info [] m = m
node_info (slot ∷ slots) m = node_info slots (add_slot slot m)

unfoldable pub task_on_nodes_response : List Slot → Assoc ℤ ℤ
unfolding node_info
task_on_nodes_response slots = node_info slots []

-- dataGroup[name] += value, where a missing key gives 0.
abbrev pub add_to : String → ℤ → Assoc String ℤ → Assoc String ℤ
add_to name value m =
    insert name (elim (lookup name m) [ none ↦ add_i32 (pos 0) value | some v ↦ add_i32 v value ]) m

-- The loop over the amounts of each model.
unfoldable pub data_group : Assoc SupportModelType ℤ → Assoc String ℤ → Assoc String ℤ
unfolding model_type_to_string
data_group [] m = m
data_group ((model, value) ∷ rest) m = data_group rest (add_to (model_type_to_string model) value m)

abbrev pub no_group : Assoc String ℤ
no_group = ("ABM", pos 0) ∷ ("BAED", pos 0) ∷ ("FINKAN", pos 0) ∷ []

-- A float32 that is a quotient of two counts: 0 / 0 is not a number.
abbrev pub Rate : Type 0
Rate = ℕ × ℕ

-- taskRate > 0.5, which is false where the rate is not a number.
unfoldable pub exceeds_half : Rate → Bool
exceeds_half (a, b) = if nat_beq b 0 then false else ltb b (2 * a)

abbrev pub task_rate : (pending finished : ℕ) → Rate
task_rate pending finished =
    if nat_beq (pending + finished) 0 then (pending, finished + pending) else (0, 1)

pub record NodeInfo : Type 0 where
  pub node_id : ℤ
  pub status : String
  pub nb_finished_tasks : ℕ
  pub nb_pending_tasks : ℕ
  pub synth_data : Assoc String ℤ
  pub storage : ℤ
  pub cpu : ℤ
  pub disk : ℤ
  pub error_message : String
  pub workload : String

abbrev pub info_of_node : NodeStatus → NodeInfo
info_of_node node = record {
  node_id = node.node_id;
  status = if node.is_error then "Abnormal" else "Normal";
  nb_finished_tasks = length node.finished_slots;
  nb_pending_tasks = length node.pending_slots;
  synth_data = data_group node.synth_data no_group;
  storage = node.disk_storage;
  cpu = node.average_cpu_usage;
  disk = node.disk_usage;
  error_message = node.err_message;
  workload =
      if exceeds_half (task_rate (length node.pending_slots) (length node.finished_slots))
      then "忙碌"
      else "空闲";
}

pub record NodesResponse : Type 0 where
  pub nodes : List NodeInfo
  pub total_storage : ℤ
  pub used_storage : ℤ
  pub nb_error : ℕ

-- The loop of NodesStatusQuery.GenerateResponse, with its variables.
unfoldable pub nodes_loop : List NodeStatus → NodesResponse → NodesResponse
nodes_loop [] r = r
nodes_loop (node ∷ rest) r = nodes_loop rest (record {
  nodes = r.nodes ++ info_of_node node ∷ [];
  total_storage = add_i32 r.total_storage node.disk_storage;
  used_storage = add_i32 r.used_storage node.disk_usage;
  nb_error = if node.is_error then suc r.nb_error else r.nb_error;
})

pub record NodesStatusResponse : Type 0 where
  pub nodes : List NodeInfo
  pub normal : ℕ
  pub down : ℕ
  pub used : ℤ
  pub not_used : ℤ

unfoldable pub nodes_status_response : List NodeStatus → NodesStatusResponse
unfolding nodes_loop
nodes_status_response info =
    let r =
      nodes_loop info
        (record { nodes = []; total_storage = pos 0; used_storage = pos 0; nb_error = 0 }) in
    record {
      nodes = r.nodes;
      normal = length info - r.nb_error;
      down = r.nb_error;
      used = r.used_storage;
      not_used = sub_i32 r.total_storage r.used_storage;
    }

-- DateSynthDataQuery.GenerateResponse: the columns, and the tasks of each data set.
pub record DateSynthResponse : Type 0 where
  pub date : List ℕ
  pub init : List ℤ
  pub finish : List ℤ
  pub synth_data : List (Assoc String ℤ)
  pub dataset_distribution : Assoc String ℤ

unfoldable pub add_datasets : Assoc String ℤ → Assoc String ℤ → Assoc String ℤ
add_datasets [] m = m
add_datasets ((dataset, n) ∷ rest) m = add_datasets rest (add_to dataset n m)

unfoldable pub date_synth_data_response : List DateRecord → DateSynthResponse → DateSynthResponse
unfolding data_group add_datasets
date_synth_data_response [] r = r
date_synth_data_response (day ∷ days) r = date_synth_data_response days (record {
  date = r.date ++ day.date ∷ [];
  init = r.init ++ day.nb_init_tasks ∷ [];
  finish = r.finish ++ day.nb_finish_tasks ∷ [];
  synth_data = r.synth_data ++ data_group day.synth_data no_group ∷ [];
  dataset_distribution = add_datasets day.dataset_distribution r.dataset_distribution;
})
