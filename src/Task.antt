-- ===== src/Task.antt =====
-- paradigm/task.go: a synthesis task. Times are seconds. The receipt of its transaction and the
-- speeds, floats that are only logged, are left out.
use rappa_master.Base.Assoc.{Assoc, lookup, insert}
use rappa_master.Base.{
  ℕ, String, string_eq, ℤ, pos, int_eq, Bool, true, false, Option, none, some, List, [], ◌∷◌, ◌++◌,
  length, leb_ℤ, add_i32, add_i64, sub_i32, if◌then◌else◌, ◌==◌,
}
use rappa_master.Paradigm.Model.{
  TaskHash, SupportModelType, ModelOutputType, Params, text, other, output_type,
}
use rappa_master.Paradigm.Commit.{CommitSlotItem, JustifiedSlot, finalized, state_eq}
use rappa_master.Paradigm.Slot.{SynthTaskSchedule, SlotStatus, finished, processing}
use rappa_master.Paradigm.Track.{SynthTaskTrackItem}
use rappa_master.Collector.{Collector, CollectSlotItem, process_slot_update}

pub record Task : Type 0 where
  pub sign : TaskHash
  pub name : String
  pub slot : ℤ
  pub model : SupportModelType
  pub params : Params
  pub size : ℤ
  pub process : ℤ
  pub upload_size : ℤ
  pub is_reliable : Bool
  pub output : ModelOutputType
  pub schedules : List SynthTaskSchedule
  pub schedule_map : Assoc ℤ ℕ
  pub tid : ℤ
  pub has_been_collect : Bool
  pub start_time : ℕ
  pub end_time : Option ℕ
  pub status : SlotStatus
  pub collector : Option Collector

unfoldable pub init_track : Task → SynthTaskTrackItem
init_track t = record {
  unprocessed_task = record {
    task_id = t.sign;
    size = t.size;
    slot_size = t.slot;
    model = t.model;
    params = t.params;
  };
  total = t.size;
  history = pos 0;
  is_reliable = t.is_reliable;
}

unfoldable pub update_schedule : SynthTaskSchedule → Task → Task
update_schedule schedule t = record t {
  schedule_map = insert schedule.schedule_id (length t.schedules) t.schedule_map;
  schedules = t.schedules ++ schedule ∷ [];
}

-- What a finalized slot adds to a collector.
abbrev pub collect_item : CommitSlotItem → JustifiedSlot → CollectSlotItem
collect_item c j = record {
  sign = j.sign;
  hash = c.hash;
  size = j.process;
  padding_size = j.padding;
  store_method = j.store;
  node_sign = "";
  node_id = pos 0;
  data_hash = "";
}

-- Commit: the outer `none` is a panic, false an error.
unfoldable pub commit : CommitSlotItem → Task → Option (Task × Bool)
commit c t =
    if c.state == finalized
    then elim c.justified_slot [
      | none ↦ none
      | some j ↦ elim t.collector [
        | none ↦ none
        | some collector ↦ elim (process_slot_update (collect_item c j) collector) [
          | none ↦ none
          | some collector' ↦ some (
            record t {
              process = add_i32 t.process j.process;
              upload_size = add_i64 t.upload_size j.upload_size;
              collector = some collector';
            },
            true,
          )
        ]
      ]
    ]
    else some (t, false)

unfoldable pub is_finish : Task → Bool
is_finish t = leb_ℤ t.size t.process

unfoldable pub remain : Task → ℤ
unfolding is_finish
remain t = if is_finish t then pos 0 else sub_i32 t.size t.process

unfoldable pub set_collected : Task → Task
set_collected t = record t { has_been_collect = true }

unfoldable pub set_end_time : (now : ℕ) → Task → Task
set_end_time now t = record t { end_time = some now; status = finished }

-- GetDataset: `none` is the panic on a value that is no text.
unfoldable pub get_dataset : Task → Option String
get_dataset t = elim (lookup "dataset" t.params) [
  | none ↦ some ""
  | some (text dataset) ↦ some dataset
  | some (other _) ↦ none
]

unfoldable pub new_task :
    (now : ℕ)
    → TaskHash
    → String
    → SupportModelType
    → (slot_size : ℤ) → Params
    → (total : ℤ) → Bool
    → Task
unfolding output_type
new_task now sign name model slot_size params total is_reliable = record {
  sign = sign;
  name = name;
  slot = slot_size;
  model = model;
  params = params;
  size = total;
  process = pos 0;
  upload_size = pos 0;
  is_reliable = is_reliable;
  output = output_type model;
  schedules = [];
  schedule_map = [];
  tid = pos 0;
  has_been_collect = false;
  start_time = now;
  end_time = none;
  status = processing;
  collector = none;
}
