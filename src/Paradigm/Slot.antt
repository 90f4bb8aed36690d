-- ===== src/Paradigm/Slot.antt =====
-- paradigm/slot.go, paradigm/schedule.go: a slot is the share of a task that one node works on, and
-- a schedule is one distribution of a task over the nodes.
use rappa_master.Base.Assoc.{Assoc}
use rappa_master.Base.{ℕ, String, ℤ, pos, negsuc, Option, none, some, List}
use rappa_master.Paradigm.Model.{TaskHash, SlotHash, SupportModelType, Params}
use rappa_master.Paradigm.Commit.{CommitSlotItem}

pub data SlotStatus : Type 0 where
  finished processing failed : SlotStatus

pub record Slot : Type 0 where
  pub slot_id : SlotHash
  pub task_id : TaskHash
  pub schedule_id : ℤ
  pub node_id : ℤ
  pub schedule_size : ℤ
  pub status : SlotStatus
  pub err : String
  pub commit_slot : Option CommitSlotItem
  pub sign : String
  pub ca : String
  pub epoch : ℤ

pub record SynthTaskSchedule : Type 0 where
  pub task_id : TaskHash
  pub schedule_id : ℤ
  pub size : ℤ
  pub slot_size : ℤ
  pub model : SupportModelType
  pub params : Params
  pub slots : List Slot
  pub node_id_map : Assoc ℤ ℕ

unfoldable pub set_error : String → Slot → Slot
set_error message s = record s { err = message; status = failed }

-- Commit, with the nil pointer of a fake item as `none`.
unfoldable pub commit : CommitSlotItem → Slot → Option Slot
commit c s = elim c.justified_slot [
  | none ↦ none
  | some j ↦ some (record s { commit_slot = some c; status = finished; epoch = j.epoch })
]

abbrev pub new_slot_with_slot_id : SlotHash → Slot
new_slot_with_slot_id slot_id = record {
  slot_id = slot_id;
  task_id = "";
  schedule_id = negsuc 0;
  node_id = pos 0;
  schedule_size = pos 0;
  status = processing;
  err = "";
  commit_slot = none;
  sign = "";
  ca = "";
  epoch = pos 0;
}

abbrev pub new_slot : SlotHash → TaskHash → ℤ → ℤ → Slot
new_slot slot_id task_id schedule_id schedule = record {
  slot_id = slot_id;
  task_id = task_id;
  schedule_id = schedule_id;
  node_id = pos 0;
  schedule_size = schedule;
  status = processing;
  err = "";
  commit_slot = none;
  sign = "";
  ca = "";
  epoch = negsuc 0;
}
