-- ===== src/Recovery.antt =====
-- Recovery/recovery.go, and what it calls of Database/db.go, Database/epochImpl.go, Database/slotImpl.go
-- and Database/taskImpl.go: the state that the master starts from. Which calls of the database give an
-- error is a parameter.
pub mod Restart
use rappa_master.Base.{
  ◌≡◌, ◌&&◌, String, ℤ, negsuc, leb_ℤ, Bool, true, false, Option, none, some, List, [], ◌∷◌,
  if◌then◌else◌,
}
use rappa_master.Paradigm.Commit.{down_failed, invalid_commit_type_to_string}
use rappa_master.Paradigm.Slot.{Slot, SlotStatus, finished, failed, processing}
use rappa_master.Task.{Task}
use rappa_master.Database.{Table}

-- What a table has beside its rows by key: Updates of the rows that a condition selects, as a function
-- on each row, and TRUNCATE.
pub record Bulk {V : Type 0} (T : Table V) : Type 0 where
  pub updates : (V → V) → T.State → T.State
  pub truncate : T.State → T.State
  pub take-updates :
      (f : V → V) (key : String) (s : T.State)
      → T.take key (updates f s) ≡ elim (T.take key s) [ none ↦ none | some row ↦ some (f row) ]
  pub take-truncate : (key : String) (s : T.State) → T.take key (truncate s) ≡ none

-- DownUnFinishedSlots, on a row.
unfoldable pub down_slot : (epoch : ℤ) → Slot → Slot
unfolding invalid_commit_type_to_string
down_slot epoch slot = elim slot.status [
  | processing ↦ record slot {
    epoch = epoch;
    err = invalid_commit_type_to_string down_failed;
    status = failed;
  }
  | finished ↦ slot
  | failed ↦ slot
]

-- DownUnFinishedTasks, on a row.
unfoldable pub down_task : Task → Task
down_task task = elim task.status [
  | processing ↦ record task { status = failed }
  | finished ↦ task
  | failed ↦ task
]

unfoldable pub max_from : ℤ → List ℤ → ℤ
max_from max [] = max
max_from max (id ∷ ids) = max_from (if leb_ℤ max id then id else max) ids

-- COALESCE(MAX(epoch_id), -1)
unfoldable pub get_max_epoch_id : List ℤ → ℤ
get_max_epoch_id [] = negsuc 0
get_max_epoch_id (id ∷ ids) = max_from id ids

pub record Config : Type 0 where
  pub is_auto_migrate : Bool
  pub is_recovery : Bool

-- Which calls give an error.
pub record Failures : Type 0 where
  pub auto_migrate : Bool
  pub max_epoch : Bool
  pub slots : Bool
  pub tasks : Bool
  pub truncate : Bool

module _ (tasks : Table Task) (slots : Table Slot) where
  pub record Tables : Type 0 where
    pub task_rows : tasks.State
    pub slot_rows : slots.State
    pub epoch_ids : List ℤ

  module _ (task_bulk : Bulk tasks) (slot_bulk : Bulk slots) where
    -- The branch of a recovery: the epoch, with `none` for nil, and the tables.
    unfoldable pub recover : Failures → Tables → Option ℤ × Tables
    recover fails t =
        if fails.max_epoch
        then (none, t)
        else let max_epoch_id = get_max_epoch_id t.epoch_ids in
          if fails.slots
          then (none, t)
          else let t' = record t {
            slot_rows = slot_bulk.updates (down_slot max_epoch_id) t.slot_rows;
          } in
            if fails.tasks then (none, t') else (
              some max_epoch_id,
              record t' { task_rows = task_bulk.updates down_task t.task_rows },
            )

    -- RecoverFromDataBase. A TRUNCATE that fails may have emptied some tables; here it empties none.
    unfoldable pub recover_from_data_base : Config → Failures → Tables → Option ℤ × Tables
    unfolding recover
    recover_from_data_base config fails t =
        if config.is_auto_migrate && fails.auto_migrate
        then (none, t)
        else if config.is_recovery
        then recover fails t
        else if fails.truncate
        then (none, t)
        else (
          some (negsuc 0),
          record {
            task_rows = task_bulk.truncate t.task_rows;
            slot_rows = slot_bulk.truncate t.slot_rows;
            epoch_ids = [];
          },
        )
