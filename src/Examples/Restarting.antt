-- ===== src/Examples/Restarting.antt =====
-- The record of an epoch, and a restart.
use rappa_master.Base.Assoc.{Assoc, lookup}
use rappa_master.Base.{
  ◌≡◌, refl, String, string_eq, pos, some, none, [], ◌∷◌, arith, true, false, ◌==◌, Bool-cases, inl,
  inr,
}
use rappa_master.Paradigm.Slot.{Slot}
use rappa_master.Paradigm.Record.{EpochRecord, new_epoch_record}
use rappa_master.Task.{Task}
use rappa_master.Oracle.EpochTx.{DevEpoch, dev_epoch}
use rappa_master.Oracle.Grouping.{Row}
use rappa_master.Query.EpochCounts.{Shows, dev_epoch-epoch_response}
use rappa_master.Recovery
use rappa_master.Recovery.{Bulk, Config, Failures, Tables, recover_from_data_base}
use rappa_master.Recovery.Restart.{IsRestarted, recover_from_data_base-IsRestarted}
use rappa_master.Examples.Records.{rows, task}
use rappa_master.Examples.Querying.{done}

abbrev row : Row
row = record { hash = "task_0_0"; slot = done "task_0_0" 0 4 8; task = task }

abbrev task_rows : Assoc String Task
task_rows = ("task", task) ∷ []

abbrev slot_rows : Assoc String Slot
slot_rows = ("task_0_0", row.slot) ∷ []

abbrev epoch : EpochRecord
epoch = record (new_epoch_record (pos 8)) {
  commits = ("task_0_0", 7 ∷ []) ∷ [];
  finalizes = ("task_0_0", 7 ∷ []) ∷ [];
}

dev_epoch-epoch_response_example :
    (e : DevEpoch) × (s' : Assoc String Slot) × (dev_epoch
        (rows Task)
        (rows Slot)
        (λ t. none)
        (pos 3)
        epoch
        task_rows
        slot_rows
      ≡ some (e, s'))
    × Shows epoch (row ∷ []) e
unfolding lookup new_epoch_record
dev_epoch-epoch_response_example =
    dev_epoch-epoch_response (rows Task) (rows Slot) task_rows slot_rows (λ t. none) (pos 3) epoch
      (row ∷ []) [] (row ∷ []) refl refl refl ((refl, refl), tt) tt ((refl, refl), tt)
      ((omega arith, omega arith), tt) tt

-- Updates and TRUNCATE on an association list.
abbrev each : {V : Type 0} → (V → V) → Assoc String V → Assoc String V
each f [] = []
each f ((k, v) ∷ m) = (k, f v) ∷ each f m

lookup-each :
    {V : Type 0} (f : V → V) (key : String) (m : Assoc String V)
    → lookup key (each f m) ≡ elim (lookup key m) [ none ↦ none | some v ↦ some (f v) ]
unfolding lookup
lookup-each f key [] = refl
lookup-each f key ((k, v) ∷ m) = elim (Bool-cases (k == key)) [
  | inl same ↦ rw same refl
  | inr other ↦ rw other (lookup-each f key m)
]

abbrev bulk : (V : Type 0) → Bulk (rows V)
unfolding lookup
bulk V = record {
  updates = each;
  truncate = λ s. [];
  take-updates = λ f key s. lookup-each f key s;
  take-truncate = λ key s. refl;
}

abbrev config : Config
config = record { is_auto_migrate = true; is_recovery = true }

abbrev no_failures : Failures
no_failures = record {
  auto_migrate = false;
  max_epoch = false;
  slots = false;
  tasks = false;
  truncate = false;
}

abbrev tables : Tables (rows Task) (rows Slot)
tables = record {
  task_rows = task_rows;
  slot_rows = slot_rows;
  epoch_ids = pos 6 ∷ pos 8 ∷ pos 7 ∷ [];
}

recover_from_data_base-IsRestarted_example :
    (t' : Tables (rows Task) (rows Slot)) × (recover_from_data_base
        (rows Task)
        (rows Slot)
        (bulk Task)
        (bulk Slot)
        config
        no_failures
        tables
      ≡ (some (pos 8), t'))
    × IsRestarted (rows Task) (rows Slot) (pos 8) tables t'
unfolding Recovery.get_max_epoch_id Recovery.max_from
recover_from_data_base-IsRestarted_example =
    recover_from_data_base-IsRestarted (rows Task) (rows Slot) (bulk Task) (bulk Slot) config
      no_failures tables refl refl refl refl refl
