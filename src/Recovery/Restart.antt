-- ===== src/Recovery/Restart.antt =====
-- What a restart leaves.
use rappa_master.Base.{
  String, ℤ, pos, ◌≤ℤ◌, ◌<ℤ◌, leb_ℤ, +ℤ_parts, true, false, ◌&&◌, none, some, List, [], ◌∷◌, All,
  All-map, ◌≡◌, refl, ◌⊎◌, if◌then◌else◌, arith,
}
use rappa_master.Paradigm.Slot.{Slot, failed, processing}
use rappa_master.Paradigm.Record.{new_epoch_record}
use rappa_master.Task.{Task}
use rappa_master.Database.{Table}
use rappa_master.Recovery.{
  Bulk, down_slot, down_task, max_from, get_max_epoch_id, Config, Failures, Tables, recover,
  recover_from_data_base,
}
use rappa_master.Pki.{Crypto, PkiManager}
use rappa_master.Epoch.{new_epoch_manager}

max_from-le :
    (max : ℤ) (ids : List ℤ) → (max ≤ℤ max_from max ids) × All (λ id. id ≤ℤ max_from max ids) ids
unfolding max_from
max_from-le max [] = (omega arith, tt)
max_from-le max (id ∷ ids) =
    let more = if leb_ℤ max id then id else max in
    let (le, les) = max_from-le more ids in
    let l : max ≤ℤ more = ground arith in
    let k : id ≤ℤ more = ground arith in (omega (arith, l, le), (omega (arith, k, le), les))

get_max_epoch_id-le : (ids : List ℤ) → All (λ id. id ≤ℤ get_max_epoch_id ids) ids
unfolding get_max_epoch_id
get_max_epoch_id-le [] = tt
get_max_epoch_id-le (id ∷ ids) = max_from-le id ids

-- A row that a restart leaves, of the row before: one that was being processed has failed, in the epoch
-- `epoch`, and any other is as it was.
abbrev pub IsSettledSlot : (epoch : ℤ) → (before after : Slot) → Type 0
IsSettledSlot epoch before after =
    ((before.status ≡ processing)
      × (after.status ≡ failed)
      × (after.epoch ≡ epoch)
      × (after.slot_id ≡ before.slot_id)
      × (after.err ≡ "DOWN_FAILED"))
    ⊎ (¬ (before.status ≡ processing) × (after ≡ before))

abbrev pub IsSettledTask : (before after : Task) → Type 0
IsSettledTask before after =
    ((before.status ≡ processing) × (after.status ≡ failed) × (after.process ≡ before.process))
    ⊎ (¬ (before.status ≡ processing) × (after ≡ before))

down_slot-IsSettledSlot :
    (epoch : ℤ) (slot : Slot) → IsSettledSlot epoch slot (down_slot epoch slot)
unfolding down_slot
down_slot-IsSettledSlot epoch slot = ground arith

down_task-IsSettledTask : (task : Task) → IsSettledTask task (down_task task)
unfolding down_task
down_task-IsSettledTask task = ground arith

module _ (tasks : Table Task) (slots : Table Slot) where
  -- The rows of the tables after a restart, and the first epoch of an epoch manager after it.
  pub record IsRestarted (epoch : ℤ) (before after : Tables tasks slots) : Type 1 where
    pub slot :
        (key : String) (row : Slot)
        → slots.take key before.slot_rows ≡ some row
        → (now : Slot) × (slots.take key after.slot_rows ≡ some now) × IsSettledSlot epoch row now
    pub no_slot :
        (key : String)
        → slots.take key before.slot_rows ≡ none
        → slots.take key after.slot_rows ≡ none
    pub task :
        (key : String) (row : Task)
        → tasks.take key before.task_rows ≡ some row
        → (now : Task) × (tasks.take key after.task_rows ≡ some now) × IsSettledTask row now
    pub no_task :
        (key : String)
        → tasks.take key before.task_rows ≡ none
        → tasks.take key after.task_rows ≡ none
    pub newer :
        (c : Crypto) (manager : PkiManager c)
        → All (λ id. id <ℤ (new_epoch_manager c epoch manager).epoch_record.id) before.epoch_ids

  module _ (task_bulk : Bulk tasks) (slot_bulk : Bulk slots) where
    first-newer :
        (c : Crypto) (manager : PkiManager c) (ids : List ℤ)
        → All (λ id. id <ℤ (new_epoch_manager c (get_max_epoch_id ids) manager).epoch_record.id) ids
    unfolding new_epoch_manager new_epoch_record
    first-newer c manager ids =
        let last = get_max_epoch_id ids in
        All-map (λ id le. omega (arith, le, +ℤ_parts last (pos 1))) ids (get_max_epoch_id-le ids)

    -- A restart with recovery, in which no call of the database gives an error, gives the highest epoch
    -- in the table of epochs, or -1 if it is empty. Each slot that was being processed has then failed
    -- with DOWN_FAILED, in that epoch, and each task that was being processed has failed, with what was
    -- done of it; all other slots and tasks are as they were, and none is lost or new. The first epoch
    -- of the epoch manager that starts from there is later than all epochs in the table.
    pub recover_from_data_base-IsRestarted :
        (config : Config) (fails : Failures) (t : Tables tasks slots)
        → config.is_recovery ≡ true
        → (config.is_auto_migrate && fails.auto_migrate) ≡ false
        → fails.max_epoch ≡ false
        → fails.slots ≡ false
        → fails.tasks ≡ false
        → (t' : Tables tasks slots) × (recover_from_data_base tasks slots task_bulk slot_bulk config
              fails t
            ≡ (some (get_max_epoch_id t.epoch_ids), t'))
          × IsRestarted (get_max_epoch_id t.epoch_ids) t t'
    unfolding recover_from_data_base recover
    recover_from_data_base-IsRestarted config fails t r a m s k =
        let epoch = get_max_epoch_id t.epoch_ids in
        (
          record {
            task_rows = task_bulk.updates down_task t.task_rows;
            slot_rows = slot_bulk.updates (down_slot epoch) t.slot_rows;
            epoch_ids = t.epoch_ids;
          },
          rw (recover_from_data_base, a, r, recover, m, s, k) refl,
          record {
            slot = λ key row e. (
              down_slot epoch row,
              rw (slot_bulk.take-updates, e) refl,
              down_slot-IsSettledSlot epoch row,
            );
            no_slot = λ key e. rw (slot_bulk.take-updates, e) refl;
            task = λ key row e.
                (down_task row, rw (task_bulk.take-updates, e) refl, down_task-IsSettledTask row);
            no_task = λ key e. rw (task_bulk.take-updates, e) refl;
            newer = λ c manager. first-newer c manager t.epoch_ids;
          },
        )
