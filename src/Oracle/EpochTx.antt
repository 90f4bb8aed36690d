-- ===== src/Oracle/EpochTx.antt =====
-- Oracle/persistedOracle.go, the case of an EpochRecordTransaction, and DevEpoch of paradigm/oracle.go:
-- what is kept of an epoch. The hashes of a record come in the order of its maps. What GetTransaction
-- answers for the transaction of a task is a parameter, and so is whether the epoch could be saved, which
-- is only logged.
use rappa_master.Base.Assoc.{Assoc, upsert, keys}
use rappa_master.Base.{
  ℕ, ◌+◌, length, ℤ, pos, wrap_i32, add_i32, Option, none, some, List, [], ◌∷◌, ◌++◌,
}
use rappa_master.Paradigm.Model.{TaskHash, SlotHash, SupportModelType, model_eq}
use rappa_master.Paradigm.Commit.{InvalidCommitError}
use rappa_master.Paradigm.Slot.{Slot}
use rappa_master.Paradigm.Record.{EpochRecord}
use rappa_master.Date.{update_transactions}
use rappa_master.Task.{Task}
use rappa_master.Database.{Table, DateTable, get_task, get_slot, set_slot_error, get_date_record}
use rappa_master.Oracle.{
  DevReference, Packing, day_of, reference, epoch_tx, Tables, Message, set_transaction,
}

pub record DevEpoch : Type 0 where
  pub epoch_id : ℤ
  pub process : Assoc SupportModelType ℤ
  pub commits : Assoc SupportModelType (List SlotHash)
  pub justifieds : Assoc SupportModelType (List SlotHash)
  pub finalizes : Assoc SupportModelType (List SlotHash)
  pub invalids : List Slot
  pub init_tasks : List Task
  pub tid : ℤ

-- How many hashes a map holds, as the answers to queries about epochs count them.
unfoldable pub nb_slots : Assoc SupportModelType (List SlotHash) → ℕ
nb_slots [] = 0
nb_slots ((model, hashes) ∷ m) = length hashes + nb_slots m

module _ (tasks : Table Task) (slots : Table Slot) where
  -- GetSlot and GetTask, with the panic on a task that is not there.
  unfoldable pub slot_and_task :
      SlotHash → tasks.State → slots.State → Option (Slot × Task × slots.State)
  slot_and_task hash t s =
      let (slot, s') = get_slot slots hash s in
      elim (get_task tasks slot.task_id t) [ none ↦ none | some task ↦ some (slot, task, s') ]

  abbrev pub add_hash :
      SlotHash
      → SupportModelType
      → Assoc SupportModelType (List SlotHash)
      → Assoc SupportModelType (List SlotHash)
  add_hash hash model m = upsert model (λ value. value ++ hash ∷ []) (hash ∷ []) m

  -- The loops over the commits and the justified slots: the hashes by model.
  unfoldable pub group :
      List SlotHash
      → tasks.State
      → slots.State
      → Assoc SupportModelType (List SlotHash)
      → Option (Assoc SupportModelType (List SlotHash) × slots.State)
  group [] t s m = some (m, s)
  group (hash ∷ hashes) t s m = elim (slot_and_task hash t s) [
    | none ↦ none
    | some (slot, task, s') ↦ group hashes t s' (add_hash hash task.model m)
  ]

  -- The loop over the finalized slots, which sums their sizes too.
  unfoldable pub finalize_group :
      List SlotHash
      → tasks.State
      → slots.State
      → Assoc SupportModelType (List SlotHash)
      → (process : Assoc SupportModelType ℤ)
      → Option (Assoc SupportModelType (List SlotHash) × Assoc SupportModelType ℤ × slots.State)
  finalize_group [] t s m process = some (m, process, s)
  finalize_group (hash ∷ hashes) t s m process = elim (slot_and_task hash t s) [
    | none ↦ none
    | some (slot, task, s') ↦
        finalize_group hashes t s' (add_hash hash task.model m)
          (upsert task.model (λ value. add_i32 value slot.schedule_size) slot.schedule_size process)
  ]

  -- The loop over the invalid slots.
  unfoldable pub mark_invalids :
      (epoch_id : ℤ)
      → Assoc SlotHash InvalidCommitError
      → slots.State
      → List Slot
      → List Slot × slots.State
  mark_invalids epoch_id [] s invalids = (invalids, s)
  mark_invalids epoch_id ((hash, e) ∷ rest) s invalids =
      let s' = set_slot_error slots hash e epoch_id s in
      let (slot, s'') = get_slot slots hash s' in
      mark_invalids epoch_id rest s'' (invalids ++ slot ∷ [])

  -- The loop over the tasks: one that is missing is only logged, and the reference of one that is
  -- there is changed in memory, with a panic if it is missing.
  unfoldable pub find_tasks :
      (get_transaction : Task → Option DevReference)
      → List TaskHash
      → tasks.State
      → List Task
      → Option (List Task)
  find_tasks get_transaction [] t found = some found
  find_tasks get_transaction (sign ∷ signs) t found = elim (get_task tasks sign t) [
    | none ↦ find_tasks get_transaction signs t found
    | some task ↦ elim (get_transaction task) [
      | none ↦ none
      | some _ ↦ find_tasks get_transaction signs t (found ++ task ∷ [])
    ]
  ]

  -- What the case makes of the record of an epoch, with the slots after it.
  unfoldable pub dev_epoch :
      (get_transaction : Task → Option DevReference)
      → (tid : ℤ) → EpochRecord
      → tasks.State
      → slots.State
      → Option (DevEpoch × slots.State)
  dev_epoch get_transaction tid r t s = elim (group (keys r.commits) t s []) [
    | none ↦ none
    | some (commits, s1) ↦ elim (group (keys r.justifieds) t s1 []) [
      | none ↦ none
      | some (justifieds, s2) ↦ elim (finalize_group (keys r.finalizes) t s2 [] []) [
        | none ↦ none
        | some (finalizes, process, s3) ↦
            let (invalids, s4) = mark_invalids (wrap_i32 r.id) r.invalids s3 [] in
            elim (find_tasks get_transaction (keys r.tasks) t []) [
              | none ↦ none
              | some init_tasks ↦ some (
                record {
                  epoch_id = wrap_i32 r.id;
                  process = process;
                  commits = commits;
                  justifieds = justifieds;
                  finalizes = finalizes;
                  invalids = invalids;
                  init_tasks = init_tasks;
                  tid = tid;
                },
                s4,
              )
            ]
      ]
    ]
  ]

  -- case *EpochRecordTransaction: the tables, the epoch that is saved, and what is written to the table
  -- of transactions.
  unfoldable pub process_epoch_record :
      (dates : DateTable)
      → (get_transaction : Task → Option DevReference) → Packing
      → (tid : ℤ) → EpochRecord
      → Tables tasks slots dates
      → Option (Tables tasks slots dates × DevEpoch × List Message)
  process_epoch_record dates get_transaction p tid r t =
      let (day, days) = get_date_record dates (day_of p) t.date_rows in
      elim (dev_epoch get_transaction tid r t.task_rows t.slot_rows) [
        | none ↦ none
        | some (epoch, s) ↦ elim day [
          | none ↦ none
          | some record_now ↦ some (
            record t {
              slot_rows = s;
              date_rows = dates.save (update_transactions (pos 1) record_now) days;
            },
            epoch,
            set_transaction (reference p epoch_tx "" (wrap_i32 r.id)) ∷ [],
          )
        ]
      ]
