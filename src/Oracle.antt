-- ===== src/Oracle.antt =====
-- Oracle/persistedOracle.go: what the oracle does with the transactions that are on the chain, over
-- the tables of Database, and with a schedule. EpochTx has the record of an epoch. `none` is a panic. The key that the table of transactions gives to a
-- new row is an argument.
pub mod Finish
pub mod EpochTx
pub mod Grouping
use rappa_master.Base.{
  ℕ, ◌/◌, String, ℤ, pos, negsuc, not, ◌&&◌, Option, none, some, List, [], ◌∷◌, if◌then◌else◌,
}
use rappa_master.Paradigm.Model.{TaskHash, SupportModelType}
use rappa_master.Paradigm.Commit.{JustifiedSlot}
use rappa_master.Paradigm.Track.{SynthTaskTrackItem}
use rappa_master.Date.{
  DateRecord, update_init_tasks, update_dateset, update_transactions, update_finish_tasks,
  update_finalized, update_process,
}
use rappa_master.Task.{Task, init_track, get_dataset, is_finish, set_end_time, set_collected}
use rappa_master.Database.{
  Table, DateTable, update_schedule_in_task, update_slot_from_schedule, set_task, get_task,
  update_task, set_slot_finish, increment_task_process_and_get, get_date_record,
}
use rappa_master.Paradigm.Slot.{Slot, SynthTaskSchedule}
use rappa_master.Epoch.{TaskProcessTransaction}

pub data RfType : Type 0 where
  init_task_tx epoch_tx slot_tx : RfType

pub record DevReference : Type 0 where
  pub tx_hash : String
  pub tx_block_hash : String
  pub rf : RfType
  pub task_id : TaskHash
  pub epoch_id : ℤ
  pub upchain_time : ℕ

-- What PackedTransaction tells of a transaction's place on the chain: the time is in seconds since
-- the genesis date.
pub record Packing : Type 0 where
  pub tx_hash : String
  pub block_hash : String
  pub upchain_time : ℕ

-- GetDateDuration
abbrev pub day_of : Packing → ℕ
day_of p = p.upchain_time / 86400

abbrev pub reference : Packing → RfType → TaskHash → (epoch_id : ℤ) → DevReference
reference p rf task_id epoch_id = record {
  tx_hash = p.tx_hash;
  tx_block_hash = p.block_hash;
  rf = rf;
  task_id = task_id;
  epoch_id = epoch_id;
  upchain_time = p.upchain_time;
}

pub data Message : Type 0 where
  init_in_epoch : Task → Message
  init_tasks : SynthTaskTrackItem → Message
  monitor_oracle : TaskProcessTransaction → SupportModelType → Message
  set_transaction : DevReference → Message
  monitor_schedule : SynthTaskSchedule → Message

module _ (tasks : Table Task) (slots : Table Slot) (dates : DateTable) where
  pub record Tables : Type 0 where
    pub task_rows : tasks.State
    pub slot_rows : slots.State
    pub date_rows : dates.State

  abbrev pub Outcome : Type 0
  Outcome = Option (Tables × List Message)

  -- case schedule := <-OracleSchedules
  unfoldable pub update_slots : List Slot → slots.State → slots.State
  update_slots [] s = s
  update_slots (slot ∷ rest) s = update_slots rest (update_slot_from_schedule slots slot s)

  unfoldable pub process_schedule : SynthTaskSchedule → Tables → Outcome
  process_schedule schedule t = elim (update_schedule_in_task tasks schedule t.task_rows) [
    | none ↦ none
    | some rows ↦ some (
      record t { task_rows = rows; slot_rows = update_slots schedule.slots t.slot_rows },
      monitor_schedule schedule ∷ [],
    )
  ]

  -- What the case of a new task does to the record of the day.
  unfoldable pub count_init_task : (dataset : String) → DateRecord → DateRecord
  count_init_task dataset r =
      update_transactions (pos 1) (update_dateset dataset (update_init_tasks (pos 1) r))

  -- case *InitTaskTransaction
  unfoldable pub process_init_task : Packing → (tid : ℤ) → Task → Tables → Outcome
  process_init_task p tid task t =
      let (day, days) = get_date_record dates (day_of p) t.date_rows in
      elim day [
        | none ↦ none
        | some r ↦ elim (get_dataset task) [
          | none ↦ none
          | some dataset ↦ some (
            record t {
              task_rows = set_task tasks (record task { tid = tid }) t.task_rows;
              date_rows = dates.save (count_init_task dataset r) days;
            },
            init_in_epoch task
                ∷ init_tasks (init_track task)
                ∷ set_transaction (reference p init_task_tx task.sign (negsuc 0))
                ∷ [],
          )
        ]
      ]

  -- Of a task that is finished, and not marked as collected, the end is noted, and counted.
  unfoldable pub finish_task :
      (now : ℕ) → Task → tasks.State → DateRecord → tasks.State × DateRecord
  finish_task now task s r =
      if is_finish task && not task.has_been_collect
      then (
        update_task tasks (set_collected (set_end_time now task)) s,
        update_finish_tasks (pos 1) r,
      )
      else (s, r)

  unfoldable pub count_process : (process : ℤ) → SupportModelType → DateRecord → DateRecord
  count_process process model r =
      update_transactions (pos 1) (update_process process model (update_finalized (pos 1) r))

  -- The writes for a task that is there, on the record of the day.
  unfoldable pub advance_task :
      (now : ℕ)
      → TaskProcessTransaction
      → JustifiedSlot
      → (sign ca : String) → DateRecord
      → tasks.State
      → slots.State
      → Option (tasks.State × slots.State × DateRecord)
  advance_task now tx j sign ca r s u =
      elim (set_slot_finish slots tx.commit_slot_item.hash tx.commit_slot_item sign ca u) [
        | none ↦ none
        | some u' ↦ elim (increment_task_process_and_get tasks j.sign j s) [
          | none ↦ none
          | some (task, s') ↦
              let (s'', r') = finish_task now task s' r in
              some (s'', u', count_process j.process task.model r')
        ]
      ]

  -- case *TaskProcessTransaction
  unfoldable pub process_task_process : Packing → TaskProcessTransaction → Tables → Outcome
  process_task_process p tx t = elim tx.commit_slot_item.justified_slot [
    | none ↦ none
    | some j ↦ elim (get_task tasks j.sign t.task_rows) [
      | none ↦ none
      | some task ↦
          let (day, days) = get_date_record dates (day_of p) t.date_rows in
          elim day [
            | none ↦ none
            | some r ↦ elim tx.signatures [
              | [] ↦ none
              | sign ∷ rest ↦ elim rest [
                | [] ↦ none
                | ca ∷ _ ↦
                    elim (advance_task p.upchain_time tx j sign ca r t.task_rows t.slot_rows) [
                      | none ↦ none
                      | some (s, u, r') ↦ some (
                        record { task_rows = s; slot_rows = u; date_rows = dates.save r' days },
                        monitor_oracle tx task.model
                            ∷ set_transaction (reference p slot_tx j.sign j.epoch)
                            ∷ [],
                      )
                    ]
              ]
            ]
          ]
    ]
  ]
