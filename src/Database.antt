-- ===== src/Database.antt =====
-- Database/slotImpl.go, Database/taskImpl.go, Database/dataRecordImpl.go: what the oracle reads and
-- writes. The tables are kept by gorm and MySQL, third-party code: a table is a parameter, with the
-- read of a row by its key and the write of a row. Fields that gorm is told to ignore, and the
-- private one, read as zero values. The methods that only query for display are not modelled.
pub mod Recovery
pub mod Dates
use rappa_master.Base.{
  ℕ, ◌*◌, ◌-◌, zero, suc, ltb, int_beq, ◌≡◌, String, string_eq, ℤ, pos, false, Option, none, some,
  List, [], ◌∷◌, ◌++◌, add_i32, add_i64, ◌<>◌, if◌then◌else◌, ◌==◌,
}
use rappa_master.Paradigm.Model.{TaskHash, SlotHash}
use rappa_master.Paradigm.Commit.{
  CommitSlotItem, JustifiedSlot, InvalidCommitError, invalid_commit_type_to_string,
}
use rappa_master.Paradigm.Slot.{
  Slot, SynthTaskSchedule, finished, failed, processing, new_slot_with_slot_id,
}
use rappa_master.Collector.{Collector, CollectSlotItem, new_collector, process_slot_update}
use rappa_master.Date.{DateRecord, new_date_record}
use rappa_master.Task.{Task, update_schedule}

-- A table: `take` is Where(key).Take, and `save` is Create, Save or Updates of the whole row.
pub record Table (V : Type 0) : Type 1 where
  pub State : Type 0
  pub take : String → State → Option V
  pub save : String → V → State → State
  pub take-save :
      (written read : String) (row : V) (s : State)
      → take read (save written row s) ≡ (if written == read then some row else take read s)

-- The table of days: `count` is Count, `last` Last, `find` Find, `create` Create, and `save` is Save of
-- the last row, read before.
pub record DateTable : Type 1 where
  pub State : Type 0
  pub count : State → ℕ
  pub last : State → Option DateRecord
  pub find : State → List DateRecord
  pub create : DateRecord → State → State
  pub save : DateRecord → State → State
  pub count-create : (r : DateRecord) (s : State) → count (create r s) ≡ suc (count s)
  pub last-create : (r : DateRecord) (s : State) → last (create r s) ≡ some r
  pub find-create : (r : DateRecord) (s : State) → find (create r s) ≡ find s ++ r ∷ []
  pub count-save : (r : DateRecord) (s : State) → count (save r s) ≡ count s
  pub last-save : (r : DateRecord) (s : State) → last (save r s) ≡ some r

-- A row of the table of tasks holds neither the private mark nor what is not stored.
abbrev pub row_of : Task → Task
row_of t = record t { is_reliable = false; has_been_collect = false; collector = none }

abbrev int_or : ℤ → ℤ → ℤ
int_or a old = if int_beq a (pos 0) then old else a

abbrev text_or : String → String → String
text_or a old = if a == "" then old else a

-- Updates with a struct writes the fields that are not zero; the commit slot and the epoch are
-- omitted.
unfoldable pub non_zero_fields : Slot → Slot → Slot
non_zero_fields slot row = record row {
  task_id = text_or slot.task_id row.task_id;
  schedule_id = int_or slot.schedule_id row.schedule_id;
  node_id = int_or slot.node_id row.node_id;
  schedule_size = int_or slot.schedule_size row.schedule_size;
  status = elim slot.status [ finished ↦ row.status | processing ↦ processing | failed ↦ failed ];
  err = text_or slot.err row.err;
  sign = text_or slot.sign row.sign;
  ca = text_or slot.ca row.ca;
}

module _ (slots : Table Slot) where
  -- GetSlot: FirstOrCreate.
  unfoldable pub get_slot : SlotHash → slots.State → Slot × slots.State
  get_slot hash s = elim (slots.take hash s) [
    | some slot ↦ (slot, s)
    | none ↦ (new_slot_with_slot_id hash, slots.save hash (new_slot_with_slot_id hash) s)
  ]

  -- UpdateSlotFromSchedule: of a slot that is there only the columns named in the source change.
  unfoldable pub update_slot_from_schedule : Slot → slots.State → slots.State
  update_slot_from_schedule slot s = elim (slots.take slot.slot_id s) [
    | none ↦ slots.save slot.slot_id slot s
    | some row ↦ elim slot.status [
      | failed ↦ slots.save slot.slot_id (non_zero_fields slot row) s
      | finished ↦
          slots.save slot.slot_id
            (record row {
              task_id = slot.task_id;
              schedule_id = slot.schedule_id;
              schedule_size = slot.schedule_size;
            })
            s
      | processing ↦
          slots.save slot.slot_id
            (record row {
              task_id = slot.task_id;
              schedule_id = slot.schedule_id;
              schedule_size = slot.schedule_size;
            })
            s
    ]
  ]

  -- SetSlotError: the status is written, but was not changed.
  unfoldable pub set_slot_error :
      SlotHash → InvalidCommitError → (epoch : ℤ) → slots.State → slots.State
  set_slot_error hash e epoch s =
      let (slot, s') = get_slot hash s in
      slots.save hash
        (record slot {
          epoch = epoch;
          err = invalid_commit_type_to_string e.error <> "||" <> e.error_message;
        })
        s'

  -- SetSlotFinish: `none` is the panic on a commit without a slot.
  unfoldable pub set_slot_finish :
      SlotHash → CommitSlotItem → (sign ca : String) → slots.State → Option slots.State
  set_slot_finish hash item sign ca s = elim item.justified_slot [
    | none ↦ none
    | some j ↦
        let (slot, s') = get_slot hash s in
        some (
          slots.save hash
            (record slot {
              commit_slot = some item;
              status = finished;
              epoch = j.epoch;
              ca = ca;
              sign = sign;
            })
            s')
  ]

module _ (tasks : Table Task) where
  -- GetTask, without the data of the transaction. `none` is the error.
  unfoldable pub get_task : TaskHash → tasks.State → Option Task
  get_task sign s = tasks.take sign s

  unfoldable pub set_task : Task → tasks.State → tasks.State
  set_task t s = tasks.save t.sign (row_of (record t { end_time = none })) s

  unfoldable pub update_task : Task → tasks.State → tasks.State
  update_task t s = tasks.save t.sign (row_of t) s

  -- UpdateScheduleInTask: `none` is the panic on a missing task.
  unfoldable pub update_schedule_in_task : SynthTaskSchedule → tasks.State → Option tasks.State
  unfolding update_schedule
  update_schedule_in_task schedule s = elim (get_task schedule.task_id s) [
    | none ↦ none
    | some t ↦ some (tasks.save t.sign (row_of (update_schedule schedule t)) s)
  ]

  -- IncrementTaskProcess, with `none` for the error.
  unfoldable pub increment_task_process :
      TaskHash → JustifiedSlot → tasks.State → Option tasks.State
  increment_task_process sign j s = elim (tasks.take sign s) [
    | none ↦ none
    | some t ↦ some (
        tasks.save t.sign
          (row_of (record t {
            process = add_i32 t.process j.process;
            upload_size = add_i64 t.upload_size j.upload_size;
          }))
          s)
  ]

  unfoldable pub increment_task_process_and_get :
      TaskHash → JustifiedSlot → tasks.State → Option (Task × tasks.State)
  increment_task_process_and_get sign j s = elim (increment_task_process sign j s) [
    | none ↦ none
    | some s' ↦ elim (get_task sign s') [ none ↦ none | some t ↦ some (t, s') ]
  ]

-- What RecoverCollector makes of a slot: a getter of a missing message gives the zero value, and a
-- missing commit slot panics.
unfoldable pub recovered_item : Task → Slot → Option CollectSlotItem
recovered_item t slot = elim slot.commit_slot [
  | none ↦ none
  | some c ↦
      let item : CollectSlotItem = record {
        sign = t.sign;
        hash = slot.slot_id;
        size = slot.schedule_size;
        padding_size = elim c.justified_slot [ none ↦ [] | some j ↦ j.padding ];
        store_method = elim c.justified_slot [ none ↦ pos 0 | some j ↦ j.store ];
        node_sign = slot.sign;
        node_id = slot.node_id;
        data_hash = "";
      } in
      some item
]

-- The loop over the finished slots of the task.
unfoldable pub recover_slots : Task → List Slot → Collector → Option Collector
recover_slots t [] c = some c
recover_slots t (slot ∷ rest) c = elim (recovered_item t slot) [
  | none ↦ none
  | some item ↦ elim (process_slot_update item c) [
    | none ↦ none
    | some c' ↦ recover_slots t rest c'
  ]
]

-- RecoverCollector, with the answer of the query for the finished slots: the outer `none` is a
-- panic, the inner one the error for a task that is not finished.
unfoldable pub recover_collector : List Slot → Task → Option (Option Task)
recover_collector answer t = elim t.status [
  | processing ↦ some none
  | failed ↦ some none
  | finished ↦
      let c : Collector = elim t.collector [ none ↦ new_collector t.sign t.output | some c ↦ c ] in
      elim (recover_slots t answer c) [
        | none ↦ none
        | some c' ↦ some (some (record t { collector = some c' }))
      ]
]

module _ (dates : DateTable) where
  -- The loop of GetDateRecord, `left` days to come: the record that it ends with, if any.
  unfoldable pub create_dates :
      (left : ℕ) → dates.State → Option DateRecord → Option DateRecord × dates.State
  create_dates zero s record_now = (record_now, s)
  create_dates (suc left) s record_now =
      let r = new_date_record (24 * dates.count s) in create_dates left (dates.create r s) (some r)

  -- GetDateRecord: `duration` is the number of days since the genesis date.
  unfoldable pub get_date_record : (duration : ℕ) → dates.State → Option DateRecord × dates.State
  get_date_record duration s =
      if ltb duration (dates.count s)
      then (dates.last s, s)
      else create_dates (suc duration - dates.count s) s none
