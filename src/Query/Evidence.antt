-- ===== src/Query/Evidence.antt =====
-- Query/EvidencePreserveQuery.go, BasicEvidencePreserveTaskQuery: what became of a task, epoch by
-- epoch and schedule by schedule.
use rappa_master.Base.{
  ℕ, suc, ◌+◌, ◌-◌, ℤ, pos, negsuc, int_eq, Option, none, some, List, [], ◌∷◌, ◌++◌, length,
  add_i32, ltb_ℤ, if◌then◌else◌, ◌==◌,
}
use rappa_master.Base.Assoc.{Assoc, lookup, insert, contains}
use rappa_master.Paradigm.Slot.{Slot, SynthTaskSchedule, finished, failed, processing}
use rappa_master.Task.{Task, get_dataset}

-- [3]int32: how many slots of an epoch were committed and how many invalid, and what was made.
pub record EpochData : Type 0 where
  pub commits : ℤ
  pub invalids : ℤ
  pub process : ℤ

abbrev pub no_data : EpochData
no_data = record { commits = pos 0; invalids = pos 0; process = pos 0 }

-- The variables that the loops over the schedules and the slots share.
pub record Totals : Type 0 where
  pub epochs : List ℤ
  pub epoch_slot_map : Assoc ℤ EpochData
  pub total_commit_number : ℕ
  pub total_invalid_number : ℕ
  pub total_slot_number : ℕ

-- scheduleInfo.
pub record ScheduleInfo : Type 0 where
  pub process : ℤ
  pub commit_number : ℕ
  pub invalid_number : ℕ
  pub slots : List Slot

-- epochSlotMap[epoch], where a missing key gives zeros.
unfoldable pub data_of : ℤ → Assoc ℤ EpochData → EpochData
data_of epoch m = elim (lookup epoch m) [ none ↦ no_data | some d ↦ d ]

-- The first test in the loop: an epoch that is new gets an entry.
unfoldable pub list_epoch : ℤ → Totals → Totals
list_epoch epoch t =
    if epoch == negsuc 0 then t else if contains epoch t.epoch_slot_map then t else record t {
      epochs = t.epochs ++ epoch ∷ [];
      epoch_slot_map = insert epoch no_data t.epoch_slot_map;
    }

abbrev pub add_commit : ℤ → EpochData → EpochData
add_commit made d = record d {
  process = add_i32 d.process made;
  commits = add_i32 d.commits (pos 1);
}

abbrev pub add_invalid : EpochData → EpochData
add_invalid d = record d { invalids = add_i32 d.invalids (pos 1) }

-- slot.CommitSlot.Process, where a nil pointer panics.
unfoldable pub process_of : Slot → Option ℤ
process_of slot = elim slot.commit_slot [
  | none ↦ none
  | some c ↦ elim c.justified_slot [ none ↦ none | some j ↦ some j.process ]
]

-- One round of the loop over the slots of a schedule.
unfoldable pub count_slot : Slot → Totals → ScheduleInfo → Option (Totals × ScheduleInfo)
count_slot slot totals info =
    let t = list_epoch slot.epoch totals in
    let seen = info.slots ++ slot ∷ [] in
    elim slot.status [
      | finished ↦ elim (process_of slot) [
        | none ↦ none
        | some made ↦ some (
          record t {
            total_commit_number = suc t.total_commit_number;
            epoch_slot_map =
                insert slot.epoch (add_commit made (data_of slot.epoch t.epoch_slot_map))
                  t.epoch_slot_map;
          },
          record info {
            commit_number = suc info.commit_number;
            process = add_i32 info.process made;
            slots = seen;
          },
        )
      ]
      | failed ↦ some (
        record t {
          total_invalid_number = suc t.total_invalid_number;
          epoch_slot_map =
              insert slot.epoch (add_invalid (data_of slot.epoch t.epoch_slot_map))
                t.epoch_slot_map;
        },
        record info { invalid_number = suc info.invalid_number; slots = seen },
      )
      | processing ↦ some (t, record info { slots = seen })
    ]

unfoldable pub count_slots : List Slot → Totals → ScheduleInfo → Option (Totals × ScheduleInfo)
count_slots [] t info = some (t, info)
count_slots (slot ∷ slots) t info = elim (count_slot slot t info) [
  | none ↦ none
  | some (t', info') ↦ count_slots slots t' info'
]

abbrev pub no_info : ScheduleInfo
no_info = record { process = pos 0; commit_number = 0; invalid_number = 0; slots = [] }

-- The loop over the schedules.
unfoldable pub count_schedules :
    List SynthTaskSchedule → Totals → List ScheduleInfo → Option (Totals × List ScheduleInfo)
count_schedules [] t schedules = some (t, schedules)
count_schedules (schedule ∷ rest) t schedules =
    let t' = record t { total_slot_number = t.total_slot_number + length schedule.slots } in
    elim (count_slots schedule.slots t' no_info) [
      | none ↦ none
      | some (t'', info) ↦ count_schedules rest t'' (schedules ++ info ∷ [])
    ]

abbrev pub no_totals : Totals
no_totals = record {
  epochs = [];
  epoch_slot_map = [];
  total_commit_number = 0;
  total_invalid_number = 0;
  total_slot_number = 0;
}

-- sort.Slice on the epochs.
unfoldable pub place : ℤ → List ℤ → List ℤ
place e [] = e ∷ []
place e (f ∷ es) = let rest = place e es in if ltb_ℤ f e then f ∷ rest else e ∷ f ∷ es

unfoldable pub sort_epochs : List ℤ → List ℤ
sort_epochs [] = []
sort_epochs (e ∷ es) = place e (sort_epochs es)

-- The last loop, which writes a line of the timeline for each epoch.
unfoldable pub timeline_of : Assoc ℤ EpochData → List ℤ → List (ℤ × EpochData)
timeline_of m [] = []
timeline_of m (e ∷ es) = (e, data_of e m) ∷ timeline_of m es

pub record TaskResponse : Type 0 where
  pub timeline : List (ℤ × EpochData)
  pub schedules : List ScheduleInfo
  pub epoch_data : Assoc ℤ EpochData
  pub schedule_distribution : ℕ × ℕ × ℕ

-- The last part of GenerateResponse. "epochs" and "epochProcessData" are columns of the timeline.
abbrev pub task_response : Totals → List ScheduleInfo → TaskResponse
task_response t schedules = record {
  timeline = timeline_of t.epoch_slot_map (sort_epochs t.epochs);
  schedules = schedules;
  epoch_data = t.epoch_slot_map;
  schedule_distribution = (
    t.total_commit_number,
    t.total_invalid_number,
    t.total_slot_number - t.total_commit_number - t.total_invalid_number,
  );
}

-- GenerateResponse: `none` is a panic, on a dataset that is no text or a finished slot without its commit.
-- The receipt of the transaction is there, since GetTaskByID gives an error otherwise. What the response
-- copies of the task and of the receipt is left out.
unfoldable pub generate_response : Task → Option TaskResponse
generate_response task = elim (get_dataset task) [
  | none ↦ none
  | some _ ↦ elim (count_schedules task.schedules no_totals []) [
    | none ↦ none
    | some (t, schedules) ↦ some (task_response t schedules)
  ]
]
