-- ===== src/Date.antt =====
-- Date/DateRecord.go: the counters of one day. A date is the number of its hours since the genesis
-- date of paradigm/date.go.
use rappa_master.Base.Assoc.{Assoc, lookup, insert, contains}
use rappa_master.Base.{ℕ, String, string_eq, ℤ, pos, none, some, [], add_i32, if◌then◌else◌, ◌==◌}
use rappa_master.Paradigm.Model.{SupportModelType, model_eq}

pub record DateRecord : Type 0 where
  pub date : ℕ
  pub synth_data : Assoc SupportModelType ℤ
  pub nb_init_tasks : ℤ
  pub nb_finalized_slot : ℤ
  pub nb_transactions : ℤ
  pub nb_finish_tasks : ℤ
  pub dataset_distribution : Assoc String ℤ

unfoldable pub update_process : ℤ → SupportModelType → DateRecord → DateRecord
update_process process model r = elim (lookup model r.synth_data) [
  | some value ↦ record r { synth_data = insert model (add_i32 value process) r.synth_data }
  | none ↦ record r { synth_data = insert model process r.synth_data }
]

unfoldable pub update_init_tasks : ℤ → DateRecord → DateRecord
update_init_tasks n r = record r { nb_init_tasks = add_i32 r.nb_init_tasks n }

unfoldable pub update_finalized : ℤ → DateRecord → DateRecord
update_finalized n r = record r { nb_finalized_slot = add_i32 r.nb_finalized_slot n }

unfoldable pub update_finish_tasks : ℤ → DateRecord → DateRecord
update_finish_tasks n r = record r { nb_finish_tasks = add_i32 r.nb_finish_tasks n }

unfoldable pub update_transactions : ℤ → DateRecord → DateRecord
update_transactions n r = record r { nb_transactions = add_i32 r.nb_transactions n }

-- UpdateDateset: a read of the map gives 0 for a missing key.
unfoldable pub count_of : String → Assoc String ℤ → ℤ
count_of dataset m = elim (lookup dataset m) [ none ↦ pos 0 | some n ↦ n ]

unfoldable pub update_dateset : String → DateRecord → DateRecord
update_dateset dataset r =
    if dataset == ""
    then r
    else let m = r.dataset_distribution in
      let m' = if contains dataset m then m else insert dataset (pos 0) m in
      record r { dataset_distribution = insert dataset (add_i32 (count_of dataset m') (pos 1)) m' }

unfoldable pub new_date_record : ℕ → DateRecord
new_date_record date = record {
  date = date;
  synth_data = [];
  nb_init_tasks = pos 0;
  nb_finalized_slot = pos 0;
  nb_transactions = pos 0;
  nb_finish_tasks = pos 0;
  dataset_distribution = [];
}
