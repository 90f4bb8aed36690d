-- ===== src/Examples/Records.antt =====
-- The tables as association lists, and what the oracle writes into them.
use rappa_master.Base.Assoc.{Assoc, lookup, insert, lookup-insert}
use rappa_master.Base.{
  ap, ◌∙◌, length-append, arith, ◌++◌, ℕ, suc, ◌≤◌, ◌≡◌, refl, String, string_eq, pos, false, some,
  List, [], ◌∷◌, arith, length,
}
use rappa_master.Paradigm.Model.{ctgan}
use rappa_master.Paradigm.Commit.{finalized}
use rappa_master.Paradigm.Slot.{Slot, finished, new_slot}
use rappa_master.Date.{DateRecord, new_date_record}
use rappa_master.Task.{Task, new_task}
use rappa_master.Collector.{Collector, CollectSlotItem, HttpCollectRequest, process_collect}
use rappa_master.Collector.Greedy.{total}
use rappa_master.Database.{Table, DateTable, get_date_record, recover_collector}
use rappa_master.Database.Dates.{fresh_day, get_date_record_again}
use rappa_master.Database.Recovery.{recover_collector-process_collect}
use rappa_master.Oracle.Finish.{Progress, HasTask, advance_all, advance_all-finishes}
use rappa_master.Examples.Data.{item_of, slot_of}

abbrev pub rows : (V : Type 0) → Table V
rows V = record {
  State = Assoc String V;
  take = λ k s. lookup k s;
  save = λ k v s. insert k v s;
  take-save = λ k j v s. lookup-insert k j v s;
}

-- The latest day, and the days before it.
abbrev pub days : DateTable
days = record {
  State = DateRecord × List DateRecord;
  count = λ s. suc (length s.1);
  last = λ s. some s.0;
  find = λ s. s.1 ++ s.0 ∷ [];
  create = λ r s. (r, s.1 ++ s.0 ∷ []);
  save = λ r s. (r, s.1);
  count-create = λ r s. ap suc (length-append s.1 (s.0 ∷ []) ∙ omega arith);
  last-create = λ r s. refl;
  find-create = λ r s. refl;
  count-save = λ r s. refl;
  last-save = λ r s. refl;
}

get_date_record_again_example :
    (s' : DateRecord × List DateRecord) × (get_date_record days 3 (fresh_day 0, [])
      ≡ (some (fresh_day 3), s'))
    × (s'.1 ++ s'.0 ∷ [] ≡ fresh_day 0 ∷ fresh_day 1 ∷ fresh_day 2 ∷ fresh_day 3 ∷ [])
    × (suc (length s'.1) ≡ 4)
    × (get_date_record days 3 s' ≡ (some (fresh_day 3), s'))
get_date_record_again_example = get_date_record_again days 3 (fresh_day 0, []) (omega arith)

abbrev pub task : Task
unfolding new_task
task = new_task 0 "task" "a task" ctgan (pos 5) [] (pos 10) false

abbrev step : (hash : String) → (amount : ℕ) → Progress "task"
step hash amount = record {
  tx = record {
    commit_slot_item = (item_of finalized hash amount).item;
    signatures = "" ∷ "" ∷ [];
  };
  slot = slot_of amount;
  amount = amount;
  signature = "";
  ca = "";
  holds = refl;
  of_task = refl;
  commits = refl;
}

abbrev start : Assoc String Task
start = ("task", task) ∷ []

has_task : HasTask (rows Task) (rows Slot) days "task" 10 0 start
unfolding lookup task
has_task = record {
  row = task;
  stored = refl;
  named = refl;
  sized = refl;
  so_far = refl;
  uncollected = refl;
}

-- Of three slots the second and the third each count a finished task.
advance_all-finishes_example :
    (s' : Assoc String Task) × (u' : Assoc String Slot) × (r' : DateRecord) × (advance_all
        (rows Task)
        (rows Slot)
        days
        7
        (step "a" 6 ∷ step "b" 5 ∷ step "c" 1 ∷ [])
        (new_date_record 0)
        start
        []
      ≡ some (s', u', r'))
    × HasTask (rows Task) (rows Slot) days "task" 10 12 s'
    × (r'.nb_finish_tasks ≡ pos 2)
unfolding new_date_record
advance_all-finishes_example =
    advance_all-finishes (rows Task) (rows Slot) days 7 "task"
      (step "a" 6 ∷ step "b" 5 ∷ step "c" 1 ∷ []) 10 0 0 (new_date_record 0) start [] has_task refl
      (omega arith) (omega arith)

abbrev stored_slot : (hash : String) → (size : ℕ) → Slot
stored_slot hash size =
    let s = new_slot hash "task" (pos 0) (pos size) in
    record s { status = finished; commit_slot = some (item_of finalized hash size).item }

abbrev done : Task
done = record task { status = finished }

abbrev request : HttpCollectRequest
request = record { sign = "task"; size = pos 9 }

recover_collector-process_collect_example :
    (c : Collector) × (chosen : List CollectSlotItem) × (recover_collector
        (stored_slot "a" 4 ∷ stored_slot "b" 6 ∷ [])
        done
      ≡ some (some (record done { collector = some c })))
    × (process_collect request c ≡ some chosen)
    × (9 ≤ total chosen)
unfolding task
recover_collector-process_collect_example =
    recover_collector-process_collect done (stored_slot "a" 4 ∷ stored_slot "b" 6 ∷ []) request refl
      refl
      (
        (((item_of finalized "a" 4).item, refl), refl, (omega arith, omega arith)),
        ((((item_of finalized "b" 6).item, refl), refl, (omega arith, omega arith)), tt),
      )
      refl (omega arith, omega arith) (omega arith)
