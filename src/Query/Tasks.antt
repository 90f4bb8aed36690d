-- ===== src/Query/Tasks.antt =====
-- Query/SynthTaskQuery.go, SynthTaskQuery: the list of all tasks. GetAllTasks leaves the receipt of a task
-- nil if its transaction cannot be read. The other fields that are shown are those of the task.
use rappa_master.Base.{String, Bool, Option, none, some, List, [], ◌∷◌, if◌then◌else◌}
use rappa_master.Task.{Task}

-- The loop over the tasks, each with the hash of its transaction. `has_speed` is whether Speed, over floats,
-- finds all schedules that it looks up. `none` is a panic, there or on a nil receipt.
unfoldable pub synth_task_response :
    (has_speed : Task → Bool) → List (Task × Option String) → Option (List (Task × String))
synth_task_response has_speed [] = some []
synth_task_response has_speed ((task, tx) ∷ tasks) =
    let rest = synth_task_response has_speed tasks in
    if has_speed task
    then elim tx [
      | none ↦ none
      | some tx_hash ↦ elim rest [ none ↦ none | some shown ↦ some ((task, tx_hash) ∷ shown) ]
    ]
    else none
