-- ===== src/Examples/Epochs.antt =====
-- The epoch manager over some events.
use rappa_master.Base.Assoc.{lookup, insert}
use rappa_master.Base.{◌≡◌, refl, string_eq, pos, int_eq, some, List, [], ◌∷◌, ◌+ℤ◌}
use rappa_master.Paradigm.Commit.{undetermined, finalized}
use rappa_master.Paradigm.Record.{new_epoch_record}
use rappa_master.Tracker.{new_tracker, init_task}
use rappa_master.Tracker.Sound.{IsSound}
use rappa_master.Tracker.World.{initial-IsValid}
use rappa_master.Epoch.{
  EpochManager, Event, epoch_event, commit_slots, epoch_init_task, Report, new_epoch_manager,
  process_tasks,
}
use rappa_master.Epoch.Ledger.{IsSynced, Balanced}
use rappa_master.Epoch.Run.{process_tasks-Balanced}
use rappa_master.Examples.Data.{task, track_of, item_of, slot_of}
use rappa_master.Examples.Certificates.{toy, manager}

abbrev start : EpochManager toy
unfolding new_epoch_manager new_tracker init_task insert new_epoch_record ◌+ℤ◌
start = record (new_epoch_manager toy (pos 3) manager) {
  tracker = (init_task (track_of task) new_tracker).0;
}

-- A task is announced, a node commits a slot, a slot is finalized, the epoch ends.
abbrev events : List Event
events =
    epoch_init_task "task" (pos 10)
    ∷ commit_slots 0 (record (item_of undetermined "a" 5) { ca = "good" })
    ∷ commit_slots 1 (item_of finalized "b" 4)
    ∷ epoch_event
    ∷ commit_slots 2 (item_of finalized "c" 6)
    ∷ []

start-IsSound : IsSound start.tracker
unfolding start new_tracker init_task
start-IsSound = initial-IsValid.sound

process_tasks-Balanced_example :
    (m' : EpochManager toy) × (rs : List Report) × (process_tasks toy events start ≡ some (m', rs))
    × IsSynced m'
    × Balanced (pos 3) (pos 0) rs m'.current_epoch m'.epoch_record.process
unfolding start new_epoch_manager new_epoch_record lookup insert ◌+ℤ◌
process_tasks-Balanced_example =
    process_tasks-Balanced events start start-IsSound refl
      (refl, ((slot_of 5, refl, refl), ((slot_of 4, refl), (tt, ((slot_of 6, refl), tt)))))
