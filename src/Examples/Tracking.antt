-- ===== src/Examples/Tracking.antt =====
-- The tracker under calls.
use rappa_master.Base.Assoc.{lookup, insert}
use rappa_master.Base.{◌≡◌, ◌≢◌, refl, string_eq, true, none, some, List, [], ◌∷◌, ◌++◌, All, arith}
use rappa_master.Paradigm.Commit.{SignedCommitSlotItem, undetermined}
use rappa_master.Paradigm.Track.{SynthTaskTrackItem, new_pending_commit_slot_track}
use rappa_master.Tracker.{
  Tracker, Sent, commit_slot, unprocessed, expire, slot_at, new_tracker, init_task, update_slot,
  check_is_reliable,
}
use rappa_master.Tracker.World.{
  World, inits, submits, wins, expires, step, initial, Reach, begin, call, Succeeds, step-Succeeds,
  Reach-returns, Reach-IsValid,
}
use rappa_master.Tracker.Finality.{replicate, win_times, finalized_item, update_slot-win_times}
use rappa_master.Tracker.Unproven.{NotFinal, Unaided, Unaided-NotFinal}
use rappa_master.Tracker.Unproven
use rappa_master.Examples.Data.{task, track_of, item_of, slot_of}

abbrev item : SignedCommitSlotItem
item = item_of undetermined "a" 5

-- A task that is marked as reliable, with a slot that a node commits.
abbrev reliable : SynthTaskTrackItem
reliable = record (track_of task) { is_reliable = true }

abbrev with_task : Tracker
with_task = (init_task reliable new_tracker).0

update_slot-win_times_example :
    (t' t'' : Tracker) × (sent : List Sent) × (update_slot 0 item with_task ≡ some (t', sent))
    × (win_times 2 "a" t' ≡ some (t'', replicate 2 (commit_slot (finalized_item item))))
unfolding init_task new_tracker check_is_reliable lookup insert
update_slot-win_times_example = update_slot-win_times 0 item (slot_of 5) with_task 2 refl refl

-- A task is announced, and a node commits a slot of it.
abbrev t1 : Tracker
unfolding new_tracker init_task insert
t1 = (init_task (track_of task) new_tracker).0

abbrev w1 : World
w1 = record { tracker = t1; waiting = [] }

abbrev w2 : World
unfolding check_is_reliable new_pending_commit_slot_track lookup insert
w2 = record {
  tracker = record t1 {
    pending_commit_slot = insert "a" 0 [];
    heap = new_pending_commit_slot_track item (check_is_reliable "task" t1) ∷ [];
  };
  waiting = slot_at 60 "a" 0 ∷ [];
}

abbrev sent1 : List Sent
sent1 = unprocessed task ∷ []

abbrev sent2 : List Sent
sent2 = expire (slot_at 60 "a" 0) ∷ []

step1 : step (inits (track_of task)) initial ≡ some (w1, sent1)
unfolding step init_task new_tracker insert
step1 = refl

step2 : step (submits 0 item) w1 ≡ some (w2, sent2)
unfolding step update_slot init_task new_tracker insert check_is_reliable
    new_pending_commit_slot_track lookup
step2 = refl

reached : Reach w2 (([] ++ sent1) ++ sent2)
reached =
    call {w = w1} {w' = w2} {sent = [] ++ sent1} {new = sent2} (submits 0 item)
      (call {w = initial} {w' = w1} {sent = []} {new = sent1} (inits (track_of task)) begin tt
        step1)
      (slot_of 5, refl) step2

-- The slot expires.
Reach-returns_example : step (expires 0) w2 ≢ none
unfolding w2
Reach-returns_example = Reach-returns reached (expires 0) (omega arith)

step-Succeeds_example : Succeeds (step (wins "a") w2)
step-Succeeds_example = step-Succeeds (wins "a") w2 (Reach-IsValid reached) tt

unaided : Unaided w2 (([] ++ sent1) ++ sent2)
unaided =
    Unproven.call {w = w1} {w' = w2} {sent = [] ++ sent1} {new = sent2} (submits 0 item)
      (Unproven.call {w = initial} {w' = w1} {sent = []} {new = sent1} (inits (track_of task))
        Unproven.begin refl step1)
      tt step2

Unaided-NotFinal_example : All NotFinal (([] ++ sent1) ++ sent2)
Unaided-NotFinal_example = Unaided-NotFinal unaided
