-- ===== src/Epoch/Needs.antt =====
-- What the events of the epoch manager need, so that none of them panics.
use rappa_master.Base.Assoc.{Assoc, contains, insert}
use rappa_master.Base.{◌≡◌, string_eq, ℤ, int_eq, true, false, some, List, [], ◌∷◌}
use rappa_master.Paradigm.Model.{TaskHash}
use rappa_master.Paradigm.Commit.{
  CommitState, SignedCommitSlotItem, JustifiedSlot, invalid, undetermined, justified, finalized,
}
use rappa_master.Tracker.World.{HasSlot}
use rappa_master.Epoch.{Event, epoch_event, commit_slots, epoch_init_task, un_scheduled_slot}

-- What an event needs of the listed keys and of the tasks that were announced. A committed slot
-- that is not yet judged comes from a listed node, and only fakes carry no slot; a task is
-- announced once.
abbrev pub NeedsOf : {Key : Type 0} → CommitState → Assoc ℤ Key → SignedCommitSlotItem → Type 0
NeedsOf undetermined cert item =
    (j : JustifiedSlot) × (item.justified_slot ≡ some j) × (contains j.nid cert ≡ true)
NeedsOf justified cert item = Unit
NeedsOf finalized cert item = HasSlot item
NeedsOf invalid cert item = Unit

abbrev pub Needs : {Key : Type 0} → Assoc ℤ Key → Assoc TaskHash ℤ → Event → Type 0
Needs cert tasks (commit_slots now item) = NeedsOf item.state cert item
Needs cert tasks (epoch_init_task sign size) = contains sign tasks ≡ false
Needs cert tasks epoch_event = Unit
Needs cert tasks (un_scheduled_slot slot) = Unit

-- The tasks that are announced after an event: an epoch's end takes none away.
abbrev pub announced : Event → Assoc TaskHash ℤ → Assoc TaskHash ℤ
announced (epoch_init_task sign size) tasks = insert sign size tasks
announced _ tasks = tasks

abbrev pub AllNeeds : {Key : Type 0} → Assoc ℤ Key → Assoc TaskHash ℤ → List Event → Type 0
AllNeeds cert tasks [] = Unit
AllNeeds cert tasks (e ∷ es) = Needs cert tasks e × AllNeeds cert (announced e tasks) es
