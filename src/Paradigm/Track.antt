-- ===== src/Paradigm/Track.antt =====
-- paradigm/track.go: what the tracker keeps of a task and of a slot that waits for its votes.
use rappa_master.Base.{
  ℕ, ℤ, pos, Bool, true, false, ◌&&◌, Option, none, some, ltb_ℤ, leb_ℤ, add_i32, sub_i32,
  if◌then◌else◌, ◌==◌,
}
use rappa_master.Paradigm.Model.{TaskHash, SupportModelType, Params}
use rappa_master.Paradigm.Commit.{SignedCommitSlotItem, finalized, state_eq}

pub record UnprocessedTask : Type 0 where
  pub task_id : TaskHash
  pub size : ℤ
  pub slot_size : ℤ
  pub model : SupportModelType
  pub params : Params

pub record SynthTaskTrackItem : Type 0 where
  pub unprocessed_task : UnprocessedTask
  pub open unprocessed_task use *
  pub total : ℤ
  pub history : ℤ
  pub is_reliable : Bool

-- UnprocessedTask.Process
unfoldable pub process : ℤ → UnprocessedTask → UnprocessedTask
process size t =
    let left = sub_i32 t.size size in record t { size = if ltb_ℤ left (pos 0) then pos 0 else left }

-- SynthTaskTrackItem.Commit. `none` is the error for a slot that is not finalized, and the panic
-- for an item with no slot in it.
unfoldable pub commit : SignedCommitSlotItem → SynthTaskTrackItem → Option SynthTaskTrackItem
commit item t =
    if item.state == finalized
    then elim item.justified_slot [
      | none ↦ none
      | some slot ↦ some (record t {
        unprocessed_task = process slot.process t.unprocessed_task;
        history = add_i32 t.history slot.process;
      })
    ]
    else none

unfoldable pub is_finish : SynthTaskTrackItem → Bool
is_finish t = leb_ℤ t.size (pos 0)

abbrev pub next : SynthTaskTrackItem → UnprocessedTask
next t = t.unprocessed_task

pub record PendingCommitSlotTrack : Type 0 where
  pub signed_item : SignedCommitSlotItem
  pub open signed_item use *
  pub is_finalized : ℕ
  pub has_verified_proof : Bool
  pub has_won_vote : Bool

unfoldable pub check : PendingCommitSlotTrack → Bool
check t = t.has_verified_proof && t.has_won_vote

unfoldable pub new_pending_commit_slot_track : SignedCommitSlotItem → Bool → PendingCommitSlotTrack
new_pending_commit_slot_track item is_reliable = record {
  signed_item = item;
  is_finalized = 0;
  has_verified_proof = is_reliable;
  has_won_vote = false;
}

abbrev pub receive_proof : PendingCommitSlotTrack → PendingCommitSlotTrack
receive_proof t = record t { has_verified_proof = true }

abbrev pub won_vote : PendingCommitSlotTrack → PendingCommitSlotTrack
won_vote t = record t { has_won_vote = true }
