-- ===== src/Paradigm/Record.antt =====
-- paradigm/oracle.go: EpochRecord, what happened in one epoch.
use rappa_master.Base.Assoc.{Assoc, insert, contains}
use rappa_master.Base.{
  string_eq, ℤ, pos, not, ◌&&◌, Option, none, some, [], map, add_i32, ◌+ℤ◌, if◌then◌else◌, ◌==◌,
}
use rappa_master.Paradigm.Model.{TaskHash, SlotHash, SlotCommitment}
use rappa_master.Paradigm.Commit
use rappa_master.Paradigm.Commit.{
  InvalidCommitError, InvalidCommitType, SignedCommitSlotItem, invalid, justified, finalized,
  unknown, state_eq, set_invalid, new_invalid_commit_error, invalid_commit_type_to_string,
}

pub record EpochRecord : Type 0 where
  pub id : ℤ
  pub commits : Assoc SlotHash SlotCommitment
  pub justifieds : Assoc SlotHash SlotCommitment
  pub finalizes : Assoc SlotHash SlotCommitment
  pub invalids : Assoc SlotHash InvalidCommitError
  pub tasks : Assoc TaskHash ℤ
  pub process : ℤ

-- `none` is the panic on a task that the record has already.
unfoldable pub update_task : TaskHash → ℤ → EpochRecord → Option EpochRecord
update_task sign size r =
    if contains sign r.tasks then none else some (record r { tasks = insert sign size r.tasks })

-- The commitment of an item, where a nil slot in it panics.
abbrev pub commitment_of : SignedCommitSlotItem → Option SlotCommitment
commitment_of slot = elim slot.justified_slot [ none ↦ none | some j ↦ some j.commitment ]

unfoldable pub commit : SignedCommitSlotItem → EpochRecord → Option EpochRecord
unfolding Commit.check
commit slot r =
    if not (slot.state == invalid) && (Commit.check slot.item).1
    then elim (commitment_of slot) [
      | none ↦ none
      | some c ↦ some (record r { commits = insert slot.hash c r.commits })
    ]
    else some r

-- Justified, Finalize and Abort change the slot too.
unfoldable pub justify :
    SignedCommitSlotItem → EpochRecord → Option (EpochRecord × SignedCommitSlotItem)
unfolding set_invalid
justify slot r =
    if slot.state == justified
    then elim (commitment_of slot) [
      | none ↦ none
      | some c ↦ some (record r { justifieds = insert slot.hash c r.justifieds }, slot)
    ]
    else some (r, record slot { item = set_invalid unknown slot.item })

unfoldable pub finalize :
    SignedCommitSlotItem → EpochRecord → Option (EpochRecord × SignedCommitSlotItem)
unfolding set_invalid
finalize slot r =
    if slot.state == finalized
    then elim slot.justified_slot [
      | none ↦ none
      | some j ↦ some (
        record r {
          finalizes = insert slot.hash j.commitment r.finalizes;
          process = add_i32 r.process j.process;
        },
        slot,
      )
    ]
    else some (r, record slot { item = set_invalid unknown slot.item })

unfoldable pub abort :
    SignedCommitSlotItem → InvalidCommitType → EpochRecord → EpochRecord × SignedCommitSlotItem
unfolding set_invalid
abort slot reason r = (
  record r {
    invalids =
        insert slot.hash (new_invalid_commit_error reason (invalid_commit_type_to_string reason))
          r.invalids;
  },
  record slot { item = set_invalid reason slot.item },
)

unfoldable pub sample_invalids : EpochRecord → Assoc SlotHash InvalidCommitType
sample_invalids r = map (λ (h, e). (h, e.error)) r.invalids

-- Refresh keeps `tasks`.
unfoldable pub refresh : EpochRecord → EpochRecord
refresh r = record r {
  id = r.id +ℤ pos 1;
  process = pos 0;
  commits = [];
  justifieds = [];
  finalizes = [];
  invalids = [];
}

unfoldable pub new_epoch_record : ℤ → EpochRecord
new_epoch_record init_epoch_id = record {
  id = init_epoch_id;
  commits = [];
  justifieds = [];
  finalizes = [];
  invalids = [];
  tasks = [];
  process = pos 0;
}
