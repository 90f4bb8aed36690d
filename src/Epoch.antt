-- ===== src/Epoch.antt =====
-- Epoch/EpochManager.go: the loop that takes epoch ticks, committed slots, new tasks and slots that
-- could not be scheduled, and keeps the record of the epoch. Each event is one step; `none` is a
-- panic. What the manager sends is listed in order, the two sends of a goroutine of their own too.
pub mod Ledger
pub mod Needs
pub mod Progress
pub mod Run
use rappa_master.Base.Assoc.{Assoc, insert, keys}
use rappa_master.Base.{
  ℕ, String, string_eq, ℤ, pos, Option, none, some, List, [], ◌∷◌, ◌++◌, map, wrap_i32, ◌+ℤ◌,
  decimal, ◌<>◌, true, false,
}
use rappa_master.Paradigm.Model.{TaskHash, SlotHash, SlotCommitment}
use rappa_master.Paradigm.Commit.{
  SignedCommitSlotItem, JustifiedSlot, CommitSlotItem, InvalidCommitType, invalid, undetermined,
  justified, finalized, verified_failed, invalid_slot, set_epoch, set_finalize,
  new_invalid_commit_error,
}
use rappa_master.Paradigm.Slot.{Slot}
use rappa_master.Paradigm.Record
use rappa_master.Paradigm.Record.{
  EpochRecord, new_epoch_record, refresh, sample_invalids, abort, finalize,
}
use rappa_master.Tracker
use rappa_master.Tracker.{Tracker, Sent, new_tracker, update_slot, won_vote}
use rappa_master.Pki.{Crypto, PkiManager, verify_node_ca}

pub record HeartbeatRequest : Type 0 where
  pub commits : Assoc SlotHash SlotCommitment
  pub justifieds : Assoc SlotHash SlotCommitment
  pub finalizes : Assoc SlotHash SlotCommitment
  pub invalids : Assoc SlotHash InvalidCommitType
  pub epoch : ℤ

-- The transactions of paradigm/transaction.go that the manager makes.
pub record TaskProcessTransaction : Type 0 where
  pub commit_slot_item : CommitSlotItem
  pub signatures : List String

pub record EpochRecordTransaction : Type 0 where
  pub epoch_record : EpochRecord
  pub id : ℤ
  pub commits_hash : List SlotHash
  pub justified_hash : List SlotHash
  pub invalids : Assoc SlotHash InvalidCommitType

pub data Report : Type 0 where
  tracked : Sent → Report
  heartbeat : HeartbeatRequest → Report
  task_process : TaskProcessTransaction → Report
  epoch_ended : EpochRecordTransaction → Report

pub data Event : Type 0 where
  epoch_event : Event
  commit_slots : (now : ℕ) → SignedCommitSlotItem → Event
  epoch_init_task : TaskHash → (size : ℤ) → Event
  un_scheduled_slot : Slot → Event

pub record EpochManager (c : Crypto) : Type 0 where
  pub tracker : Tracker
  pub current_epoch : ℤ
  pub epoch_record : EpochRecord
  pub pki_manager : PkiManager c

module _ (c : Crypto) where
  abbrev pub Outcome : Type 0
  Outcome = Option (EpochManager c × List Report)

  unfoldable pub new_epoch_manager : (epoch_id : ℤ) → PkiManager c → EpochManager c
  new_epoch_manager epoch_id manager = record {
    tracker = new_tracker;
    current_epoch = epoch_id;
    epoch_record = new_epoch_record (epoch_id +ℤ pos 1);
    pki_manager = manager;
  }

  -- A call of the tracker: the messages that it sends are passed on.
  unfoldable pub with_tracker : Option (Tracker × List Sent) → EpochManager c → Outcome
  with_tracker none m = none
  with_tracker (some (t, sent)) m = some (record m { tracker = t }, map tracked sent)

  -- The slot of a node whose certificate is accepted.
  unfoldable pub accept_slot : (now : ℕ) → SignedCommitSlotItem → EpochManager c → Outcome
  accept_slot now item m = elim (with_tracker (update_slot now item m.tracker) m) [
    | none ↦ none
    | some (m', reports) ↦ elim (Record.commit item m'.epoch_record) [
      | none ↦ none
      | some r ↦ some (record m' { epoch_record = r }, reports)
    ]
  ]

  unfoldable pub reject_slot :
      SignedCommitSlotItem → JustifiedSlot → EpochManager c → EpochManager c
  reject_slot item j m =
      let r = m.epoch_record in
      let message = "the slot from " <> decimal j.nid <> " has invalid ca" in
      record m {
        epoch_record = record r {
          invalids = insert item.hash (new_invalid_commit_error verified_failed message) r.invalids;
        };
      }

  -- case UNDETERMINED
  unfoldable pub undetermined_slot : (now : ℕ) → SignedCommitSlotItem → EpochManager c → Outcome
  undetermined_slot now item m = elim item.justified_slot [
    | none ↦ none
    | some j ↦ elim (verify_node_ca c m.pki_manager j.nid (wrap_i32 m.current_epoch) item.ca) [
      | none ↦ none
      | some (accepted, pm) ↦
          let m' = record m { pki_manager = pm } in
          elim accepted [
            | true ↦ accept_slot now item m'
            | false ↦ some (reject_slot item j m', [])
          ]
    ]
  ]

  -- case FINALIZE: the manager's own epoch is written into the slot.
  unfoldable pub finalized_slot : SignedCommitSlotItem → EpochManager c → Outcome
  finalized_slot item m = elim (set_epoch (wrap_i32 m.current_epoch) item.item) [
    | none ↦ none
    | some stamped ↦
        let slot = record item { item = set_finalize stamped } in
        elim (Tracker.commit slot m.tracker) [
          | none ↦ none
          | some (t, false) ↦ some (record m { tracker = t }, [])
          | some (t, true) ↦ elim (finalize slot m.epoch_record) [
            | none ↦ none
            | some (r, slot') ↦ some (
              record m { tracker = t; epoch_record = r },
              task_process (record {
                commit_slot_item = slot'.item;
                signatures = slot'.signature ∷ slot'.ca ∷ [];
              })
                  ∷ [],
            )
          ]
        ]
  ]

  unfoldable pub process_slot : (now : ℕ) → SignedCommitSlotItem → EpochManager c → Outcome
  process_slot now item m = elim item.state [
    | undetermined ↦ undetermined_slot now item m
    | justified ↦ with_tracker (won_vote item.hash m.tracker) m
    | finalized ↦ finalized_slot item m
    | invalid ↦
        let (r, _) = abort item item.invalid_type m.epoch_record in
        some (record m { epoch_record = r }, [])
  ]

  unfoldable pub build_heartbeat : EpochManager c → HeartbeatRequest
  build_heartbeat m = record {
    commits = m.epoch_record.commits;
    justifieds = m.epoch_record.justifieds;
    finalizes = m.epoch_record.finalizes;
    invalids = sample_invalids m.epoch_record;
    epoch = wrap_i32 m.current_epoch;
  }

  -- UpdateEpoch: JustifiedHash gets the finalized hashes.
  unfoldable pub update_epoch : EpochManager c → EpochManager c × List Report
  update_epoch m =
      let m' = record m { current_epoch = m.current_epoch +ℤ pos 1 } in
      let r = m.epoch_record in
      (
        record m' { epoch_record = refresh r },
        heartbeat (build_heartbeat m')
            ∷ epoch_ended (record {
              epoch_record = r;
              id = wrap_i32 m'.current_epoch;
              commits_hash = keys r.commits;
              justified_hash = keys r.finalizes;
              invalids = sample_invalids r;
            })
            ∷ [],
      )

  unfoldable pub process_event : Event → EpochManager c → Outcome
  process_event epoch_event m = some (update_epoch m)
  process_event (commit_slots now item) m = process_slot now item m
  process_event (epoch_init_task sign size) m = elim (Record.update_task sign size m.epoch_record) [
    | none ↦ none
    | some r ↦ some (record m { epoch_record = r }, [])
  ]
  process_event (un_scheduled_slot slot) m =
      let r = m.epoch_record in
      let e = new_invalid_commit_error invalid_slot slot.err in
      some
        (record m { epoch_record = record r { invalids = insert slot.slot_id e r.invalids } }, [])

  -- The loop, over the events in the order in which they are taken.
  unfoldable pub process_tasks : List Event → EpochManager c → Outcome
  process_tasks [] m = some (m, [])
  process_tasks (e ∷ es) m = elim (process_event e m) [
    | none ↦ none
    | some (m', reports) ↦ elim (process_tasks es m') [
      | none ↦ none
      | some (m'', more) ↦ some (m'', reports ++ more)
    ]
  ]
