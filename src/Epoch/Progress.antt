-- ===== src/Epoch/Progress.antt =====
-- Which events the epoch manager takes without a panic.
use rappa_master.Base.Assoc.{Assoc, contains, insert}
use rappa_master.Base.{
  ℕ, ◌≡◌, refl, sym, subst, ◌∙◌, inl, inr, string_eq, ℤ, int_eq, Bool, true, Option, some, List, [],
  ◌∷◌, map, arith, Bool-cases, Option-cases, wrap_i32,
}
use rappa_master.Paradigm.Model.{TaskHash}
use rappa_master.Paradigm.Commit.{
  CommitState, SignedCommitSlotItem, JustifiedSlot, invalid, undetermined, justified, finalized,
  set_epoch, set_finalize,
}
use rappa_master.Paradigm.Record
use rappa_master.Paradigm.Record.{EpochRecord, refresh, abort, finalize}
use rappa_master.Paradigm.Track
use rappa_master.Tracker
use rappa_master.Tracker.{Tracker, Sent, update_slot, won_vote, set_flag}
use rappa_master.Tracker.Sound.{IsSound, Returns, update_slot-Returns, set_flag-Returns}
use rappa_master.Tracker.World.{HasSlot, commit-Returns}
use rappa_master.Pki.{Crypto}
use rappa_master.Pki.Totality.{verify_node_ca-Answers}
use rappa_master.Epoch.{
  EpochManager, Event, epoch_event, commit_slots, epoch_init_task, un_scheduled_slot, Report,
  tracked, task_process, Outcome, with_tracker, accept_slot, reject_slot, undetermined_slot,
  finalized_slot, process_slot, update_epoch, process_event,
}
use rappa_master.Epoch.Needs.{NeedsOf, Needs, announced}

record_commit_returns :
    (item : SignedCommitSlotItem) (j : JustifiedSlot) (r : EpochRecord)
    → item.justified_slot ≡ some j
    → (r' : EpochRecord) × (Record.commit item r ≡ some r') × (r'.tasks ≡ r.tasks)
unfolding Record.commit
record_commit_returns item j r slot = elim (Option-cases (Record.commit item r)) [
  | inl nil ↦ absurd (ground arith)
  | inr (r', e) ↦ (r', e, ground arith)
]

finalize_returns :
    (item : SignedCommitSlotItem) (j : JustifiedSlot) (r : EpochRecord)
    → item.justified_slot ≡ some j
    → (r' : EpochRecord) × (item' : SignedCommitSlotItem) × (finalize item r ≡ some (r', item'))
      × (r'.tasks ≡ r.tasks)
unfolding finalize
finalize_returns item j r slot = elim (Option-cases (finalize item r)) [
  | inl nil ↦ absurd (ground arith)
  | inr ((r', item'), e) ↦ (r', item', e, ground arith)
]

tracker_commit_returns :
    (item : SignedCommitSlotItem) (t : Tracker)
    → HasSlot item
    → IsSound t
    → (t' : Tracker) × (b : Bool) × (Tracker.commit item t ≡ some (t', b)) × IsSound t'
tracker_commit_returns item t h s =
    let ret = commit-Returns item t h s in
    elim (Option-cases (Tracker.commit item t)) [
      | inl nil ↦ absurd (ground (arith, ret.runs))
      | inr ((t', b), e) ↦
          let same : ret.after ≡ t' = ground (arith, ret.runs) in
          (t', b, e, subst IsSound same ret.sound)
    ]

module _ {c : Crypto} where
  -- A run that returns, keeps the tracker sound and the listed keys, and leaves `tasks` announced.
  pub record Goes (m : EpochManager c) (tasks : Assoc TaskHash ℤ) (r : Outcome c) : Type 0 where
    pub after : EpochManager c
    pub reports : List Report
    pub runs : r ≡ some (after, reports)
    pub sound : IsSound after.tracker
    pub cert : after.pki_manager.node_cert ≡ m.pki_manager.node_cert
    pub tasks_now : after.epoch_record.tasks ≡ tasks

  Goes-by :
      (m : EpochManager c) (tasks : Assoc TaskHash ℤ) {r r' : Outcome c}
      → r ≡ r'
      → Goes m tasks r'
      → Goes m tasks r
  Goes-by m tasks e g = subst (Goes m tasks) (sym e) g

  with_tracker-Goes :
      (m : EpochManager c) (r : Option (Tracker × List Sent))
      → Returns m.tracker r
      → Goes m m.epoch_record.tasks (with_tracker c r m)
  unfolding with_tracker
  with_tracker-Goes m r ret = record {
    after = record m { tracker = ret.after };
    reports = map tracked ret.sent;
    runs = rw ret.runs;
    sound = ret.sound;
    cert = refl;
    tasks_now = refl;
  }

  accept_slot-Goes :
      (now : ℕ) (item : SignedCommitSlotItem) (j : JustifiedSlot) (m : EpochManager c)
      → item.justified_slot ≡ some j
      → IsSound m.tracker
      → Goes m m.epoch_record.tasks (accept_slot c now item m)
  unfolding accept_slot with_tracker
  accept_slot-Goes now item j m slot s =
      let ret = update_slot-Returns now item j m.tracker slot s in
      let (r, commits, same) = record_commit_returns item j m.epoch_record slot in
      record {
        after = record m { tracker = ret.after; epoch_record = r };
        reports = map tracked ret.sent;
        runs = ground (arith, ret.runs);
        sound = ret.sound;
        cert = refl;
        tasks_now = same;
      }

  undetermined_slot-Goes :
      (now : ℕ) (item : SignedCommitSlotItem) (j : JustifiedSlot) (m : EpochManager c)
      → item.justified_slot ≡ some j
      → contains j.nid m.pki_manager.node_cert ≡ true
      → IsSound m.tracker
      → Goes m m.epoch_record.tasks (undetermined_slot c now item m)
  unfolding undetermined_slot reject_slot
  undetermined_slot-Goes now item j m slot listed s =
      let epoch = wrap_i32 m.current_epoch in
      let (b, pm, runs, kept) = verify_node_ca-Answers c m.pki_manager j.nid epoch item.ca listed in
      let m' = record m { pki_manager = pm } in
      elim (Bool-cases b) [
        | inl accepted ↦
            let g = accept_slot-Goes now item j m' slot s in
            record {
              after = g.after;
              reports = g.reports;
              runs = ground (arith, g.runs);
              sound = g.sound;
              cert = g.cert ∙ kept;
              tasks_now = g.tasks_now;
            }
        | inr rejected ↦ record {
          after = reject_slot c item j m';
          reports = [];
          runs = ground arith;
          sound = s;
          cert = kept;
          tasks_now = refl;
        }
      ]

  finalized_slot-Goes :
      (item : SignedCommitSlotItem) (j : JustifiedSlot) (m : EpochManager c)
      → item.justified_slot ≡ some j
      → IsSound m.tracker
      → Goes m m.epoch_record.tasks (finalized_slot c item m)
  unfolding finalized_slot set_epoch set_finalize
  finalized_slot-Goes item j m slot s =
      let j' = record j { epoch = wrap_i32 m.current_epoch } in
      let stamped : SignedCommitSlotItem = record item {
        item = set_finalize (record item.item { justified_slot = some j' });
      } in
      let (t, b, commits, s') = tracker_commit_returns stamped m.tracker (j', refl) s in
      let (r, slot', counts, same) = finalize_returns stamped j' m.epoch_record refl in
      elim (Bool-cases b) [
        | inl done ↦ record {
          after = record m { tracker = t; epoch_record = r };
          reports =
              task_process (record {
                commit_slot_item = slot'.item;
                signatures = slot'.signature ∷ slot'.ca ∷ [];
              })
              ∷ [];
          runs = ground arith;
          sound = s';
          cert = refl;
          tasks_now = same;
        }
        | inr refused ↦ record {
          after = record m { tracker = t };
          reports = [];
          runs = ground arith;
          sound = s';
          cert = refl;
          tasks_now = refl;
        }
      ]

  process_slot-Goes :
      (state : CommitState) (now : ℕ) (item : SignedCommitSlotItem) (m : EpochManager c)
      → item.state ≡ state
      → NeedsOf state m.pki_manager.node_cert item
      → IsSound m.tracker
      → Goes m m.epoch_record.tasks (process_slot c now item m)
  unfolding process_slot abort won_vote
  process_slot-Goes undetermined now item m st (j, slot, listed) s =
      let e : process_slot c now item m ≡ undetermined_slot c now item m = rw st in
      Goes-by m m.epoch_record.tasks e (undetermined_slot-Goes now item j m slot listed s)
  process_slot-Goes justified now item m st _ s =
      let e : process_slot c now item m
          ≡ with_tracker c (set_flag Track.won_vote item.hash m.tracker) m =
        rw st in
      Goes-by m m.epoch_record.tasks e (
        with_tracker-Goes m (set_flag Track.won_vote item.hash m.tracker)
          (set_flag-Returns Track.won_vote (λ p. refl) item.hash m.tracker s))
  process_slot-Goes finalized now item m st (j, slot) s =
      let e : process_slot c now item m ≡ finalized_slot c item m = rw st in
      Goes-by m m.epoch_record.tasks e (finalized_slot-Goes item j m slot s)
  process_slot-Goes invalid now item m st _ s = record {
    after = record m { epoch_record = (abort item item.invalid_type m.epoch_record).0 };
    reports = [];
    runs = rw st;
    sound = s;
    cert = refl;
    tasks_now = refl;
  }

  pub process_event-Goes :
      (e : Event) (m : EpochManager c)
      → Needs m.pki_manager.node_cert m.epoch_record.tasks e
      → IsSound m.tracker
      → Goes m (announced e m.epoch_record.tasks) (process_event c e m)
  unfolding process_event update_epoch refresh Record.update_task
  process_event-Goes epoch_event m _ s = record {
    after = (update_epoch c m).0;
    reports = (update_epoch c m).1;
    runs = refl;
    sound = s;
    cert = refl;
    tasks_now = refl;
  }
  process_event-Goes (commit_slots now item) m n s =
      process_slot-Goes item.state now item m refl n s
  process_event-Goes (epoch_init_task sign size) m new s =
      let r = m.epoch_record in
      record {
        after = record m { epoch_record = record r { tasks = insert sign size r.tasks } };
        reports = [];
        runs = ground arith;
        sound = s;
        cert = refl;
        tasks_now = refl;
      }
  process_event-Goes (un_scheduled_slot slot) m _ s = record {
    after = _;
    reports = [];
    runs = refl;
    sound = s;
    cert = refl;
    tasks_now = refl;
  }
