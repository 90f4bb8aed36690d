-- ===== src/Epoch/Ledger.antt =====
-- The epochs and the amounts of work in what the epoch manager sends.
use rappa_master.Base.{
  ℕ, ◌≡◌, refl, sym, subst, inl, inr, String, string_eq, ℤ, pos, true, false, Option, none, some,
  List, [], ◌∷◌, ◌++◌, map, arith, Option-cases, wrap_i32, add_i32, ◌+ℤ◌,
}
use rappa_master.Paradigm.Commit.{
  CommitState, SignedCommitSlotItem, JustifiedSlot, invalid, undetermined, justified, finalized,
  set_epoch, set_finalize,
}
use rappa_master.Paradigm.Record
use rappa_master.Paradigm.Record.{EpochRecord, refresh, abort, finalize}
use rappa_master.Tracker
use rappa_master.Tracker.{Tracker, Sent, update_slot, won_vote}
use rappa_master.Pki.{Crypto, verify_node_ca}
use rappa_master.Epoch.{
  EpochManager, Event, epoch_event, commit_slots, epoch_init_task, un_scheduled_slot, Report,
  tracked, heartbeat, task_process, epoch_ended, Outcome, with_tracker, accept_slot, reject_slot,
  undetermined_slot, finalized_slot, process_slot, update_epoch, process_event,
}

-- Reports that start in epoch `e`, with `p` done in it, and end in epoch `e'` with `p'` done: each
-- slot is stamped with the epoch and adds its process, and the record of the next epoch number
-- carries the sum.
abbrev pub Balanced : (e p : ℤ) → List Report → (e' p' : ℤ) → Type 0
Balanced e p [] e' p' = (e ≡ e') × (p ≡ p')
Balanced e p (tracked _ ∷ rs) e' p' = Balanced e p rs e' p'
Balanced e p (heartbeat _ ∷ rs) e' p' = Balanced e p rs e' p'
Balanced e p (task_process x ∷ rs) e' p' =
    (j : JustifiedSlot) × (x.commit_slot_item.justified_slot ≡ some j)
    × (j.epoch ≡ wrap_i32 e)
    × Balanced e (add_i32 p j.process) rs e' p'
Balanced e p (epoch_ended x ∷ rs) e' p' =
    (x.id ≡ wrap_i32 (e +ℤ pos 1))
    × (x.epoch_record.id ≡ e +ℤ pos 1)
    × (x.epoch_record.process ≡ p)
    × Balanced (e +ℤ pos 1) (pos 0) rs e' p'

pub Balanced-append :
    (rs ss : List Report) (e p e' p' e'' p'' : ℤ)
    → Balanced e p rs e' p'
    → Balanced e' p' ss e'' p''
    → Balanced e p (rs ++ ss) e'' p''
Balanced-append [] ss e p e' p' e'' p'' (same, sum) h = rw (same, sum) h
Balanced-append (tracked _ ∷ rs) ss e p e' p' e'' p'' b h =
    Balanced-append rs ss e p e' p' e'' p'' b h
Balanced-append (heartbeat _ ∷ rs) ss e p e' p' e'' p'' b h =
    Balanced-append rs ss e p e' p' e'' p'' b h
Balanced-append (task_process x ∷ rs) ss e p e' p' e'' p'' (j, slot, stamp, b) h =
    (j, slot, stamp, Balanced-append rs ss e (add_i32 p j.process) e' p' e'' p'' b h)
Balanced-append (epoch_ended x ∷ rs) ss e p e' p' e'' p'' (i, n, s, b) h =
    (i, n, s, Balanced-append rs ss (e +ℤ pos 1) (pos 0) e' p' e'' p'' b h)

Balanced-tracked : (e p : ℤ) (sent : List Sent) → Balanced e p (map tracked sent) e p
Balanced-tracked e p [] = (refl, refl)
Balanced-tracked e p (s ∷ sent) = Balanced-tracked e p sent

commit_keeps :
    (item : SignedCommitSlotItem) (r r' : EpochRecord)
    → Record.commit item r ≡ some r'
    → (r'.id ≡ r.id) × (r'.process ≡ r.process)
unfolding Record.commit
commit_keeps item r r' e = (ground arith, ground arith)

finalize_counts :
    (item : SignedCommitSlotItem) (j : JustifiedSlot) (r r' : EpochRecord)
    (item' : SignedCommitSlotItem)
    → item.state ≡ finalized
    → item.justified_slot ≡ some j
    → finalize item r ≡ some (r', item')
    → (r'.id ≡ r.id) × (r'.process ≡ add_i32 r.process j.process) × (item' ≡ item)
unfolding finalize
finalize_counts item j r r' item' st slot e = (ground arith, ground arith, ground arith)

update_task_keeps :
    (sign : String) (size : ℤ) (r r' : EpochRecord)
    → Record.update_task sign size r ≡ some r'
    → (r'.id ≡ r.id) × (r'.process ≡ r.process)
unfolding Record.update_task
update_task_keeps sign size r r' e = (ground arith, ground arith)

module _ {c : Crypto} where
  -- The record is one epoch ahead of the manager.
  abbrev pub IsSynced : EpochManager c → Type 0
  IsSynced m = m.epoch_record.id ≡ m.current_epoch +ℤ pos 1

  abbrev pub Books : EpochManager c → Outcome c → Type 0
  Books m none = Unit
  Books m (some (m', rs)) =
      IsSynced m'
      × Balanced m.current_epoch m.epoch_record.process rs m'.current_epoch m'.epoch_record.process

  Books-by : (m : EpochManager c) {r r' : Outcome c} → r ≡ r' → Books m r' → Books m r
  Books-by m e b = subst (Books m) (sym e) b

  with_tracker-Books :
      (r : Option (Tracker × List Sent)) (m : EpochManager c)
      → IsSynced m
      → Books m (with_tracker c r m)
  unfolding with_tracker
  with_tracker-Books none m s = tt
  with_tracker-Books (some (t, sent)) m s =
      (s, Balanced-tracked m.current_epoch m.epoch_record.process sent)

  accept_slot-Books :
      (now : ℕ) (item : SignedCommitSlotItem) (m : EpochManager c)
      → IsSynced m
      → Books m (accept_slot c now item m)
  unfolding accept_slot with_tracker
  accept_slot-Books now item m s = elim (Option-cases (update_slot now item m.tracker)) [
    | inl nil ↦ let e : accept_slot c now item m ≡ none = ground arith in Books-by m e tt
    | inr ((t, sent), tracks) ↦ elim (Option-cases (Record.commit item m.epoch_record)) [
      | inl nil ↦ let e : accept_slot c now item m ≡ none = ground arith in Books-by m e tt
      | inr (r, commits) ↦
          let e : accept_slot c now item m
              ≡ some (record m { tracker = t; epoch_record = r }, map tracked sent) =
            ground arith in
          let (same, sum) = commit_keeps item m.epoch_record r commits in
          Books-by m e
            (rw same s, rw sum (Balanced-tracked m.current_epoch m.epoch_record.process sent))
    ]
  ]

  undetermined_slot-Books :
      (now : ℕ) (item : SignedCommitSlotItem) (m : EpochManager c)
      → IsSynced m
      → Books m (undetermined_slot c now item m)
  unfolding undetermined_slot reject_slot
  undetermined_slot-Books now item m s = elim (Option-cases item.justified_slot) [
    | inl nil ↦ let e : undetermined_slot c now item m ≡ none = ground arith in Books-by m e tt
    | inr (j, slot) ↦
        elim (Option-cases
          (verify_node_ca c m.pki_manager j.nid (wrap_i32 m.current_epoch) item.ca)) [
            | inl nil ↦
                let e : undetermined_slot c now item m ≡ none = ground arith in Books-by m e tt
            | inr ((true, pm), ok) ↦
                let m' = record m { pki_manager = pm } in
                let e : undetermined_slot c now item m ≡ accept_slot c now item m' = ground arith in
                Books-by m e (accept_slot-Books now item m' s)
            | inr ((false, pm), bad) ↦
                let m' = record m { pki_manager = pm } in
                let e : undetermined_slot c now item m ≡ some (reject_slot c item j m', []) =
                  ground arith in
                Books-by m e (s, (refl, refl))
          ]
  ]

  finalized_slot-Books :
      (item : SignedCommitSlotItem) (m : EpochManager c)
      → IsSynced m
      → Books m (finalized_slot c item m)
  unfolding finalized_slot set_epoch set_finalize finalize
  finalized_slot-Books item m s = elim (Option-cases item.justified_slot) [
    | inl nil ↦ let e : finalized_slot c item m ≡ none = ground arith in Books-by m e tt
    | inr (j, slot) ↦
        let j' = record j { epoch = wrap_i32 m.current_epoch } in
        let stamped : SignedCommitSlotItem = record item {
          item = set_finalize (record item.item { justified_slot = some j' });
        } in
        elim (Option-cases (Tracker.commit stamped m.tracker)) [
          | inl nil ↦ let e : finalized_slot c item m ≡ none = ground arith in Books-by m e tt
          | inr ((t, false), refused) ↦
              let e : finalized_slot c item m ≡ some (record m { tracker = t }, []) =
                ground arith in
              Books-by m e (s, (refl, refl))
          | inr ((t, true), done) ↦ elim (Option-cases (finalize stamped m.epoch_record)) [
            | inl nil ↦ let e : finalized_slot c item m ≡ none = ground arith in Books-by m e tt
            | inr ((r, slot'), counts) ↦
                let e : finalized_slot c item m
                    ≡ some (
                      record m { tracker = t; epoch_record = r },
                      task_process (record {
                        commit_slot_item = slot'.item;
                        signatures = slot'.signature ∷ slot'.ca ∷ [];
                      })
                          ∷ [],
                    ) =
                  ground arith in
                let (same, sum, kept) =
                  finalize_counts stamped j' m.epoch_record r slot' refl refl counts in
                Books-by m e (rw same s, (j', rw kept, refl, (refl, sym sum)))
          ]
        ]
  ]

  process_slot_in-Books :
      (state : CommitState) (now : ℕ) (item : SignedCommitSlotItem) (m : EpochManager c)
      → item.state ≡ state
      → IsSynced m
      → Books m (process_slot c now item m)
  unfolding process_slot abort
  process_slot_in-Books undetermined now item m st s =
      let e : process_slot c now item m ≡ undetermined_slot c now item m = rw st in
      Books-by m e (undetermined_slot-Books now item m s)
  process_slot_in-Books justified now item m st s =
      let e : process_slot c now item m ≡ with_tracker c (won_vote item.hash m.tracker) m = rw st in
      Books-by m e (with_tracker-Books (won_vote item.hash m.tracker) m s)
  process_slot_in-Books finalized now item m st s =
      let e : process_slot c now item m ≡ finalized_slot c item m = rw st in
      Books-by m e (finalized_slot-Books item m s)
  process_slot_in-Books invalid now item m st s =
      let e : process_slot c now item m
          ≡ some (record m { epoch_record = (abort item item.invalid_type m.epoch_record).0 }, []) =
        rw st in
      Books-by m e (s, (refl, refl))

  pub process_event-Books :
      (e : Event) (m : EpochManager c) → IsSynced m → Books m (process_event c e m)
  unfolding process_event update_epoch refresh
  process_event-Books epoch_event m s = (rw s, (refl, s, refl, (refl, refl)))
  process_event-Books (commit_slots now item) m s =
      process_slot_in-Books item.state now item m refl s
  process_event-Books (epoch_init_task sign size) m s =
      elim (Option-cases (Record.update_task sign size m.epoch_record)) [
        | inl nil ↦
            let e : process_event c (epoch_init_task sign size) m ≡ none = ground arith in
            Books-by m e tt
        | inr (r, added) ↦
            let e : process_event c (epoch_init_task sign size) m
                ≡ some (record m { epoch_record = r }, []) =
              ground arith in
            let (same, sum) = update_task_keeps sign size m.epoch_record r added in
            Books-by m e (rw same s, (refl, sym sum))
      ]
  process_event-Books (un_scheduled_slot slot) m s = (s, (refl, refl))
