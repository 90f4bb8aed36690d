-- ===== src/Query/EpochCounts.antt =====
-- From the record of an epoch to what a query shows of it.
use rappa_master.Base.Assoc.{Assoc, lookup, keys, lookup-nil}
use rappa_master.Base.{
  suc, ◌+◌, ℤ, IsI32, wrap_i32, Option, none, some, List, [], ◌∷◌, ◌++◌, length, length-append,
  length-map, All, ◌≡◌, refl, sym, ap, ◌∙◌, Option-cases, inl, inr, arith,
}
use rappa_master.Paradigm.Model.{TaskHash, SlotHash, SupportModelType, model_eq}
use rappa_master.Paradigm.Commit.{InvalidCommitError}
use rappa_master.Paradigm.Slot.{Slot}
use rappa_master.Paradigm.Record.{EpochRecord}
use rappa_master.Task.{Task}
use rappa_master.Database.{Table, get_task, get_slot, set_slot_error}
use rappa_master.Oracle.{DevReference}
use rappa_master.Oracle.EpochTx.{DevEpoch, nb_slots, mark_invalids, find_tasks, dev_epoch}
use rappa_master.Oracle.Grouping.{
  Row, hashes, hashes_of, joined, size_from, wrapped, IsRow, group-Groups, finalize_group-Groups,
}
use rappa_master.Query.EpochView.{epoch_response}

length-keys {ℓ κ} : {K : Type ℓ} {V : Type κ} (m : Assoc K V) → length (keys m) ≡ length m
length-keys [] = refl
length-keys ((k, v) ∷ m) = ap suc (length-keys m)

module _ (tasks : Table Task) (slots : Table Slot) where
  mark_invalids-length :
      (epoch_id : ℤ) (marks : Assoc SlotHash InvalidCommitError) (s : slots.State)
      (before : List Slot)
      → length (mark_invalids tasks slots epoch_id marks s before).0 ≡ length before + length marks
  unfolding mark_invalids
  mark_invalids-length epoch_id [] s before = omega arith
  mark_invalids-length epoch_id ((hash, e) ∷ marks) s before =
      let (slot, s') = get_slot slots hash (set_slot_error slots hash e epoch_id s) in
      omega (
        arith,
        mark_invalids-length epoch_id marks s' (before ++ slot ∷ []),
        length-append before (slot ∷ []),
      )

  -- The transaction of a task of the record is there, if the task is.
  abbrev pub HasTransaction :
      (get_transaction : Task → Option DevReference) → tasks.State → TaskHash → Type 0
  HasTransaction get_transaction t sign =
      (task : Task)
      → tasks.take sign t ≡ some task
      → (ref : DevReference) × (get_transaction task ≡ some ref)

  find_tasks-HasTransaction :
      (get_transaction : Task → Option DevReference) (t : tasks.State) (signs : List TaskHash)
      (before : List Task)
      → All (HasTransaction get_transaction t) signs
      → (found : List Task) × (find_tasks tasks slots get_transaction signs t before ≡ some found)
  unfolding find_tasks get_task
  find_tasks-HasTransaction get_transaction t [] before h = (before, refl)
  find_tasks-HasTransaction get_transaction t (sign ∷ signs) before (h, hs) =
      elim (Option-cases (tasks.take sign t)) [
        | inl missing ↦
            rw (find_tasks, get_task, missing)
              (find_tasks-HasTransaction get_transaction t signs before hs)
        | inr (task, there) ↦
            let (ref, known) = h task there in
            rw (find_tasks, get_task, there, known)
              (find_tasks-HasTransaction get_transaction t signs (before ++ task ∷ []) hs)
      ]

-- What a query shows of an epoch, whose record has the rows `commits`, `justifieds` and `finalizes`.
pub record Shows (r : EpochRecord) (finalizes : List Row) (e : DevEpoch) : Type 0 where
  pub commit : (m : Assoc SlotHash Slot) → (epoch_response e m).nb_commit ≡ length r.commits
  pub justified :
      (m : Assoc SlotHash Slot) → (epoch_response e m).nb_justified ≡ length r.justifieds
  pub finalized : (m : Assoc SlotHash Slot) → (epoch_response e m).nb_finalized ≡ length r.finalizes
  pub invalid : (m : Assoc SlotHash Slot) → (epoch_response e m).nb_invalid ≡ length r.invalids
  pub listed :
      (model : SupportModelType)
      → lookup model e.finalizes ≡ joined none (hashes_of model finalizes)
  pub made :
      (model : SupportModelType) → lookup model e.process ≡ wrapped (size_from model finalizes none)

count-hashes :
    (rows : List Row) {V : Type 0} (m : Assoc SlotHash V)
    → hashes rows ≡ keys m
    → length rows ≡ length m
count-hashes rows m h = sym (length-map (λ row. row.hash) rows) ∙ ap length h ∙ length-keys m

module _ (tasks : Table Task) (slots : Table Slot) (t : tasks.State) (s : slots.State) where
  -- The record of an epoch whose slots and tasks are in the tables is kept without a panic, and a query
  -- for the epoch then shows as many committed, justified, finalized and invalid slots as the record has.
  -- Of each model it keeps the hashes of the finalized slots whose task is of the model, in order, and
  -- the sum of the sizes that these slots were scheduled with, as an int32; nothing, if there is none.
  -- The conditions are that these sizes are int32s, and that the transaction of each task of the
  -- record is there if the task is.
  pub dev_epoch-epoch_response :
      (get_transaction : Task → Option DevReference) (tid : ℤ) (r : EpochRecord)
      (commits justifieds finalizes : List Row)
      → hashes commits ≡ keys r.commits
      → hashes justifieds ≡ keys r.justifieds
      → hashes finalizes ≡ keys r.finalizes
      → All (IsRow tasks slots t s) commits
      → All (IsRow tasks slots t s) justifieds
      → All (IsRow tasks slots t s) finalizes
      → All (λ row. IsI32 row.slot.schedule_size) finalizes
      → All (HasTransaction tasks slots get_transaction t) (keys r.tasks)
      → (e : DevEpoch) × (s' : slots.State) × (dev_epoch tasks slots get_transaction tid r t s
          ≡ some (e, s'))
        × Shows r finalizes e
  unfolding dev_epoch epoch_response nb_slots lookup
  dev_epoch-epoch_response get_transaction tid r commits justifieds finalizes hc hj hf rc rj rf fits
        txs =
      let (c, runs_c, (_, count_c)) = group-Groups tasks slots t s commits [] rc in
      let (j, runs_j, (_, count_j)) = group-Groups tasks slots t s justifieds [] rj in
      let (f, p, runs_f, (list_f, count_f), sums) =
        finalize_group-Groups tasks slots t s finalizes [] [] (λ _. none) rf fits
          (λ model. lookup-nil model) in
      let (found, runs_t) =
        find_tasks-HasTransaction tasks slots get_transaction t (keys r.tasks) [] txs in
      let marks = mark_invalids tasks slots (wrap_i32 r.id) r.invalids s [] in
      let e : DevEpoch = record {
        epoch_id = wrap_i32 r.id;
        process = p;
        commits = c;
        justifieds = j;
        finalizes = f;
        invalids = marks.0;
        init_tasks = found;
        tid = tid;
      } in
      (
        e,
        marks.1,
        rw (dev_epoch, ← hc, runs_c, ← hj, runs_j, ← hf, runs_f, runs_t) refl,
        record {
          commit = λ m. omega (arith, count_c, count-hashes commits r.commits hc);
          justified = λ m. omega (arith, count_j, count-hashes justifieds r.justifieds hj);
          finalized = λ m. omega (arith, count_f, count-hashes finalizes r.finalizes hf);
          invalid =
              λ m. omega (arith, mark_invalids-length tasks slots (wrap_i32 r.id) r.invalids s []);
          listed = list_f;
          made = sums;
        },
      )
