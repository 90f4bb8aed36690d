-- ===== src/Oracle/Finish.antt =====
-- How often the oracle counts a task as finished (Oracle/persistedOracle.go).
use rappa_master.Base.{
  ℕ, ◌+◌, ◌<◌, ◌^◌, ◌≡◌, refl, sym, subst, ap, ◌∙◌, inl, inr, String, string_eq, ℤ, pos, add_i32,
  add_i32-pos, add_i64, leb, true, false, Option, none, some, List, [], ◌∷◌, arith, length,
  Bool-cases, Option-cases, if◌then◌else◌, ==_refl, ◌==◌,
}
use rappa_master.Paradigm.Commit.{CommitSlotItem, JustifiedSlot}
use rappa_master.Paradigm.Model.{TaskHash, SupportModelType}
use rappa_master.Paradigm.Slot.{Slot}
use rappa_master.Date.{
  DateRecord, update_transactions, update_finish_tasks, update_finalized, update_process,
}
use rappa_master.Task.{Task, is_finish, set_end_time, set_collected}
use rappa_master.Database.{
  Table, DateTable, row_of, get_task, update_task, set_slot_finish, increment_task_process,
  increment_task_process_and_get,
}
use rappa_master.Epoch.{TaskProcessTransaction}
use rappa_master.Oracle.{count_process, finish_task, advance_task}

-- A transaction on the progress of the task `sign`, with its slot.
pub record Progress (task : TaskHash) : Type 0 where
  pub tx : TaskProcessTransaction
  pub slot : JustifiedSlot
  pub amount : ℕ
  pub signature : String
  pub ca : String
  pub holds : tx.commit_slot_item.justified_slot ≡ some slot
  pub of_task : slot.sign ≡ task
  pub commits : slot.process ≡ pos amount

abbrev pub done_by : {task : TaskHash} → List (Progress task) → ℕ
done_by [] = 0
done_by (w ∷ ws) = w.amount + done_by ws

-- The transactions after which at least `size` is done.
abbrev pub finishes : {task : TaskHash} → (size done : ℕ) → List (Progress task) → ℕ
finishes size done [] = 0
finishes size done (w ∷ ws) =
    (if leb size (done + w.amount) then 1 else 0) + finishes size (done + w.amount) ws

module _ (tasks : Table Task) (slots : Table Slot) (dates : DateTable) where
  -- The transactions one after the other, on the record of one day.
  pub advance_all :
      (now : ℕ) {task : TaskHash}
      → List (Progress task)
      → DateRecord
      → tasks.State
      → slots.State
      → Option (tasks.State × slots.State × DateRecord)
  advance_all now [] r s u = some (s, u, r)
  advance_all now (w ∷ ws) r s u =
      elim (advance_task tasks slots dates now w.tx w.slot w.signature w.ca r s u) [
        | none ↦ none
        | some (s', u', r') ↦ advance_all now ws r' s' u'
      ]

  -- The row of a task of which `done` of `size` is done.
  pub record HasTask (task : TaskHash) (size done : ℕ) (s : tasks.State) : Type 0 where
    pub row : Task
    pub stored : tasks.take task s ≡ some row
    pub named : row.sign ≡ task
    pub sized : row.size ≡ pos size
    pub so_far : row.process ≡ pos done
    pub uncollected : row.has_been_collect ≡ false

  saved :
      (task : TaskHash) (size done : ℕ) (s : tasks.State) (t : Task)
      → t.sign ≡ task
      → t.size ≡ pos size
      → t.process ≡ pos done
      → HasTask task size done (tasks.save t.sign (row_of t) s)
  saved task size done s t n z p =
      let here : (t.sign == task) ≡ true = rw n (==_refl task) in
      record {
        row = row_of t;
        stored = tasks.take-save t.sign task (row_of t) s ∙ rw here;
        named = n;
        sized = z;
        so_far = p;
        uncollected = refl;
      }

  count_process_finish :
      (process : ℤ) (model : SupportModelType) (r : DateRecord)
      → (count_process tasks slots dates process model r).nb_finish_tasks ≡ r.nb_finish_tasks
  unfolding count_process update_transactions update_process update_finalized
  count_process_finish process model r = ground arith

  -- The row and the count after one more transaction.
  abbrev Counts : TaskHash → (size done f : ℕ) → tasks.State × DateRecord → Type 0
  Counts task size done f (s, r) =
      HasTask task size done s × (r.nb_finish_tasks ≡ pos (f + (if leb size done then 1 else 0)))

  finish_task-Counts :
      (now : ℕ) (task : TaskHash) (size done f : ℕ) (s : tasks.State) (r : DateRecord)
      (h : HasTask task size done s)
      → r.nb_finish_tasks ≡ pos f
      → f + 1 < 2 ^ 31
      → Counts task size done f (finish_task tasks slots dates now h.row s r)
  unfolding finish_task is_finish update_task set_collected set_end_time update_finish_tasks
  finish_task-Counts now task size done f s r h start small = elim (Bool-cases (leb size done)) [
    | inl over ↦
        let ended : is_finish h.row ≡ true = rw (h.sized, h.so_far) (ground arith) in
        let t = set_collected (set_end_time now h.row) in
        let e : finish_task tasks slots dates now h.row s r
            ≡ (update_task tasks t s, update_finish_tasks (pos 1) r) =
          ground (arith, h.uncollected) in
        subst (Counts task size done f) (sym e) (
          saved task size done s t h.named h.sized h.so_far,
          rw (start, over) (add_i32-pos f 1 small),
        )
    | inr under ↦
        let open_task : is_finish h.row ≡ false = rw (h.sized, h.so_far) (ground arith) in
        let e : finish_task tasks slots dates now h.row s r ≡ (s, r) = ground arith in
        subst (Counts task size done f) (sym e) (h, rw under (start ∙ ap pos (omega arith)))
  ]

  increment-HasTask :
      (task : TaskHash) (size done : ℕ) (s : tasks.State) (w : Progress task)
      → HasTask task size done s
      → done + w.amount < 2 ^ 31
      → (s' : tasks.State) × (h' : HasTask task size (done + w.amount) s')
        × (increment_task_process_and_get tasks w.slot.sign w.slot s ≡ some (h'.row, s'))
  unfolding increment_task_process_and_get increment_task_process get_task
  increment-HasTask task size done s w h small =
      let t : Task = record h.row {
        process = add_i32 h.row.process w.slot.process;
        upload_size = add_i64 h.row.upload_size w.slot.upload_size;
      } in
      let sum : t.process ≡ pos (done + w.amount) =
        rw (h.so_far, w.commits) (add_i32-pos done w.amount small) in
      let h' = saved task size (done + w.amount) s t h.named h.sized sum in
      let there : tasks.take w.slot.sign s ≡ some h.row = rw w.of_task h.stored in
      let s' = tasks.save t.sign (row_of t) s in
      let again : tasks.take w.slot.sign s' ≡ some h'.row = rw w.of_task h'.stored in
      (s', h', ground arith)

  set_slot_finish_returns :
      (item : CommitSlotItem) (j : JustifiedSlot) (sign ca : String) (u : slots.State)
      → item.justified_slot ≡ some j
      → (u' : slots.State) × (set_slot_finish slots item.hash item sign ca u ≡ some u')
  unfolding set_slot_finish
  set_slot_finish_returns item j sign ca u e =
      elim (Option-cases (set_slot_finish slots item.hash item sign ca u)) [
        | inl nil ↦ absurd (ground arith)
        | inr (u', done) ↦ (u', done)
      ]

  advance_task-Counts :
      (now : ℕ) (task : TaskHash) (size done f : ℕ) (s : tasks.State) (u : slots.State)
      (r : DateRecord) (w : Progress task)
      → HasTask task size done s
      → r.nb_finish_tasks ≡ pos f
      → done + w.amount < 2 ^ 31
      → f + 1 < 2 ^ 31
      → (s' : tasks.State) × (u' : slots.State) × (r' : DateRecord) × (advance_task tasks slots
            dates now w.tx w.slot w.signature w.ca r s u
          ≡ some (s', u', r'))
        × Counts task size (done + w.amount) f (s', r')
  unfolding advance_task
  advance_task-Counts now task size done f s u r w h start small few =
      let (u', slot_done) =
        set_slot_finish_returns w.tx.commit_slot_item w.slot w.signature w.ca u w.holds in
      let (s1, h1, grows) = increment-HasTask task size done s w h small in
      let after = finish_task tasks slots dates now h1.row s1 r in
      let (h2, count) = finish_task-Counts now task size (done + w.amount) f s1 r h1 start few in
      (
        after.0,
        u',
        count_process tasks slots dates w.slot.process h1.row.model after.1,
        ground (arith, grows),
        (h2, count_process_finish w.slot.process h1.row.model after.1 ∙ count),
      )

  -- The conditions: a task's row shows what is done of it; the amounts of the transactions are not
  -- negative, and together with what is done they stay below 2^31, as does the count of finished tasks
  -- of the day with one more for each transaction. Then transactions on the progress of the task,
  -- without a panic, count it as finished once for each of them after which at least its size is done:
  -- not once only, since the mark against a second count is not stored in the row. The row then
  -- shows what is done.
  pub advance_all-finishes :
      (now : ℕ) (task : TaskHash) (ws : List (Progress task)) (size done f : ℕ) (r : DateRecord)
      (s : tasks.State) (u : slots.State)
      → HasTask task size done s
      → r.nb_finish_tasks ≡ pos f
      → done + done_by ws < 2 ^ 31
      → f + length ws < 2 ^ 31
      → (s' : tasks.State) × (u' : slots.State) × (r' : DateRecord) × (advance_all now ws r s u
          ≡ some (s', u', r'))
        × HasTask task size (done + done_by ws) s'
        × (r'.nb_finish_tasks ≡ pos (f + finishes size done ws))
  unfolding advance_all
  advance_all-finishes now task [] size done f r s u h start small few = (
    s,
    u,
    r,
    refl,
    subst (λ n. HasTask task size n s) (omega arith) h,
    start ∙ ap pos (omega arith),
  )
  advance_all-finishes now task (w ∷ ws) size done f r s u h start small few =
      let (s1, u1, r1, step, (h1, count)) =
        advance_task-Counts now task size done f s u r w h start (omega arith) (omega arith) in
      let more : ℕ = if leb size (done + w.amount) then 1 else 0 in
      let enough : f + more + length ws < 2 ^ 31 = ground arith in
      let (s2, u2, r2, rest, h2, total) =
        advance_all-finishes now task ws size (done + w.amount) (f + more) r1 s1 u1 h1 count
          (omega arith) enough in
      (
        s2,
        u2,
        r2,
        ground (arith, step),
        subst (λ n. HasTask task size n s2) (omega arith) h2,
        total ∙ ap pos (omega arith),
      )
