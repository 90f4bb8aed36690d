-- ===== src/Schedule/Index.antt =====
-- The index of a schedule: the one that the schedule carries, and the one in its slots' hashes.
use rappa_master.Base.Assoc.{lookup-nil, lookup, lookup-insert}
use rappa_master.Base.{
  ℕ, suc, zero, ◌+◌, ◌-◌, ◌<◌, ◌^◌, ◌≡◌, refl, ap, ◌∙◌, string_eq, ℤ, pos, negsuc, ◌+ℤ◌, wrap_i32,
  wrap_i32_self, Option, none, some, List, [], ◌∷◌, arith, if◌then◌else◌, ◌==◌,
}
use text.Mathlib.TextEquality.{eq_iff}
use text.Mathlib.TextPositions.{eq_refl}
use rappa_master.Paradigm.Model.{TaskHash, SlotHash}
use rappa_master.Paradigm.Track.{UnprocessedTask}
use rappa_master.Schedule.{
  Indices, index_of, start_index, advance_index, make_slots, generate_synth_schedule,
}

-- The latest index of a task that was scheduled `n` times.
abbrev latest : ℕ → Option ℤ
latest zero = none
latest (suc n) = some (pos n)

abbrev next_index : Option ℤ → ℤ
next_index none = pos 0
next_index (some i) = i +ℤ pos 1

abbrev started : Option ℤ → ℤ
started none = negsuc 0
started (some i) = i

lookup-start_index :
    (s t : TaskHash) (m : Indices)
    → lookup t (start_index s m) ≡ (if s == t then some (started (lookup s m)) else lookup t m)
unfolding start_index
lookup-start_index s t m = ground (arith, eq_iff s t, lookup-insert s t (negsuc 0) m)

lookup-advance_index :
    (s t : TaskHash) (m : Indices)
    → lookup t (advance_index s m)
      ≡ (if s == t then some (started (lookup s m) +ℤ pos 1) else lookup t m)
unfolding advance_index
lookup-advance_index s t m =
    let m' = start_index s m in
    ground (
      arith,
      eq_refl s,
      lookup-insert s t (index_of s m' +ℤ pos 1) m',
      lookup-start_index s s m,
      lookup-start_index s t m,
    )

latest-advance_index :
    (s t : TaskHash) (m : Indices) (n : ℕ)
    → lookup t m ≡ latest n
    → lookup t (advance_index s m) ≡ latest (if s == t then suc n else n)
unfolding ◌+ℤ◌
latest-advance_index s t m zero h = ground (arith, eq_iff s t, lookup-advance_index s t m)
latest-advance_index s t m (suc n) h = ground (arith, eq_iff s t, lookup-advance_index s t m)

index_of-latest :
    (t : TaskHash) (m : Indices) (n : ℕ) → lookup t m ≡ latest n → index_of t m ≡ pos (n - 1)
unfolding index_of
index_of-latest t m zero h = ground arith
index_of-latest t m (suc n) h = ground arith

index_of-advance_index :
    (t : TaskHash) (m : Indices) (n : ℕ)
    → lookup t m ≡ latest n
    → index_of t (advance_index t m) ≡ pos n
index_of-advance_index t m n h =
    index_of-latest t (advance_index t m) (suc n) (latest-advance_index t t m n h ∙ rw (eq_refl t))
    ∙ ap pos (omega arith)

pos_in_range : (n : ℕ) → n < 2 ^ 31 → wrap_i32 (pos n) ≡ pos n
pos_in_range n h = wrap_i32_self (pos n) (omega arith)

-- One pass of the scheduler: a task, and the monitor's advice for it.
pub record Request : Type 0 where
  pub task : UnprocessedTask
  pub node_ids : List ℤ
  pub sizes : List ℤ

-- The earlier passes that were for the task `t`.
abbrev pub times : TaskHash → List Request → ℕ
times t [] = 0
times t (r ∷ rs) = (if r.task.task_id == t then 1 else 0) + times t rs

module _ (slot_hash : TaskHash → ℤ → ℤ → SlotHash) where
  -- The indices after a sequence of passes, the first at the head.
  pub run : List Request → Indices → Indices
  run [] m = m
  run (r ∷ rs) m = run rs (generate_synth_schedule slot_hash r.task r.node_ids r.sizes m).1

  lookup-run :
      (t : TaskHash) (rs : List Request) (m : Indices) (n : ℕ)
      → lookup t m ≡ latest n
      → lookup t (run rs m) ≡ latest (times t rs + n)
  unfolding run generate_synth_schedule
  lookup-run t [] m n h = h ∙ ap latest (omega arith)
  lookup-run t (r ∷ rs) m n h =
      let s = r.task.task_id in
      lookup-run t rs (advance_index s m) (if s == t then suc n else n)
        (latest-advance_index s t m n h)
      ∙ ap latest (ground arith)

  -- After any passes from the start, of which n (below 2^31) were for the task, the next schedule of
  -- the task carries the index n - 1 (0 if n is 0), while its slots' hashes carry the index n. So the
  -- first two schedules of a task share the index 0, and from the second on the index of a schedule
  -- is one behind that of its slots.
  pub generate_synth_schedule-index :
      (rs : List Request) (task : UnprocessedTask) (nids sizes : List ℤ)
      → times task.task_id rs < 2 ^ 31
      → let n = times task.task_id rs in
        let s = (generate_synth_schedule slot_hash task nids sizes (run rs [])).0 in
        (s.schedule_id ≡ pos (n - 1))
        × (s.slots ≡ make_slots slot_hash task.task_id (pos n) (pos (n - 1)) nids sizes)
  unfolding generate_synth_schedule
  generate_synth_schedule-index rs task nids sizes small =
      let t = task.task_id in
      let n = times t rs in
      let h : lookup t (run rs []) ≡ latest n =
        lookup-run t rs [] 0 start ∙ ap latest (omega arith) in
      rw (index_of-latest t (run rs []) n h, index_of-advance_index t (run rs []) n h)
        (pos_in_range (n - 1) (omega arith), refl)
    where
      start : lookup task.task_id [] ≡ latest 0
      start = lookup-nil task.task_id
