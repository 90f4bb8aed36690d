-- ===== src/Oracle/Grouping.antt =====
-- What the oracle keeps of an epoch: the hashes by model, and the sizes of what was finalized.
use rappa_master.Base.Assoc.{Assoc, lookup, insert, upsert, lookup-upsert}
use rappa_master.Base.{
  suc, ◌+◌, ℤ, ◌+ℤ◌, add_i32, wrap_i32, wrap_i32-+ℤ, wrap_i32_self, IsI32, Option, none, some, List,
  [], ◌∷◌, ◌++◌, append_assoc, append-nil, map, length, length-append, All, ◌≡◌, refl, sym, ◌∙◌,
  if◌then◌else◌, ◌==◌, Bool-cases, Option-cases, inl, inr, arith,
}
use rappa_master.Paradigm.Model.{SlotHash, SupportModelType, model_eq}
use rappa_master.Paradigm.Slot.{Slot}
use rappa_master.Task.{Task}
use rappa_master.Database.{Table, get_task, get_slot}
use rappa_master.Oracle.EpochTx.{nb_slots, slot_and_task, group, finalize_group}

-- A hash with the rows that the tables hold for it.
pub record Row : Type 0 where
  pub hash : SlotHash
  pub slot : Slot
  pub task : Task

abbrev pub hashes : List Row → List SlotHash
hashes rows = map (λ row. row.hash) rows

-- The hashes of the slots whose task is of the model.
abbrev pub hashes_of : SupportModelType → List Row → List SlotHash
hashes_of model [] = []
hashes_of model (row ∷ rows) =
    let rest = hashes_of model rows in if row.task.model == model then row.hash ∷ rest else rest

-- What a map holds of a model after more hashes; nothing, if there are none at all.
abbrev pub joined : Option (List SlotHash) → List SlotHash → Option (List SlotHash)
joined none [] = none
joined none (hash ∷ more) = some (hash ∷ more)
joined (some known) more = some (known ++ more)

-- The exact sum of the sizes of the slots whose task is of the model, and what is known before.
abbrev pub with_size : SupportModelType → Row → Option ℤ → Option ℤ
with_size model row known =
    if row.task.model == model
    then elim known [
      | none ↦ some row.slot.schedule_size
      | some size ↦ some (size +ℤ row.slot.schedule_size)
    ]
    else known

abbrev pub size_from : SupportModelType → List Row → Option ℤ → Option ℤ
size_from model [] known = known
size_from model (row ∷ rows) known = size_from model rows (with_size model row known)

abbrev pub wrapped : Option ℤ → Option ℤ
wrapped none = none
wrapped (some size) = some (wrap_i32 size)

nb_slots_fresh :
    (model : SupportModelType) (hash : SlotHash) (m : Assoc SupportModelType (List SlotHash))
    → lookup model m ≡ none
    → nb_slots (insert model (hash ∷ []) m) ≡ suc (nb_slots m)
unfolding nb_slots lookup insert
nb_slots_fresh model hash [] h = refl
nb_slots_fresh model hash ((other, hashes) ∷ m) h = ground (arith, nb_slots_fresh model hash m)

nb_slots_more :
    (model : SupportModelType) (hash : SlotHash) (known : List SlotHash)
    (m : Assoc SupportModelType (List SlotHash))
    → lookup model m ≡ some known
    → nb_slots (insert model (known ++ hash ∷ []) m) ≡ suc (nb_slots m)
unfolding nb_slots lookup insert
nb_slots_more model hash known [] h = absurd (ground arith)
nb_slots_more model hash known ((other, hashes) ∷ m) h =
    ground (arith, nb_slots_more model hash known m, length-append known (hash ∷ []))

nb_slots-add_hash :
    (hash : SlotHash) (model : SupportModelType) (m : Assoc SupportModelType (List SlotHash))
    → nb_slots (upsert model (λ value. value ++ hash ∷ []) (hash ∷ []) m) ≡ suc (nb_slots m)
unfolding upsert
nb_slots-add_hash hash model m = elim (Option-cases (lookup model m)) [
  | inl new ↦ rw (upsert, new) (nb_slots_fresh model hash m new)
  | inr (known, old) ↦ rw (upsert, old) (nb_slots_more model hash known m old)
]

joined-nil : (known : Option (List SlotHash)) → joined known [] ≡ known
joined-nil none = refl
joined-nil (some known) = rw append-nil refl

joined-hashes_of :
    (model : SupportModelType) (row : Row) (rows : List Row) (known : Option (List SlotHash))
    → joined
        (if row.task.model == model
          then elim known [ none ↦ some (row.hash ∷ []) | some v ↦ some (v ++ row.hash ∷ []) ]
          else known)
        (hashes_of model rows)
      ≡ joined known (hashes_of model (row ∷ rows))
joined-hashes_of model row rows none = elim (Bool-cases (row.task.model == model)) [
  | inl same ↦ rw same refl
  | inr other ↦ rw other refl
]
joined-hashes_of model row rows (some known) = elim (Bool-cases (row.task.model == model)) [
  | inl same ↦ rw (same, append_assoc) refl
  | inr other ↦ rw other refl
]

module _ (tasks : Table Task) (slots : Table Slot) (t : tasks.State) (s : slots.State) where
  -- The tables hold the rows.
  abbrev pub IsRow : Row → Type 0
  IsRow row =
      (slots.take row.hash s ≡ some row.slot) × (tasks.take row.slot.task_id t ≡ some row.task)

  slot_and_task-IsRow :
      (row : Row)
      → IsRow row
      → slot_and_task tasks slots row.hash t s ≡ some (row.slot, row.task, s)
  unfolding slot_and_task get_slot get_task
  slot_and_task-IsRow row (h, k) = ground (arith, h, k)

  -- The map that a loop makes of the hashes of rows.
  abbrev pub Groups : List Row → (before after : Assoc SupportModelType (List SlotHash)) → Type 0
  Groups rows before after =
      ((model : SupportModelType)
        → lookup model after ≡ joined (lookup model before) (hashes_of model rows))
      × (nb_slots after ≡ nb_slots before + length rows)

  Groups-step :
      (row : Row) (rows : List Row) (before after : Assoc SupportModelType (List SlotHash))
      → Groups rows
          (upsert row.task.model (λ value. value ++ row.hash ∷ []) (row.hash ∷ []) before)
          after
      → Groups (row ∷ rows) before after
  Groups-step row rows before after (finds, counts) = (
    λ model.
        finds model ∙ (rw lookup-upsert (joined-hashes_of model row rows (lookup model before))),
    omega (arith, counts, nb_slots-add_hash row.hash row.task.model before),
  )

  pub group-Groups :
      (rows : List Row) (m : Assoc SupportModelType (List SlotHash))
      → All IsRow rows
      → (m' : Assoc SupportModelType (List SlotHash)) × (group tasks slots (hashes rows) t s m
          ≡ some (m', s))
        × Groups rows m m'
  unfolding group
  group-Groups [] m known = (m, refl, (λ model. sym (joined-nil (lookup model m)), omega arith))
  group-Groups (row ∷ rows) m (k, known) =
      let (m', runs, groups) =
        group-Groups rows
          (upsert row.task.model (λ value. value ++ row.hash ∷ []) (row.hash ∷ []) m) known in
      (m', rw (group, slot_and_task-IsRow row k) runs, Groups-step row rows m m' groups)

  -- The map of the sizes.
  abbrev pub Sums :
      List Row
      → (before : SupportModelType → Option ℤ) → (after : Assoc SupportModelType ℤ) → Type 0
  Sums rows before after =
      (model : SupportModelType)
      → lookup model after ≡ wrapped (size_from model rows (before model))

  with_size-wrapped :
      (row : Row) (model : SupportModelType) (known : Option ℤ) (m : Assoc SupportModelType ℤ)
      → IsI32 row.slot.schedule_size
      → lookup model m ≡ wrapped known
      → lookup model (
          upsert row.task.model
            (λ value. add_i32 value row.slot.schedule_size)
            row.slot.schedule_size
            m)
        ≡ wrapped (with_size model row known)
  unfolding add_i32
  with_size-wrapped row model none m fit h =
      rw lookup-upsert (ground (arith, wrap_i32_self row.slot.schedule_size fit))
  with_size-wrapped row model (some size) m fit h =
      rw lookup-upsert (ground (arith, wrap_i32-+ℤ size row.slot.schedule_size))

  pub finalize_group-Groups :
      (rows : List Row) (m : Assoc SupportModelType (List SlotHash))
      (process : Assoc SupportModelType ℤ) (known : SupportModelType → Option ℤ)
      → All IsRow rows
      → All (λ row. IsI32 row.slot.schedule_size) rows
      → ((model : SupportModelType) → lookup model process ≡ wrapped (known model))
      → (m' : Assoc SupportModelType (List SlotHash)) × (process' : Assoc SupportModelType ℤ)
        × (finalize_group tasks slots (hashes rows) t s m process ≡ some (m', process', s))
        × Groups rows m m'
        × Sums rows known process'
  unfolding finalize_group
  finalize_group-Groups [] m process known rows fits h =
      (m, process, refl, (λ model. sym (joined-nil (lookup model m)), omega arith), h)
  finalize_group-Groups (row ∷ rows) m process known (k, ks) (fit, fits) h =
      let (m', process', runs, groups, sums) =
        finalize_group-Groups rows
          (upsert row.task.model (λ value. value ++ row.hash ∷ []) (row.hash ∷ []) m)
          (upsert row.task.model (λ value. add_i32 value row.slot.schedule_size)
            row.slot.schedule_size process)
          (λ model. with_size model row (known model)) ks fits
          (λ model. with_size-wrapped row model (known model) process fit (h model)) in
      (
        m',
        process',
        rw (finalize_group, slot_and_task-IsRow row k) runs,
        Groups-step row rows m m' groups,
        sums,
      )
