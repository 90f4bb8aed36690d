-- ===== src/Monitor/Standing.antt =====
-- The slots and the data that the monitor shows for a node.
use rappa_master.Base.Assoc.{Assoc, lookup, lookup-insert, lookup-delete, contains, insert, delete}
use rappa_master.Base.{
  ℕ, zero, suc, ◌+◌, ◌<◌, ◌^◌, ◌≡◌, refl, ap, ◌∙◌, sym, subst, inl, inr, string_eq, ◌==◌, ℤ, pos,
  negsuc, length, pos_part, ◌≤ℤ◌, add_i32, add_i32-pos, Bool, true, false, Bool-cases, Option, none,
  some, List, [], ◌∷◌, ◌++◌, append_assoc, append-nil, get_elem?, All, arith, if◌then◌else◌,
}
use rappa_master.Paradigm.Model.{SlotHash, SupportModelType, model_eq, model_beq_iff}
use rappa_master.Monitor.Status.{
  NodeStatus, update_usage, update_pending_slot, update_finish_slot, Info, process_infos, add_data,
  new_statuses, new_node_status,
}
use rappa_master.Monitor.Log.{
  Step, report, begin, finish, apply, apply_all, entries_of, steps_of, IsWhole, InRange,
  apply_entries_lem, process_infos-apply_entries,
}

-- The slots that the changes finish, in order.
abbrev pub finished_of : List Step → List SlotHash
finished_of [] = []
finished_of (report r ∷ steps) = finished_of steps
finished_of (begin h ∷ steps) = finished_of steps
finished_of (finish h process model ∷ steps) = h ∷ finished_of steps

-- Whether the last change that names the slot began it; `before`, if none names it.
abbrev pub waits : SlotHash → List Step → (before : Bool) → Bool
waits h [] before = before
waits h (report r ∷ steps) before = waits h steps before
waits h (begin g ∷ steps) before = waits h steps (if g == h then true else before)
waits h (finish g process model ∷ steps) before = waits h steps (if g == h then false else before)

-- How much data of a model the changes report.
abbrev pub data_of : SupportModelType → List Step → ℕ
data_of m [] = 0
data_of m (report r ∷ steps) = data_of m steps
data_of m (begin h ∷ steps) = data_of m steps
data_of m (finish h process model ∷ steps) =
    (if model == m then pos_part process else 0) + data_of m steps

-- Amounts that are not negative.
abbrev pub IsCounted : Step → Type 0
IsCounted (report r) = Unit
IsCounted (begin h) = Unit
IsCounted (finish h process model) = pos 0 ≤ℤ process

-- A read of a map gives 0 for a missing key.
abbrev pub amount : SupportModelType → Assoc SupportModelType ℤ → ℤ
amount m d = elim (lookup m d) [ none ↦ pos 0 | some z ↦ z ]

report-slots :
    (r : _) (s : NodeStatus)
    → ((apply (report r) s).finished_slots ≡ s.finished_slots)
      × ((apply (report r) s).pending_slots ≡ s.pending_slots)
      × ((apply (report r) s).synth_data ≡ s.synth_data)
unfolding update_usage
report-slots r s = elim (Bool-cases r.is_error) [
  | inl bad ↦ rw bad (refl, refl, refl)
  | inr good ↦ rw good (refl, refl, refl)
]

apply_all-finished :
    (steps : List Step) (s : NodeStatus)
    → (apply_all steps s).finished_slots ≡ s.finished_slots ++ finished_of steps
unfolding update_pending_slot update_finish_slot
apply_all-finished [] s = sym (append-nil s.finished_slots)
apply_all-finished (report r ∷ steps) s =
    apply_all-finished steps (apply (report r) s)
    ∙ ap (λ xs. xs ++ finished_of steps) (report-slots r s).0
apply_all-finished (begin h ∷ steps) s = apply_all-finished steps (apply (begin h) s)
apply_all-finished (finish h process model ∷ steps) s =
    apply_all-finished steps (apply (finish h process model) s)
    ∙ append_assoc s.finished_slots (h ∷ []) (finished_of steps)

contains-insert :
    (g h : SlotHash) (v : Bool) (m : Assoc SlotHash Bool)
    → contains h (insert g v m) ≡ (if g == h then true else contains h m)
contains-insert g h v m = ground (arith, lookup-insert g h v m)

contains-delete :
    (g h : SlotHash) (m : Assoc SlotHash Bool)
    → contains h (delete g m) ≡ (if g == h then false else contains h m)
contains-delete g h m = ground (arith, lookup-delete g h m)

apply_all-pending :
    (h : SlotHash) (steps : List Step) (s : NodeStatus)
    → contains h (apply_all steps s).pending_slots ≡ waits h steps (contains h s.pending_slots)
unfolding update_pending_slot update_finish_slot
apply_all-pending h [] s = refl
apply_all-pending h (report r ∷ steps) s =
    apply_all-pending h steps (apply (report r) s)
    ∙ ap (λ m. waits h steps (contains h m)) (report-slots r s).1
apply_all-pending h (begin g ∷ steps) s =
    apply_all-pending h steps (apply (begin g) s)
    ∙ ap (waits h steps) (contains-insert g h true s.pending_slots)
apply_all-pending h (finish g process model ∷ steps) s =
    apply_all-pending h steps (apply (finish g process model) s)
    ∙ ap (waits h steps) (contains-delete g h s.pending_slots)

-- The new amount of a model whose old one, if any, is `old`.
abbrev added : Option ℤ → ℤ → ℤ
added none process = process
added (some value) process = add_i32 value process

added-pos :
    (old : Option ℤ) (a p : ℕ)
    → elim old [ none ↦ pos 0 | some z ↦ z ] ≡ pos a
    → a + p < 2 ^ 31
    → added old (pos p) ≡ pos (a + p)
added-pos none a p now fits = ground arith
added-pos (some value) a p now fits = ap (λ z. add_i32 z (pos p)) now ∙ add_i32-pos a p fits

lookup-add_data :
    (model m : SupportModelType) (process : ℤ) (d : Assoc SupportModelType ℤ)
    → lookup m (add_data model process d)
      ≡ (if model == m then some (added (lookup model d) process) else lookup m d)
lookup-add_data model m process d =
    elim (lookup model d)
      as (λ old.
        lookup m (elim old [
          | none ↦ insert model process d
          | some value ↦ insert model (add_i32 value process) d
        ])
        ≡ (if model == m then some (added old process) else lookup m d)) [
          | none ↦ lookup-insert model m process d
          | some value ↦ lookup-insert model m (add_i32 value process) d
        ]

add_data_amount :
    (model m : SupportModelType) (p : ℕ) (d : Assoc SupportModelType ℤ) (a : ℕ)
    → amount m d ≡ pos a
    → a + (if model == m then p else 0) < 2 ^ 31
    → amount m (add_data model (pos p) d) ≡ pos (a + (if model == m then p else 0))
add_data_amount model m p d a now fits = elim (Bool-cases (model == m)) [
  | inl same ↦
      let eq : model ≡ m = (model_beq_iff model m).0 same in
      let now' : amount model d ≡ pos a = ap (λ k. amount k d) eq ∙ now in
      let fits' : a + p < 2 ^ 31 = subst (λ b. a + (if b then p else 0) < 2 ^ 31) same fits in
      ap (λ o. elim o [ none ↦ pos 0 | some z ↦ z ]) (lookup-add_data model m (pos p) d)
      ∙ rw same (added-pos (lookup model d) a p now' fits')
  | inr other ↦
      ap (λ o. elim o [ none ↦ pos 0 | some z ↦ z ]) (lookup-add_data model m (pos p) d)
      ∙ rw other (now ∙ ap pos (omega arith))
]

apply_all-data :
    (m : SupportModelType) (steps : List Step) (s : NodeStatus) (a : ℕ)
    → amount m s.synth_data ≡ pos a
    → All IsCounted steps
    → a + data_of m steps < 2 ^ 31
    → amount m (apply_all steps s).synth_data ≡ pos (a + data_of m steps)
unfolding update_pending_slot update_finish_slot
apply_all-data m [] s a now c fits = now ∙ ap pos (omega arith)
apply_all-data m (report r ∷ steps) s a now (c, cs) fits =
    apply_all-data m steps (apply (report r) s) a (ap (amount m) (report-slots r s).2 ∙ now) cs fits
apply_all-data m (begin h ∷ steps) s a now (c, cs) fits =
    apply_all-data m steps (apply (begin h) s) a now cs fits
apply_all-data m (finish h (negsuc p) model ∷ steps) s a now (c, cs) fits =
    absurd (omega (arith, c))
apply_all-data m (finish h (pos p) model ∷ steps) s a now (c, cs) fits =
    let part = if model == m then p else 0 in
    let part_fits : a + part < 2 ^ 31 = omega (arith, fits) in
    let all_fits : (a + part) + data_of m steps < 2 ^ 31 = omega (arith, fits) in
    apply_all-data m steps (apply (finish h (pos p) model) s) (a + part)
      (add_data_amount model m p s.synth_data a now part_fits) cs all_fits
    ∙ ap pos (omega arith)

get_elem?-new_statuses :
    (first count i : ℕ)
    → i < count
    → get_elem? (new_statuses first count) i ≡ some (new_node_status (pos (first + i)))
unfolding new_statuses
get_elem?-new_statuses first zero i h = absurd (omega (arith, h))
get_elem?-new_statuses first (suc count) zero h =
    ap (λ k. some (new_node_status (pos k))) (omega arith)
get_elem?-new_statuses first (suc count) (suc i) h =
    get_elem?-new_statuses (first + 1) count i (omega (arith, h))
    ∙ ap (λ k. some (new_node_status (pos k))) (omega arith)

length-new_statuses : (first count : ℕ) → length (new_statuses first count) ≡ count
unfolding new_statuses
length-new_statuses first zero = refl
length-new_statuses first (suc count) = ap suc (length-new_statuses (first + 1) count)

-- From the start of a monitor of `count` nodes, whole messages that name only these nodes are all
-- handled without a panic. Then a node shows as finished the slots that its messages finish, in
-- order; a slot as pending exactly if the last of its messages about the slot is a schedule; and as
-- the data of a model the sum of the amounts, where these are not negative and add up below 2^31.
pub process_infos-standing :
    (count : ℕ) (infos : List Info) (i : ℕ) (h : SlotHash) (m : SupportModelType)
    → All IsWhole infos
    → All (λ e. InRange count e.0) (entries_of infos)
    → i < count
    → All IsCounted (steps_of i (entries_of infos))
    → data_of m (steps_of i (entries_of infos)) < 2 ^ 31
    → (nodes : List NodeStatus) × (s : NodeStatus) × (process_infos infos (new_statuses 0 count)
        ≡ some nodes)
      × (get_elem? nodes i ≡ some s)
      × (s.finished_slots ≡ finished_of (steps_of i (entries_of infos)))
      × (contains h s.pending_slots ≡ waits h (steps_of i (entries_of infos)) false)
      × (amount m s.synth_data ≡ pos (data_of m (steps_of i (entries_of infos))))
unfolding lookup
process_infos-standing count infos i h m whole named bound counted fits =
    let start = new_statuses 0 count in
    let log = steps_of i (entries_of infos) in
    let s = apply_all log (new_node_status (pos i)) in
    let (nodes, made, at_node) =
      apply_entries_lem (entries_of infos) start (rw (length-new_statuses 0 count) named) in
    (
      nodes,
      s,
      process_infos-apply_entries infos start whole ∙ made,
      at_node i (new_node_status (pos i)) (
          get_elem?-new_statuses 0 count i bound
          ∙ ap (λ k. some (new_node_status (pos k))) (omega arith)),
      apply_all-finished log (new_node_status (pos i)),
      apply_all-pending h log (new_node_status (pos i)),
      apply_all-data m log (new_node_status (pos i)) 0 refl counted (omega (arith, fits))
          ∙ ap pos (omega arith),
    )
