-- ===== src/Coordinator/Restart.antt =====
-- When a schedule is published and when its task is scheduled again.
use rappa_master.Base.Assoc.{Assoc}
use rappa_master.Base.{
  ℕ, zero, suc, ◌+◌, ◌<◌, ◌≤◌, ◌^◌, ◌≡◌, refl, ap, ◌∙◌, inl, inr, String, ℤ, pos, negsuc, pos_part,
  ◌≤ℤ◌, add_i32, add_i32-pos, sub_i32, sub_i32_exact, ◌-ℤ◌, IsI32, int_beq, ltb_ℤ, Bool, true,
  false, not, Bool-cases, Option, none, some, List, [], ◌∷◌, ◌++◌, length, length-map, get_elem?,
  get_elem?-lt, All-get_elem?, ltb, All, arith, if◌then◌else◌,
}
use rappa_master.Paradigm.Slot.{Slot, SynthTaskSchedule}
use rappa_master.Paradigm.Track.{UnprocessedTask}
use rappa_master.Coordinator.{
  Answer, Arrivals, accepts, position_of, Outcome, restarted, scheduled, positions, add_sizes,
  unreachable, conclude, send_schedule,
}
use rappa_master.Coordinator.Answers.{IsApart, InRange, sizes, settled, settle_lem}

abbrev pub part : List ℤ → ℕ → ℕ
part zs p = elim (get_elem? zs p) [ none ↦ 0 | some z ↦ pos_part z ]

-- The sum of the sizes at these positions.
abbrev pub total_at : List ℤ → List ℕ → ℕ
total_at zs [] = 0
total_at zs (p ∷ ps) = part zs p + total_at zs ps

abbrev pub IsPositive : List ℤ → Type 0
IsPositive zs = All (λ z. pos 1 ≤ℤ z) zs

get_elem?-sizes :
    (slots : List Slot) (p : ℕ)
    → get_elem? (sizes slots) p
      ≡ elim (get_elem? slots p) [ none ↦ none | some s ↦ some s.schedule_size ]
get_elem?-sizes [] p = refl
get_elem?-sizes (s ∷ slots) zero = refl
get_elem?-sizes (s ∷ slots) (suc p) = get_elem?-sizes slots p

add_i32_positive :
    (t : ℕ) (z : ℤ)
    → pos 1 ≤ℤ z
    → t + pos_part z < 2 ^ 31
    → add_i32 (pos t) z ≡ pos (t + pos_part z)
add_i32_positive t (pos n) h fits = add_i32-pos t n fits
add_i32_positive t (negsuc n) h fits = absurd (omega (arith, h))

-- One size more.
add_size_step :
    (slots : List Slot) (p : ℕ) (ps : List ℕ) (t : ℕ) (o : Option Slot)
    → get_elem? slots p ≡ o
    → IsPositive (sizes slots)
    → t + total_at (sizes slots) (p ∷ ps) < 2 ^ 31
    → add_sizes slots (p ∷ ps) (pos t) ≡ add_sizes slots ps (pos (t + part (sizes slots) p))
unfolding add_sizes
add_size_step slots p ps t none found h fits =
    let none_at : get_elem? (sizes slots) p ≡ none =
      get_elem?-sizes slots p
      ∙ ap (λ o. elim o [ none ↦ none | some s ↦ some s.schedule_size ]) found in
    let nothing : part (sizes slots) p ≡ 0 =
      ap (λ o. elim o [ none ↦ 0 | some z ↦ pos_part z ]) none_at in
    rw (add_sizes, found) (ap (λ k. add_sizes slots ps (pos k)) (omega (arith, nothing)))
add_size_step slots p ps t (some s) found h fits =
    let at : get_elem? (sizes slots) p ≡ some s.schedule_size =
      get_elem?-sizes slots p
      ∙ ap (λ o. elim o [ none ↦ none | some s ↦ some s.schedule_size ]) found in
    let positive : pos 1 ≤ℤ s.schedule_size =
      All-get_elem? (λ z. pos 1 ≤ℤ z) (sizes slots) p h at in
    let here : part (sizes slots) p ≡ pos_part s.schedule_size =
      ap (λ o. elim o [ none ↦ 0 | some z ↦ pos_part z ]) at in
    rw (add_sizes, found, here)
      (ap (add_sizes slots ps)
        (add_i32_positive t s.schedule_size positive (omega (arith, fits, here))))

add_sizes-total_at :
    (slots : List Slot) (ps : List ℕ) (t : ℕ)
    → IsPositive (sizes slots)
    → t + total_at (sizes slots) ps < 2 ^ 31
    → add_sizes slots ps (pos t) ≡ pos (t + total_at (sizes slots) ps)
unfolding add_sizes
add_sizes-total_at slots [] t h fits = ap pos (omega arith)
add_sizes-total_at slots (p ∷ ps) t h fits =
    add_size_step slots p ps t (get_elem? slots p) refl h fits
    ∙ add_sizes-total_at slots ps (t + part (sizes slots) p) h (omega (arith, fits))
    ∙ ap pos (omega arith)

total_at_positive :
    (zs : List ℤ) (p : ℕ) (ps : List ℕ) → IsPositive zs → p < length zs → 1 ≤ total_at zs (p ∷ ps)
total_at_positive zs p ps h bound =
    let (z, at) = get_elem?-lt zs p bound in
    let positive : pos 1 ≤ℤ z = All-get_elem? (λ z. pos 1 ≤ℤ z) zs p h at in
    let here : part zs p ≡ pos_part z = ap (λ o. elim o [ none ↦ 0 | some z ↦ pos_part z ]) at in
    omega (arith, positive, here)

-- The positions that are named are those of nodes in the list.
positions_bound :
    (test : ℤ → Answer → Bool) (m : Assoc ℤ ℕ) (arrivals : Arrivals) (slots : List Slot)
    → InRange m arrivals slots
    → All (λ p. p < length slots) (positions test m arrivals)
unfolding positions
positions_bound test m [] slots h = tt
positions_bound test m ((n, a) ∷ rest) slots (h, hs) = elim (Bool-cases (test n a)) [
  | inl yes_ ↦ rw yes_ (h, positions_bound test m rest slots hs)
  | inr no_ ↦ rw no_ (positions_bound test m rest slots hs)
]

-- The task, to be scheduled again.
abbrev pub task_of : SynthTaskSchedule → UnprocessedTask
task_of schedule = record {
  task_id = schedule.task_id;
  size = schedule.size;
  slot_size = schedule.slot_size;
  model = schedule.model;
  params = schedule.params;
}

-- What is left of a size, and whether all of it is.
abbrev remaining : ℤ → ℤ → ℤ
remaining size accepted =
    let rest = sub_i32 size accepted in if ltb_ℤ rest (pos 0) then pos 0 else rest

remaining_all :
    (size : ℕ) → size < 2 ^ 31 → int_beq (remaining (pos size) (pos 0)) (pos size) ≡ true
unfolding ◌-ℤ◌
remaining_all size small =
    let inside : IsI32 (pos size -ℤ pos 0) = ground arith in
    rw (sub_i32_exact (pos size) (pos 0) inside) (ground arith)

remaining_less :
    (size accepted : ℕ)
    → 1 ≤ size
    → size < 2 ^ 31
    → 1 ≤ accepted
    → accepted < 2 ^ 31
    → int_beq (remaining (pos size) (pos accepted)) (pos size) ≡ false
unfolding ◌-ℤ◌
remaining_less size accepted some_ small one fits =
    let inside : IsI32 (pos size -ℤ pos accepted) = ground arith in
    rw (sub_i32_exact (pos size) (pos accepted) inside) (ground arith)

conclude-none :
    (schedule : SynthTaskSchedule) (size : ℕ) (un_scheduled : List ℕ)
    → schedule.size ≡ pos size
    → size < 2 ^ 31
    → conclude schedule (pos 0) un_scheduled ≡ restarted (task_of schedule) un_scheduled
unfolding conclude
conclude-none schedule size un_scheduled is small =
    let all : int_beq (remaining schedule.size (pos 0)) schedule.size ≡ true =
      rw is (remaining_all size small) in
    rw all refl

conclude-some :
    (schedule : SynthTaskSchedule) (size accepted : ℕ) (un_scheduled : List ℕ)
    → schedule.size ≡ pos size
    → 1 ≤ size
    → size < 2 ^ 31
    → 1 ≤ accepted
    → accepted < 2 ^ 31
    → conclude schedule (pos accepted) un_scheduled ≡ scheduled schedule un_scheduled
unfolding conclude
conclude-some schedule size accepted un_scheduled is some_ small one fits =
    let less : int_beq (remaining schedule.size (pos accepted)) schedule.size ≡ false =
      rw is (remaining_less size accepted some_ small one fits) in
    rw less refl

-- The slots sent as not scheduled: those of the nodes that cannot be reached, and then, of all nodes
-- that did not accept.
abbrev pub not_scheduled : SynthTaskSchedule → Arrivals → List ℕ
not_scheduled schedule arrivals =
    let m = schedule.node_id_map in
    positions unreachable m arrivals
    ++ positions (λ n a. not (accepts schedule.task_id n a)) m arrivals

abbrev pub won : SynthTaskSchedule → Arrivals → List ℕ
won schedule arrivals = positions (accepts schedule.task_id) schedule.node_id_map arrivals

-- The two ends of a schedule, by the slots that were accepted.
abbrev pub ending : (accepted : List ℕ) → SynthTaskSchedule → List ℕ → Outcome
ending [] schedule un_scheduled = restarted (task_of schedule) un_scheduled
ending (_ ∷ _) schedule un_scheduled = scheduled schedule un_scheduled

conclude-ending :
    (ps : List ℕ) (schedule : SynthTaskSchedule) (size : ℕ) (un_scheduled : List ℕ)
    → schedule.size ≡ pos size
    → 1 ≤ size
    → size < 2 ^ 31
    → IsPositive (sizes schedule.slots)
    → All (λ p. p < length (sizes schedule.slots)) ps
    → total_at (sizes schedule.slots) ps < 2 ^ 31
    → conclude schedule (add_sizes schedule.slots ps (pos 0)) un_scheduled
      ≡ ending ps schedule un_scheduled
unfolding add_sizes
conclude-ending [] schedule size un_scheduled is some_ small h bound fits =
    conclude-none schedule size un_scheduled is small
conclude-ending (p ∷ ps) schedule size un_scheduled is some_ small h (bound, _) fits =
    ap (λ z. conclude schedule z un_scheduled)
      (add_sizes-total_at schedule.slots (p ∷ ps) 0 h (omega (arith, fits)) ∙ ap pos (omega arith))
    ∙ conclude-some schedule size (total_at (sizes schedule.slots) (p ∷ ps)) un_scheduled is some_
        small (total_at_positive (sizes schedule.slots) p ps h bound) fits

ltb_self : (n : ℕ) → ltb n n ≡ false
ltb_self n = ground arith

-- The conditions: the parameters of the task can be packed, its size is an int32 and at least 1; the
-- call of each node that the master knows has ended, each for a slot of its own; the sizes of the
-- slots are positive, and those of the nodes that accept add up below 2^31. Then the master gets
-- through: the slot of each node belongs to it and failed exactly if the node does not accept it; the
-- schedule is published with its slots, or, if no node accepts, the task is scheduled again; and the
-- slots that are sent as not scheduled are those of unreachable nodes, and then those of all nodes
-- that do not accept.
pub send_schedule-settles :
    (error_text : ℤ → Answer → String) (schedule : SynthTaskSchedule) (arrivals : Arrivals)
    (size k : ℕ) (n : ℤ) (a : Answer) (s : Slot)
    → schedule.size ≡ pos size
    → 1 ≤ size
    → size < 2 ^ 31
    → InRange schedule.node_id_map arrivals schedule.slots
    → IsApart schedule.node_id_map arrivals
    → IsPositive (sizes schedule.slots)
    → total_at (sizes schedule.slots) (won schedule arrivals) < 2 ^ 31
    → get_elem? arrivals k ≡ some (n, a)
    → get_elem? schedule.slots (position_of schedule.node_id_map n) ≡ some s
    → (slots : List Slot) × (get_elem? slots (position_of schedule.node_id_map n)
        ≡ some (settled error_text schedule.task_id n a s))
      × (send_schedule error_text (length arrivals) true arrivals schedule
          ≡ ending
              (won schedule arrivals)
              (record schedule { slots = slots })
              (not_scheduled schedule arrivals))
unfolding send_schedule
send_schedule-settles error_text schedule arrivals size k n a s is some_ small h apart positive fits
      at known =
    let m = schedule.node_id_map in
    let ps = won schedule arrivals in
    let (slots, made, same, changes) =
      settle_lem error_text schedule.task_id m arrivals schedule.slots h apart in
    let bound : All (λ p. p < length (sizes slots)) ps =
      rw (same, length-map (λ s. s.schedule_size) schedule.slots)
        (positions_bound (accepts schedule.task_id) m arrivals schedule.slots h) in
    (
      slots,
      changes k n a s at known,
      rw (ltb_self (length arrivals), made)
          (conclude-ending ps (record schedule { slots = slots }) size
            (not_scheduled schedule arrivals) is some_ small (rw same positive) bound
            (rw same fits)),
    )
