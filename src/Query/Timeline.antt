-- ===== src/Query/Timeline.antt =====
-- The timeline of a task and its counts are those of the slots of its schedules.
use rappa_master.Base.{
  ℕ, ◌+◌, string_eq, Option, none, Option-cases, ℤ, int_eq, ◌≡◌, refl, ap, ◌∙◌, some, List, [], ◌∷◌,
  ◌++◌, append_assoc, append-nil, length, map, wrap_i32, arith, Bool-cases, inl, inr, All, All-map,
  All-parts, ◌<ℤ◌, ltb_ℤ, ◌≤◌, ==_refl, length-append,
}
use rappa_master.Base.Assoc.{Assoc, lookup}
use rappa_master.Paradigm.Slot.{Slot, SynthTaskSchedule}
use rappa_master.Paradigm.Model.{text, other}
use rappa_master.Task.{Task, get_dataset}
use rappa_master.Query.Evidence.{
  EpochData, Totals, ScheduleInfo, data_of, count_slots, no_info, count_schedules, no_totals, place,
  sort_epochs, timeline_of, TaskResponse, task_response, generate_response,
}
use rappa_master.Query.Summary.{
  is_finished, is_failed, is_processing, IsPaid, count, of_epoch, summary, info_of, count-statuses,
}
use rappa_master.Query.Rounds.{occurs, listed, Follows, Counted, count_slot-Counted}

-- The slots of all schedules.
abbrev pub slots_of : List SynthTaskSchedule → List Slot
slots_of [] = []
slots_of (schedule ∷ schedules) = schedule.slots ++ slots_of schedules

count_slots-Counted :
    (slots seen here : List Slot) (t : Totals)
    → Follows seen t
    → All IsPaid slots
    → Counted
        (count_slots slots t (info_of here))
        (seen ++ slots)
        (here ++ slots)
        t.total_slot_number
unfolding count_slots
count_slots-Counted [] seen here t f paid = (t, rw append-nil refl, rw append-nil f, refl)
count_slots-Counted (slot ∷ slots) seen here t f (p, paid) =
    let (t', runs, f', n) = count_slot-Counted slot seen here t f p in
    let (t'', runs', f'', n') =
      count_slots-Counted slots (seen ++ slot ∷ []) (here ++ slot ∷ []) t' f' paid in
    (
      t'',
      rw (count_slots, runs) (rw (append_assoc here (slot ∷ []) slots) at runs'),
      rw (append_assoc seen (slot ∷ []) slots) at f'',
      n' ∙ n,
    )

no_info-info_of : no_info ≡ info_of []
unfolding wrap_i32
no_info-info_of = refl

Follows-total :
    (seen : List Slot) (t : Totals) (n : ℕ)
    → Follows seen t
    → Follows seen (record t { total_slot_number = n })
Follows-total seen t n f = record {
  once = f.once;
  known = f.known;
  data_is = f.data_is;
  commit_number = f.commit_number;
  invalid_number = f.invalid_number;
}

abbrev pub infos_of : List SynthTaskSchedule → List ScheduleInfo
infos_of schedules = map (λ schedule. info_of schedule.slots) schedules

count_schedules-Follows :
    (schedules : List SynthTaskSchedule) (seen : List Slot) (infos : List ScheduleInfo) (t : Totals)
    → Follows seen t
    → t.total_slot_number ≡ length seen
    → All IsPaid (slots_of schedules)
    → (t' : Totals) × (count_schedules schedules t infos ≡ some (t', infos ++ infos_of schedules))
      × Follows (seen ++ slots_of schedules) t'
      × (t'.total_slot_number ≡ length (seen ++ slots_of schedules))
unfolding count_schedules
count_schedules-Follows [] seen infos t f n paid =
    (t, rw append-nil refl, rw append-nil f, rw append-nil n)
count_schedules-Follows (schedule ∷ schedules) seen infos t f n paid =
    let (now, later) = All-parts IsPaid schedule.slots (slots_of schedules) paid in
    let more = t.total_slot_number + length schedule.slots in
    let (t', runs, f', n') =
      count_slots-Counted schedule.slots seen [] (record t { total_slot_number = more })
        (Follows-total seen t more f) now in
    let sum : t'.total_slot_number ≡ length (seen ++ schedule.slots) =
      rw (length-append seen schedule.slots) (omega (arith, n, n')) in
    let (t'', runs', f'', n'') =
      count_schedules-Follows schedules (seen ++ schedule.slots)
        (infos ++ info_of schedule.slots ∷ []) t' f' sum later in
    (
      t'',
      rw (count_schedules, no_info-info_of, runs)
          (rw (append_assoc infos (info_of schedule.slots ∷ []) (infos_of schedules)) at runs'),
      rw (append_assoc seen schedule.slots (slots_of schedules)) at f'',
      rw (append_assoc seen schedule.slots (slots_of schedules)) at n'',
    )

abbrev pub epochs_of : List (ℤ × EpochData) → List ℤ
epochs_of [] = []
epochs_of ((e, d) ∷ rest) = e ∷ epochs_of rest

abbrev pub IsAscending : List ℤ → Type 0
IsAscending [] = Unit
IsAscending (e ∷ es) = All (λ f. e <ℤ f) es × IsAscending es

occurs-place : (e f : ℤ) (es : List ℤ) → occurs e (place f es) ≡ occurs e (f ∷ es)
unfolding place
occurs-place e f [] = refl
occurs-place e f (g ∷ es) = ground (arith, occurs-place e f es)

occurs-sort_epochs : (e : ℤ) (es : List ℤ) → occurs e (sort_epochs es) ≡ occurs e es
unfolding sort_epochs
occurs-sort_epochs e [] = refl
occurs-sort_epochs e (f ∷ es) =
    ground (arith, occurs-place e f (sort_epochs es), occurs-sort_epochs e es)

All-place : (e f : ℤ) (es : List ℤ) → e <ℤ f → All (λ g. e <ℤ g) es → All (λ g. e <ℤ g) (place f es)
unfolding place
All-place e f [] h k = (h, tt)
All-place e f (g ∷ es) h (k, ks) = elim (Bool-cases (ltb_ℤ g f)) [
  | inl less ↦ rw less (k, All-place e f es h ks)
  | inr more ↦ rw more (h, (k, ks))
]

All-lt : (e f : ℤ) (es : List ℤ) → e <ℤ f → All (λ g. f <ℤ g) es → All (λ g. e <ℤ g) es
All-lt e f es h k = All-map (λ g l. omega (arith, h, l)) es k

place-IsAscending :
    (e : ℤ) (es : List ℤ) → occurs e es ≡ 0 → IsAscending es → IsAscending (place e es)
unfolding place
place-IsAscending e [] h k = (tt, tt)
place-IsAscending e (f ∷ es) h (k, ks) = elim (Bool-cases (ltb_ℤ f e)) [
  | inl less ↦ rw less (All-place f e es (ground arith) k, place-IsAscending e es (ground arith) ks)
  | inr more ↦
      let l : e <ℤ f = ground (arith, int_eq.same_iff f e) in
      rw more ((l, All-lt e f es l k), (k, ks))
]

sort_epochs-IsAscending : (es : List ℤ) → ((e : ℤ) → occurs e es ≤ 1) → IsAscending (sort_epochs es)
unfolding sort_epochs
sort_epochs-IsAscending [] h = tt
sort_epochs-IsAscending (e ∷ es) h =
    place-IsAscending e (sort_epochs es) (rw occurs-sort_epochs (ground (arith, h e, ==_refl e)))
      (sort_epochs-IsAscending es (λ f. ground (arith, h f)))

epochs_of-timeline_of : (m : Assoc ℤ EpochData) (es : List ℤ) → epochs_of (timeline_of m es) ≡ es
unfolding timeline_of
epochs_of-timeline_of m [] = refl
epochs_of-timeline_of m (e ∷ es) = ap (λ l. e ∷ l) (epochs_of-timeline_of m es)

timeline_of-summary :
    (m : Assoc ℤ EpochData) (slots : List Slot) (es : List ℤ)
    → ((e : ℤ) → data_of e m ≡ summary (of_epoch e slots))
    → All (λ (e, d). d ≡ summary (of_epoch e slots)) (timeline_of m es)
unfolding timeline_of
timeline_of-summary m slots [] h = tt
timeline_of-summary m slots (e ∷ es) h = (h e, timeline_of-summary m slots es h)

no_totals-Follows : Follows [] no_totals
unfolding data_of lookup wrap_i32
no_totals-Follows = record {
  once = λ e. ground arith;
  known = λ e h. refl;
  data_is = λ e. refl;
  commit_number = refl;
  invalid_number = refl;
}

-- A response is given unless the dataset of the task is there and is no text.
abbrev pub with_dataset : Task → TaskResponse → Option TaskResponse
with_dataset task r = elim (lookup "dataset" task.params) [
  | none ↦ some r
  | some (text _) ↦ some r
  | some (other _) ↦ none
]

generate_response-with_dataset :
    (task : Task) (t : Totals) (infos : List ScheduleInfo)
    → count_schedules task.schedules no_totals [] ≡ some (t, infos)
    → generate_response task ≡ with_dataset task (task_response t infos)
unfolding generate_response get_dataset
generate_response-with_dataset task t infos runs =
    elim (Option-cases (lookup "dataset" task.params)) [
      | inl e ↦ rw (generate_response, get_dataset, e, with_dataset, runs) refl
      | inr (text dataset, e) ↦ rw (generate_response, get_dataset, e, with_dataset, runs) refl
      | inr (other value, e) ↦ rw (generate_response, get_dataset, e, with_dataset) refl
    ]

module _ (task : Task) (paid : All IsPaid (slots_of task.schedules)) where
  -- The timeline of a task lists, in ascending order, each epoch but -1 that one of its slots has,
  -- each exactly once. The numbers beside an epoch are those of the slots of that epoch: how many
  -- are finished, how many failed, and the sum of what the finished ones made, each as an int32. The
  -- condition is that a finished slot carries what was made in it; then there is a panic instead of
  -- a response exactly if the parameters of the task have a dataset that is no text.
  pub generate_response-IsAscending :
      (r : TaskResponse) × (generate_response task ≡ with_dataset task r)
      × IsAscending (epochs_of r.timeline)
      × ((e : ℤ) → occurs e (epochs_of r.timeline) ≡ listed e (slots_of task.schedules))
      × All (λ (e, d). d ≡ summary (of_epoch e (slots_of task.schedules))) r.timeline
  generate_response-IsAscending =
      let slots = slots_of task.schedules in
      let (t, runs, f, _) =
        count_schedules-Follows task.schedules [] [] no_totals no_totals-Follows refl paid in
      let es = sort_epochs t.epochs in
      (
        task_response t (infos_of task.schedules),
        generate_response-with_dataset task t (infos_of task.schedules) runs,
        rw epochs_of-timeline_of (sort_epochs-IsAscending t.epochs (λ e. ground (arith, f.once e))),
        λ e. rw (epochs_of-timeline_of, occurs-sort_epochs) (f.once e),
        timeline_of-summary t.epoch_slot_map slots es f.data_is,
      )

  -- The response has for each schedule its slots, how many of them are finished and how many failed,
  -- and the sum of what the finished ones made, as an int32; its distribution counts the finished,
  -- the failed and the other slots of all schedules. The condition is that a finished slot carries
  -- what was made in it; then there is a panic instead of a response exactly if the parameters of the
  -- task have a dataset that is no text.
  pub generate_response-count :
      (r : TaskResponse) × (generate_response task ≡ with_dataset task r)
      × (r.schedules ≡ infos_of task.schedules)
      × (r.schedule_distribution ≡ (
        count is_finished (slots_of task.schedules),
        count is_failed (slots_of task.schedules),
        count is_processing (slots_of task.schedules),
      ))
  generate_response-count =
      let slots = slots_of task.schedules in
      let (t, runs, f, n) =
        count_schedules-Follows task.schedules [] [] no_totals no_totals-Follows refl paid in
      (
        task_response t (infos_of task.schedules),
        generate_response-with_dataset task t (infos_of task.schedules) runs,
        refl,
        ground (arith, count-statuses slots, f.commit_number, f.invalid_number),
      )
