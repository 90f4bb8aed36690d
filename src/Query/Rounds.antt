-- ===== src/Query/Rounds.antt =====
-- What a round of the loop over the slots does to the variables of the loops.
use rappa_master.Base.{
  ℕ, suc, ◌+◌, ℤ, negsuc, int_eq, true, false, ◌≡◌, refl, sym, ◌∙◌, Option, some, List, [], ◌∷◌,
  ◌++◌, append-nil, arith, if◌then◌else◌, ◌==◌, Bool-cases, inl, inr, ◌⊎◌,
}
use rappa_master.Base.Assoc.{Assoc, insert, contains, lookup-insert}
use rappa_master.Paradigm.Slot.{Slot, SlotStatus, finished, failed, processing}
use rappa_master.Query.Evidence.{
  EpochData, no_data, Totals, add_commit, add_invalid, ScheduleInfo, data_of, list_epoch,
  process_of, count_slot,
}
use rappa_master.Query.Summary.{
  is_finished, is_failed, IsPaid, count, of_epoch, has_epoch, summary, info_of, info_of_finished,
  info_of_failed, info_of_processing, summary_finished, summary_failed, summary_processing,
  count-append, of_epoch-append, has_epoch-append,
}

abbrev pub occurs : ℤ → List ℤ → ℕ
occurs e [] = 0
occurs e (f ∷ es) = let rest = occurs e es in if f == e then suc rest else rest

-- How often the timeline lists an epoch: once if a slot has it, and never if it is -1.
abbrev pub listed : ℤ → List Slot → ℕ
listed e slots = if e == negsuc 0 then 0 else if has_epoch e slots then 1 else 0

-- The variables of the loops after the slots `seen`.
pub record Follows (seen : List Slot) (t : Totals) : Type 0 where
  pub once : (e : ℤ) → occurs e t.epochs ≡ listed e seen
  pub known : (e : ℤ) → (e == negsuc 0) ≡ false → contains e t.epoch_slot_map ≡ has_epoch e seen
  pub data_is : (e : ℤ) → data_of e t.epoch_slot_map ≡ summary (of_epoch e seen)
  pub commit_number : t.total_commit_number ≡ count is_finished seen
  pub invalid_number : t.total_invalid_number ≡ count is_failed seen

occurs-append : (e f : ℤ) (es : List ℤ) → occurs e (es ++ f ∷ []) ≡ occurs e es + occurs e (f ∷ [])
occurs-append e f [] = omega arith
occurs-append e f (g ∷ es) = ground (arith, occurs-append e f es)

data_of-insert :
    (e k : ℤ) (d : EpochData) (m : Assoc ℤ EpochData)
    → data_of e (insert k d m) ≡ (if k == e then d else data_of e m)
unfolding data_of
data_of-insert e k d m = ground (arith, lookup-insert k e d m)

contains-insert :
    (e k : ℤ) (d : EpochData) (m : Assoc ℤ EpochData)
    → contains e (insert k d m) ≡ (if k == e then true else contains e m)
contains-insert e k d m = ground (arith, lookup-insert k e d m)

list_epoch-data :
    (e epoch : ℤ) (t : Totals)
    → data_of e (list_epoch epoch t).epoch_slot_map ≡ data_of e t.epoch_slot_map
unfolding list_epoch data_of
list_epoch-data e epoch t =
    ground (arith, lookup-insert epoch e no_data t.epoch_slot_map, int_eq.same_iff epoch e)

list_epoch-known :
    (e epoch : ℤ) (t : Totals)
    → (e == negsuc 0) ≡ false
    → contains e (list_epoch epoch t).epoch_slot_map
      ≡ (if epoch == e then true else contains e t.epoch_slot_map)
unfolding list_epoch
list_epoch-known e epoch t h =
    ground (arith, lookup-insert epoch e no_data t.epoch_slot_map, int_eq.same_iff epoch e)

list_epoch-once :
    (e : ℤ) (slot : Slot) (seen : List Slot) (t : Totals)
    → Follows seen t
    → occurs e (list_epoch slot.epoch t).epochs ≡ listed e (seen ++ slot ∷ [])
unfolding list_epoch
list_epoch-once e slot seen t f = ground (
  arith,
  f.once e,
  f.known slot.epoch,
  occurs-append e slot.epoch t.epochs,
  has_epoch-append e seen (slot ∷ []),
  int_eq.same_iff slot.epoch e,
)

of_epoch-write :
    (e : ℤ) (slot : Slot) (seen : List Slot) (t : Totals) (d : EpochData)
    → Follows seen t
    → d ≡ summary (of_epoch slot.epoch seen ++ slot ∷ [])
    → data_of e (insert slot.epoch d (list_epoch slot.epoch t).epoch_slot_map)
      ≡ summary (of_epoch e (seen ++ slot ∷ []))
of_epoch-write e slot seen t d f h = elim (Bool-cases (slot.epoch == e)) [
  | inl same ↦
      let k : slot.epoch ≡ e = (int_eq.same_iff slot.epoch e).0 same in
      rw (data_of-insert, of_epoch-append, same) (rw (← k) h)
  | inr other ↦
      rw (data_of-insert, of_epoch-append, other, append-nil)
        (list_epoch-data e slot.epoch t ∙ f.data_is e)
]

of_epoch-unwritten :
    (e : ℤ) (slot : Slot) (seen : List Slot) (t : Totals)
    → Follows seen t
    → slot.status ≡ processing
    → data_of e (list_epoch slot.epoch t).epoch_slot_map ≡ summary (of_epoch e (seen ++ slot ∷ []))
of_epoch-unwritten e slot seen t f h = elim (Bool-cases (slot.epoch == e)) [
  | inl same ↦
      rw (of_epoch-append, same, summary_processing (of_epoch e seen) slot h)
        (list_epoch-data e slot.epoch t ∙ f.data_is e)
  | inr other ↦
      rw (of_epoch-append, other, append-nil) (list_epoch-data e slot.epoch t ∙ f.data_is e)
]

data-list_epoch :
    (slot : Slot) (seen : List Slot) (t : Totals)
    → Follows seen t
    → data_of slot.epoch (list_epoch slot.epoch t).epoch_slot_map
      ≡ summary (of_epoch slot.epoch seen)
data-list_epoch slot seen t f = list_epoch-data slot.epoch slot.epoch t ∙ f.data_is slot.epoch

known-write :
    (e : ℤ) (slot : Slot) (seen : List Slot) (t : Totals) (d : EpochData)
    → Follows seen t
    → (e == negsuc 0) ≡ false
    → contains e (insert slot.epoch d (list_epoch slot.epoch t).epoch_slot_map)
      ≡ has_epoch e (seen ++ slot ∷ [])
known-write e slot seen t d f h = ground (
  arith,
  contains-insert e slot.epoch d (list_epoch slot.epoch t).epoch_slot_map,
  list_epoch-known e slot.epoch t h,
  f.known e h,
  has_epoch-append e seen (slot ∷ []),
)

list_epoch-numbers :
    (epoch : ℤ) (t : Totals)
    → ((list_epoch epoch t).total_commit_number ≡ t.total_commit_number)
      × ((list_epoch epoch t).total_invalid_number ≡ t.total_invalid_number)
      × ((list_epoch epoch t).total_slot_number ≡ t.total_slot_number)
unfolding list_epoch
list_epoch-numbers epoch t = ground arith

abbrev written : Slot → Totals → EpochData → (commits invalids : ℕ) → Totals
written slot t d commits invalids =
    let before = list_epoch slot.epoch t in
    record before {
      epoch_slot_map = insert slot.epoch d before.epoch_slot_map;
      total_commit_number = commits;
      total_invalid_number = invalids;
    }

Follows-written :
    (slot : Slot) (seen : List Slot) (t : Totals) (d : EpochData) (commits invalids : ℕ)
    → Follows seen t
    → d ≡ summary (of_epoch slot.epoch seen ++ slot ∷ [])
    → commits ≡ count is_finished (seen ++ slot ∷ [])
    → invalids ≡ count is_failed (seen ++ slot ∷ [])
    → Follows (seen ++ slot ∷ []) (written slot t d commits invalids)
Follows-written slot seen t d commits invalids f e c i = record {
  once = λ e'. list_epoch-once e' slot seen t f;
  known = λ e'. known-write e' slot seen t d f;
  data_is = λ e'. of_epoch-write e' slot seen t d f e;
  commit_number = c;
  invalid_number = i;
}

SlotStatus-cases : (s : SlotStatus) → (s ≡ finished) ⊎ ((s ≡ failed) ⊎ (s ≡ processing))
SlotStatus-cases finished = inl refl
SlotStatus-cases failed = inr (inl refl)
SlotStatus-cases processing = inr (inr refl)

paid_by :
    (slot : Slot) → slot.status ≡ finished → IsPaid slot → (m : ℤ) × (process_of slot ≡ some m)
paid_by slot h paid = ground arith

-- A round of the loop, from the slots `seen` of which `here` are of the schedule.
abbrev pub Counted : Option (Totals × ScheduleInfo) → (seen here : List Slot) → (slots : ℕ) → Type 0
Counted result seen here slots =
    (t : Totals) × (result ≡ some (t, info_of here))
    × Follows seen t
    × (t.total_slot_number ≡ slots)

module _ (slot : Slot) (seen here : List Slot) (t : Totals) where
  abbrev Round : Type 0
  Round =
      Counted (count_slot slot t (info_of here)) (seen ++ slot ∷ []) (here ++ slot ∷ [])
        t.total_slot_number

  count_slot-finished :
      (m : ℤ) → Follows seen t → slot.status ≡ finished → process_of slot ≡ some m → Round
  unfolding count_slot
  count_slot-finished m f h k =
      let before = list_epoch slot.epoch t in
      let numbers = list_epoch-numbers slot.epoch t in
      let d = add_commit m (data_of slot.epoch before.epoch_slot_map) in
      let e : d ≡ summary (of_epoch slot.epoch seen ++ slot ∷ []) =
        rw (data-list_epoch slot seen t f)
          (sym (summary_finished (of_epoch slot.epoch seen) slot m h k)) in
      (
        written slot t d (suc before.total_commit_number) before.total_invalid_number,
        ground (arith, info_of_finished here slot m h k),
        Follows-written slot seen t d _ _ f e
            (ground (arith, f.commit_number, count-append is_finished seen (slot ∷ [])))
            (ground (arith, f.invalid_number, count-append is_failed seen (slot ∷ []))),
        numbers.2,
      )

  count_slot-failed : Follows seen t → slot.status ≡ failed → Round
  unfolding count_slot
  count_slot-failed f h =
      let before = list_epoch slot.epoch t in
      let numbers = list_epoch-numbers slot.epoch t in
      let d = add_invalid (data_of slot.epoch before.epoch_slot_map) in
      let e : d ≡ summary (of_epoch slot.epoch seen ++ slot ∷ []) =
        rw (data-list_epoch slot seen t f)
          (sym (summary_failed (of_epoch slot.epoch seen) slot h)) in
      (
        written slot t d before.total_commit_number (suc before.total_invalid_number),
        ground (arith, info_of_failed here slot h),
        Follows-written slot seen t d _ _ f e
            (ground (arith, f.commit_number, count-append is_finished seen (slot ∷ [])))
            (ground (arith, f.invalid_number, count-append is_failed seen (slot ∷ []))),
        numbers.2,
      )

  count_slot-processing : Follows seen t → slot.status ≡ processing → Round
  unfolding count_slot
  count_slot-processing f h =
      let numbers = list_epoch-numbers slot.epoch t in
      (
        list_epoch slot.epoch t,
        ground (arith, info_of_processing here slot h),
        record {
          once = λ e. list_epoch-once e slot seen t f;
          known = λ e k. ground (
            arith,
            list_epoch-known e slot.epoch t k,
            f.known e k,
            has_epoch-append e seen (slot ∷ []),
          );
          data_is = λ e. of_epoch-unwritten e slot seen t f h;
          commit_number =
              ground (arith, f.commit_number, count-append is_finished seen (slot ∷ []));
          invalid_number =
              ground (arith, f.invalid_number, count-append is_failed seen (slot ∷ []));
        },
        numbers.2,
      )

  pub count_slot-Counted : Follows seen t → IsPaid slot → Round
  count_slot-Counted f paid = elim (SlotStatus-cases slot.status) [
    | inl h ↦ let (m, k) = paid_by slot h paid in count_slot-finished m f h k
    | inr (inl h) ↦ count_slot-failed f h
    | inr (inr h) ↦ count_slot-processing f h
  ]
