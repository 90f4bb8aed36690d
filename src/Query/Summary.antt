-- ===== src/Query/Summary.antt =====
-- What a list of slots comes to: how many are finished or failed, and what they made.
use rappa_master.Base.{
  ℕ, suc, ◌+◌, ℤ, pos, int_eq, Bool, true, false, ◌≡◌, refl, sym, some, none, List, [], ◌∷◌, ◌++◌,
  ◌+ℤ◌, +ℤ_assoc, +ℤ_parts, eq_of_parts, wrap_i32, add_i32, wrap_i32-+ℤ, pos-add, arith,
  if◌then◌else◌, ◌==◌, length,
}
use rappa_master.Paradigm.Slot.{Slot, finished, failed, processing}
use rappa_master.Query.Evidence.{EpochData, ScheduleInfo, process_of, add_commit, add_invalid}

abbrev pub is_finished : Slot → Bool
is_finished slot = elim slot.status [ finished ↦ true | _ ↦ false ]

abbrev pub is_failed : Slot → Bool
is_failed slot = elim slot.status [ failed ↦ true | _ ↦ false ]

abbrev pub is_processing : Slot → Bool
is_processing slot = elim slot.status [ processing ↦ true | _ ↦ false ]

-- A finished slot carries what the node made, as Slot.Commit leaves it.
abbrev pub IsPaid : Slot → Type 0
IsPaid slot = elim slot.status [ finished ↦ (made : ℤ) × (process_of slot ≡ some made) | _ ↦ Unit ]

abbrev pub count : (Slot → Bool) → List Slot → ℕ
count p [] = 0
count p (slot ∷ slots) = let rest = count p slots in if p slot then suc rest else rest

abbrev pub made_by : Slot → ℤ
made_by slot = elim slot.status [
  | finished ↦ elim (process_of slot) [ none ↦ pos 0 | some made ↦ made ]
  | _ ↦ pos 0
]

-- The exact sum over the finished slots.
abbrev pub made : List Slot → ℤ
made [] = pos 0
made (slot ∷ slots) = made_by slot +ℤ made slots

abbrev pub of_epoch : ℤ → List Slot → List Slot
of_epoch e [] = []
of_epoch e (slot ∷ slots) =
    let rest = of_epoch e slots in if slot.epoch == e then slot ∷ rest else rest

abbrev pub has_epoch : ℤ → List Slot → Bool
has_epoch e [] = false
has_epoch e (slot ∷ slots) = let rest = has_epoch e slots in if slot.epoch == e then true else rest

-- The counts and the sum, each as an int32.
abbrev pub summary : List Slot → EpochData
summary slots = record {
  commits = wrap_i32 (pos (count is_finished slots));
  invalids = wrap_i32 (pos (count is_failed slots));
  process = wrap_i32 (made slots);
}

abbrev pub info_of : List Slot → ScheduleInfo
info_of slots = record {
  process = wrap_i32 (made slots);
  commit_number = count is_finished slots;
  invalid_number = count is_failed slots;
  slots = slots;
}

pub count-append :
    (p : Slot → Bool) (front back : List Slot)
    → count p (front ++ back) ≡ count p front + count p back
count-append p [] back = omega arith
count-append p (slot ∷ front) back = ground (arith, count-append p front back)

zero_+ℤ : (a : ℤ) → pos 0 +ℤ a ≡ a
zero_+ℤ a = omega (arith, +ℤ_parts (pos 0) a, eq_of_parts (pos 0 +ℤ a) a)

pub +ℤ_zero : (a : ℤ) → a +ℤ pos 0 ≡ a
+ℤ_zero a = omega (arith, +ℤ_parts a (pos 0), eq_of_parts (a +ℤ pos 0) a)

pub made-append : (front back : List Slot) → made (front ++ back) ≡ made front +ℤ made back
made-append [] back = rw zero_+ℤ refl
made-append (slot ∷ front) back = rw (made-append front back, +ℤ_assoc) refl

pub of_epoch-append :
    (e : ℤ) (front back : List Slot)
    → of_epoch e (front ++ back) ≡ of_epoch e front ++ of_epoch e back
of_epoch-append e [] back = refl
of_epoch-append e (slot ∷ front) back = ground (arith, of_epoch-append e front back)

pub has_epoch-append :
    (e : ℤ) (front back : List Slot)
    → has_epoch e (front ++ back) ≡ (if has_epoch e front then true else has_epoch e back)
has_epoch-append e [] back = refl
has_epoch-append e (slot ∷ front) back = ground (arith, has_epoch-append e front back)

-- Each slot is finished, failed or processing.
pub count-statuses :
    (slots : List Slot)
    → count is_finished slots + count is_failed slots + count is_processing slots ≡ length slots
count-statuses [] = omega arith
count-statuses (slot ∷ slots) = ground (arith, count-statuses slots)

-- A slot more, by its status.
pub made_finished :
    (slots : List Slot) (slot : Slot) (m : ℤ)
    → slot.status ≡ finished
    → process_of slot ≡ some m
    → wrap_i32 (made (slots ++ slot ∷ [])) ≡ add_i32 (wrap_i32 (made slots)) m
unfolding add_i32
made_finished slots slot m h k =
    let e : made_by slot ≡ m = ground arith in
    rw (made-append slots (slot ∷ []), e, +ℤ_zero m) (sym (wrap_i32-+ℤ (made slots) m))

pub made_unfinished :
    (slots : List Slot) (slot : Slot)
    → is_finished slot ≡ false
    → made (slots ++ slot ∷ []) ≡ made slots
made_unfinished slots slot h =
    let e : made_by slot ≡ pos 0 = ground arith in
    rw (made-append slots (slot ∷ []), e, +ℤ_zero (pos 0), +ℤ_zero (made slots)) refl

count_more : (n : ℕ) → wrap_i32 (pos (n + 1)) ≡ add_i32 (wrap_i32 (pos n)) (pos 1)
unfolding add_i32
count_more n = rw (← pos-add n 1) (sym (wrap_i32-+ℤ (pos n) (pos 1)))

pub summary_finished :
    (slots : List Slot) (slot : Slot) (m : ℤ)
    → slot.status ≡ finished
    → process_of slot ≡ some m
    → summary (slots ++ slot ∷ []) ≡ add_commit m (summary slots)
summary_finished slots slot m h k = ground (
  arith,
  made_finished slots slot m h k,
  count-append is_finished slots (slot ∷ []),
  count-append is_failed slots (slot ∷ []),
  count_more (count is_finished slots),
)

pub summary_failed :
    (slots : List Slot) (slot : Slot)
    → slot.status ≡ failed
    → summary (slots ++ slot ∷ []) ≡ add_invalid (summary slots)
summary_failed slots slot h = ground (
  arith,
  made_unfinished slots slot,
  count-append is_finished slots (slot ∷ []),
  count-append is_failed slots (slot ∷ []),
  count_more (count is_failed slots),
)

pub summary_processing :
    (slots : List Slot) (slot : Slot)
    → slot.status ≡ processing
    → summary (slots ++ slot ∷ []) ≡ summary slots
summary_processing slots slot h = ground (
  arith,
  made_unfinished slots slot,
  count-append is_finished slots (slot ∷ []),
  count-append is_failed slots (slot ∷ []),
)

pub info_of_finished :
    (here : List Slot) (slot : Slot) (m : ℤ)
    → slot.status ≡ finished
    → process_of slot ≡ some m
    → info_of (here ++ slot ∷ []) ≡ (
        let info = info_of here in
        record info {
          commit_number = suc info.commit_number;
          process = add_i32 info.process m;
          slots = here ++ slot ∷ [];
        })
info_of_finished here slot m h k = ground (
  arith,
  made_finished here slot m h k,
  count-append is_finished here (slot ∷ []),
  count-append is_failed here (slot ∷ []),
)

pub info_of_failed :
    (here : List Slot) (slot : Slot)
    → slot.status ≡ failed
    → info_of (here ++ slot ∷ []) ≡ (
        let info = info_of here in
        record info { invalid_number = suc info.invalid_number; slots = here ++ slot ∷ [] })
info_of_failed here slot h = ground (
  arith,
  made_unfinished here slot,
  count-append is_finished here (slot ∷ []),
  count-append is_failed here (slot ∷ []),
)

pub info_of_processing :
    (here : List Slot) (slot : Slot)
    → slot.status ≡ processing
    → info_of (here ++ slot ∷ [])
      ≡ (let info = info_of here in record info { slots = here ++ slot ∷ [] })
info_of_processing here slot h = ground (
  arith,
  made_unfinished here slot,
  count-append is_finished here (slot ∷ []),
  count-append is_failed here (slot ∷ []),
)
