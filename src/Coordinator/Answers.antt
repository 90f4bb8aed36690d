-- ===== src/Coordinator/Answers.antt =====
-- What becomes of a schedule and its slots when the nodes have answered.
use rappa_master.Base.Assoc.{Assoc}
use rappa_master.Base.{
  ℕ, zero, suc, ◌<◌, ◌≡◌, refl, ap, ◌∙◌, sym, subst, inl, inr, String, ℤ, pos, Bool-cases, none,
  some, List, [], ◌∷◌, map, length, get_elem?, get_elem?-lt, get_elem?-set_self, get_elem?-set_ne,
  All-get_elem?, length-set, set, All, arith, if◌then◌else◌,
}
use rappa_master.Paradigm.Model.{TaskHash}
use rappa_master.Paradigm.Slot.{Slot, set_error}
use rappa_master.Coordinator.{
  Answer, Arrivals, accepts, position_of, for_each, with_node, unreachable, on_answer, on_success,
  on_reject, settle,
}

-- The nodes stand for slots of their own.
abbrev pub IsApart : Assoc ℤ ℕ → Arrivals → Type 0
IsApart m [] = Unit
IsApart m ((n, a) ∷ rest) = All (λ e. ¬ (position_of m n ≡ position_of m e.0)) rest × IsApart m rest

abbrev pub InRange : Assoc ℤ ℕ → Arrivals → List Slot → Type 0
InRange m arrivals slots = All (λ e. position_of m e.0 < length slots) arrivals

abbrev pub sizes : List Slot → List ℤ
sizes slots = map (λ s. s.schedule_size) slots

sizes-set :
    (slots : List Slot) (p : ℕ) (s t : Slot)
    → get_elem? slots p ≡ some s
    → t.schedule_size ≡ s.schedule_size
    → sizes (set slots p t) ≡ sizes slots
sizes-set [] p s t found same = refl
sizes-set (x ∷ slots) zero s t found same =
    let eq : x.schedule_size ≡ s.schedule_size =
      ap (λ o. elim o [ none ↦ pos 0 | some y ↦ y.schedule_size ]) found in
    ap (λ z. z ∷ sizes slots) (same ∙ sym eq)
sizes-set (x ∷ slots) (suc p) s t found same =
    ap (λ zs. x.schedule_size ∷ zs) (sizes-set slots p s t found same)

-- Slots of no node in the list stay.
abbrev Stays : Assoc ℤ ℕ → Arrivals → List Slot → List Slot → Type 0
Stays m arrivals slots slots' =
    (p : ℕ) (s : Slot)
    → All (λ e. ¬ (position_of m e.0 ≡ p)) arrivals
    → get_elem? slots p ≡ some s
    → get_elem? slots' p ≡ some s

abbrev Changes : (ℤ → Answer → Slot → Slot) → Assoc ℤ ℕ → Arrivals → List Slot → List Slot → Type 0
Changes f m arrivals slots slots' =
    (k : ℕ) (n : ℤ) (a : Answer) (s : Slot)
    → get_elem? arrivals k ≡ some (n, a)
    → get_elem? slots (position_of m n) ≡ some s
    → get_elem? slots' (position_of m n) ≡ some (f n a s)

-- What a loop over the nodes does to the slots.
abbrev Changed : (ℤ → Answer → Slot → Slot) → Assoc ℤ ℕ → Arrivals → List Slot → List Slot → Type 0
Changed f m arrivals slots slots' =
    (length slots' ≡ length slots)
    × (sizes slots' ≡ sizes slots)
    × Stays m arrivals slots slots'
    × Changes f m arrivals slots slots'

All-flip :
    (m : Assoc ℤ ℕ) (p : ℕ) (arrivals : Arrivals)
    → All (λ e. ¬ (p ≡ position_of m e.0)) arrivals
    → All (λ e. ¬ (position_of m e.0 ≡ p)) arrivals
All-flip m p [] h = tt
All-flip m p (e ∷ arrivals) (h, hs) = ((λ q. h (sym q)), All-flip m p arrivals hs)

All-found :
    (m : Assoc ℤ ℕ) (p : ℕ) (arrivals : Arrivals) (k : ℕ) (n : ℤ) (a : Answer)
    → All (λ e. ¬ (p ≡ position_of m e.0)) arrivals
    → get_elem? arrivals k ≡ some (n, a)
    → ¬ (p ≡ position_of m n)
All-found m p arrivals k n a h found =
    All-get_elem? (λ e. ¬ (p ≡ position_of m e.0)) arrivals k h found

-- The slot of the first node is changed first and stays so; those of the others come later.
change_first :
    (f : ℤ → Answer → Slot → Slot) (m : Assoc ℤ ℕ) (n : ℤ) (a : Answer) (rest : Arrivals)
    (slots slots2 : List Slot) (s : Slot)
    → get_elem? slots (position_of m n) ≡ some s
    → All (λ e. ¬ (position_of m n ≡ position_of m e.0)) rest
    → Stays m rest (set slots (position_of m n) (f n a s)) slots2
    → Changes f m rest (set slots (position_of m n) (f n a s)) slots2
    → Changes f m ((n, a) ∷ rest) slots slots2
change_first f m n a rest slots slots2 s found apart stays changes zero n' a' s' at known =
    let p = position_of m n in
    let first : ℤ × Answer = (n, a) in
    let found_at : ℤ × Answer = (n', a') in
    let e : first ≡ found_at = cc at in
    let here : get_elem? slots2 p ≡ some (f n a s) =
      stays p (f n a s) (All-flip m p rest apart) (get_elem?-set_self slots p (f n a s) found) in
    let same : some s ≡ some s' =
      sym found ∙ ap (λ q. get_elem? slots (position_of m q.0)) e ∙ known in
    let eq : s ≡ s' = cc same in
    subst (λ q. get_elem? slots2 (position_of m q.0) ≡ some (f q.0 q.1 s')) e
      (here ∙ ap (λ x. some (f n a x)) eq)
change_first f m n a rest slots slots2 s found apart stays changes (suc k) n' a' s' at known =
    changes k n' a' s' at (
      get_elem?-set_ne slots (position_of m n) (position_of m n') (f n a s)
        (All-found m (position_of m n) rest k n' a' apart at)
      ∙ known)

for_each_lem :
    (f : ℤ → Answer → Slot → Slot) (m : Assoc ℤ ℕ) (arrivals : Arrivals) (slots : List Slot)
    → ((n : ℤ) (a : Answer) (s : Slot) → (f n a s).schedule_size ≡ s.schedule_size)
    → InRange m arrivals slots
    → IsApart m arrivals
    → (slots' : List Slot) × (for_each f m arrivals slots ≡ some slots')
      × Changed f m arrivals slots slots'
unfolding for_each
for_each_lem f m [] slots keeps h apart =
    (slots, refl, (refl, refl, (λ p s _ known. known), λ k n a s found known. cc found))
for_each_lem f m ((n, a) ∷ rest) slots keeps (h, hs) (apart, aparts) =
    let p = position_of m n in
    let s = (get_elem?-lt slots p h).0 in
    let found : get_elem? slots p ≡ some s = (get_elem?-lt slots p h).1 in
    let slots1 = set slots p (f n a s) in
    let same : length slots1 ≡ length slots = length-set slots p (f n a s) in
    let (slots2, made, (same2, sizes2, stays, changes)) =
      for_each_lem f m rest slots1 keeps (rw same hs) aparts in
    (
      slots2,
      ap (λ r. elim r [ none ↦ none | some t ↦ for_each f m rest (set slots p (f n a t)) ]) found
          ∙ made,
      (
        same2 ∙ same,
        sizes2 ∙ sizes-set slots p s (f n a s) found (keeps n a s),
        (λ q t (ne, nes) known. stays q t nes (get_elem?-set_ne slots p q (f n a s) ne ∙ known)),
        change_first f m n a rest slots slots2 s found apart stays changes,
      ),
    )

module _ (error_text : ℤ → Answer → String) where
  -- What becomes of a slot: it belongs to its node, and it failed unless the node accepts it.
  abbrev pub settled : TaskHash → ℤ → Answer → Slot → Slot
  settled task n a s =
      if accepts task n a then with_node n s else set_error (error_text n a) (with_node n s)

  settled_lem :
      (task : TaskHash) (n : ℤ) (a : Answer) (s : Slot)
      → on_reject error_text task n a
          (on_success error_text task n a (on_answer error_text task n a s))
        ≡ settled task n a s
  unfolding on_reject on_success on_answer set_error
  settled_lem task n a s = elim (Bool-cases (accepts task n a)) [
    | inl took ↦ rw took refl
    | inr refused ↦ rw refused (elim (Bool-cases (unreachable n a)) [
      | inl gone ↦ rw gone refl
      | inr there ↦ rw there refl
    ])
  ]

  on_answer-size :
      (task : TaskHash) (n : ℤ) (a : Answer) (s : Slot)
      → (on_answer error_text task n a s).schedule_size ≡ s.schedule_size
  unfolding on_answer set_error
  on_answer-size task n a s = ground arith

  on_success-size :
      (task : TaskHash) (n : ℤ) (a : Answer) (s : Slot)
      → (on_success error_text task n a s).schedule_size ≡ s.schedule_size
  unfolding on_success
  on_success-size task n a s = ground arith

  on_reject-size :
      (task : TaskHash) (n : ℤ) (a : Answer) (s : Slot)
      → (on_reject error_text task n a s).schedule_size ≡ s.schedule_size
  unfolding on_reject set_error
  on_reject-size task n a s = ground arith

  pub settle_lem :
      (task : TaskHash) (m : Assoc ℤ ℕ) (arrivals : Arrivals) (slots : List Slot)
      → InRange m arrivals slots
      → IsApart m arrivals
      → (slots' : List Slot) × (settle error_text task m arrivals slots ≡ some slots')
        × (sizes slots' ≡ sizes slots)
        × Changes (settled task) m arrivals slots slots'
  unfolding settle
  settle_lem task m arrivals slots h apart =
      let f1 = on_answer error_text task in
      let f2 = on_success error_text task in
      let f3 = on_reject error_text task in
      let (slots1, made1, (same1, sizes1, _, changes1)) =
        for_each_lem f1 m arrivals slots (on_answer-size task) h apart in
      let (slots2, made2, (same2, sizes2, _, changes2)) =
        for_each_lem f2 m arrivals slots1 (on_success-size task) (rw same1 h) apart in
      let (slots3, made3, (same3, sizes3, _, changes3)) =
        for_each_lem f3 m arrivals slots2 (on_reject-size task) (rw (same2, same1) h) apart in
      (
        slots3,
        rw (settle, made1, made2) made3,
        sizes3 ∙ sizes2 ∙ sizes1,
        λ k n a s at known.
            changes3 k n a (f2 n a (f1 n a s)) at
              (changes2 k n a (f1 n a s) at (changes1 k n a s at known))
            ∙ ap some (settled_lem task n a s),
      )
