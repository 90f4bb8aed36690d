-- ===== src/Collector/Greedy.antt =====
-- The greedy choice of ProcessCollect: as few slots as any choice that is large enough.
use rappa_master.Base.{
  ℕ, zero, suc, ◌+◌, ◌-◌, ◌≤◌, ◌≡◌, refl, inl, inr, string_eq, ℤ, pos, negsuc, pos_part, neg_part,
  IsI32, sub_i32, ◌-ℤ◌, sub_i32_exact, ltb_ℤ, ◌≤ℤ◌, ==_refl, Bool, true, false, some, List, [], ◌∷◌,
  arith, length, take, All, Bool-cases, if◌then◌else◌, ◌==◌,
}
use rappa_master.Collector.{
  CollectSlotItem, Collector, HttpCollectRequest, take_slots, process_collect,
}
use rappa_master.Collector.Search.{IsSorted}

-- The amount of data in the slots.
abbrev pub total : List CollectSlotItem → ℕ
total [] = 0
total (x ∷ xs) = pos_part x.size + total xs

-- Sizes are int32 values that are not negative.
abbrev pub IsSized : CollectSlotItem → Type 0
IsSized x = (neg_part x.size ≡ 0) × IsI32 x.size

-- A choice of some of the slots.
abbrev pub pick : List Bool → List CollectSlotItem → List CollectSlotItem
pick [] xs = []
pick (b ∷ bs) [] = []
pick (b ∷ bs) (x ∷ xs) = let rest = pick bs xs in if b then x ∷ rest else rest

pos-sub : (r n : ℕ) → (pos_part (pos r -ℤ pos n) ≡ r - n) × (neg_part (pos r -ℤ pos n) ≡ n - r)
unfolding ◌-ℤ◌
pos-sub r n = (ground arith, ground arith)

sub_sized :
    (remain size : ℤ)
    → IsI32 remain
    → IsI32 size
    → neg_part size ≡ 0
    → ltb_ℤ (pos 0) remain ≡ true
    → IsI32 (sub_i32 remain size)
      × (pos_part (sub_i32 remain size) ≡ pos_part remain - pos_part size)
sub_sized (negsuc r) size hr hs sized more = absurd (ground arith)
sub_sized (pos r) (negsuc n) hr hs sized more = absurd (omega (arith, sized))
sub_sized (pos r) (pos n) hr hs sized more =
    let (p, q) = pos-sub r n in
    let inside : IsI32 (pos r -ℤ pos n) = (omega (arith, p, hr.0), omega (arith, q, hs.0)) in
    rw (sub_i32_exact (pos r) (pos n) inside) (inside, p)

total-take :
    (x : CollectSlotItem) (xs : List CollectSlotItem) (n : ℕ)
    → IsSorted (x ∷ xs)
    → All IsSized (x ∷ xs)
    → total (take n xs) ≤ total (take n (x ∷ xs))
total-take x xs zero s h = omega arith
total-take x [] (suc n) s h = omega arith
total-take x (y ∷ ys) (suc n) s h =
    let rest = total-take y ys n s.1 h.1 in
    let le : y.size ≤ℤ x.size = s.0.0 in omega (arith, h.0.0, h.1.0.0)

-- The first slots are the largest ones.
total-pick :
    (bs : List Bool) (xs : List CollectSlotItem)
    → IsSorted xs
    → All IsSized xs
    → total (pick bs xs) ≤ total (take (length (pick bs xs)) xs)
total-pick [] xs s h = omega arith
total-pick (b ∷ bs) [] s h = omega arith
total-pick (true ∷ bs) (x ∷ xs) s h = omega (arith, total-pick bs xs s.1 h.1)
total-pick (false ∷ bs) (x ∷ xs) s h =
    omega (arith, total-pick bs xs s.1 h.1, total-take x xs (length (pick bs xs)) s h)

take_slots_enough :
    (remain : ℤ) (xs : List CollectSlotItem)
    → IsI32 remain
    → All IsSized xs
    → pos_part remain ≤ total xs
    → pos_part remain ≤ total (take_slots remain xs)
unfolding take_slots
take_slots_enough remain [] hr h enough = enough
take_slots_enough remain (x ∷ xs) hr h enough = elim (Bool-cases (ltb_ℤ (pos 0) remain)) [
  | inl more ↦
      let (hr', e) = sub_sized remain x.size hr h.0.1 h.0.0 more in
      let rest = take_slots_enough (sub_i32 remain x.size) xs hr' h.1 (omega arith) in ground arith
  | inr done ↦ ground arith
]

take_slots_few :
    (remain : ℤ) (xs : List CollectSlotItem) (n : ℕ)
    → IsI32 remain
    → All IsSized xs
    → pos_part remain ≤ total (take n xs)
    → length (take_slots remain xs) ≤ n
unfolding take_slots
take_slots_few remain [] n hr h enough = omega arith
take_slots_few remain (x ∷ xs) zero hr h enough = ground arith
take_slots_few remain (x ∷ xs) (suc n) hr h enough = elim (Bool-cases (ltb_ℤ (pos 0) remain)) [
  | inl more ↦
      let (hr', e) = sub_sized remain x.size hr h.0.1 h.0.0 more in
      let rest = take_slots_few (sub_i32 remain x.size) xs n hr' h.1 (omega arith) in ground arith
  | inr done ↦ ground arith
]

take_slots_first :
    (remain : ℤ) (xs : List CollectSlotItem)
    → take_slots remain xs ≡ take (length (take_slots remain xs)) xs
unfolding take_slots
take_slots_first remain [] = refl
take_slots_first remain (x ∷ xs) = elim (Bool-cases (ltb_ℤ (pos 0) remain)) [
  | inl more ↦ ground (arith, take_slots_first (sub_i32 remain x.size) xs)
  | inr done ↦ ground arith
]

total-pick_le : (bs : List Bool) (xs : List CollectSlotItem) → total (pick bs xs) ≤ total xs
total-pick_le [] xs = omega arith
total-pick_le (b ∷ bs) [] = omega arith
total-pick_le (true ∷ bs) (x ∷ xs) = omega (arith, total-pick_le bs xs)
total-pick_le (false ∷ bs) (x ∷ xs) = omega (arith, total-pick_le bs xs)

-- If some choice of slots holds as much data as a request of the collector's task asks for, then the
-- slots taken for the request hold as much too, they are the first ones of the list, and they are no
-- more than those of that choice. The int32 countdown does not overflow.
pub process_collect_fewest :
    (request : HttpCollectRequest) (c : Collector) (bs : List Bool)
    → request.sign ≡ c.task_id
    → IsI32 request.size
    → IsSorted c.items
    → All IsSized c.items
    → pos_part request.size ≤ total (pick bs c.items)
    → (slots : List CollectSlotItem) × (process_collect request c ≡ some slots)
      × (slots ≡ take (length slots) c.items)
      × (pos_part request.size ≤ total slots)
      × (length slots ≤ length (pick bs c.items))
unfolding process_collect
process_collect_fewest request c bs same hr s h enough =
    let xs = c.items in
    let mine : (request.sign == c.task_id) ≡ true = rw same (==_refl c.task_id) in
    (
      take_slots request.size xs,
      ground arith,
      take_slots_first request.size xs,
      take_slots_enough request.size xs hr h (omega (arith, total-pick_le bs xs)),
      take_slots_few request.size xs (length (pick bs xs)) hr h
          (omega (arith, total-pick bs xs s h)),
    )
