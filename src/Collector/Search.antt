-- ===== src/Collector/Search.antt =====
-- The binary search of ProcessSlotUpdate against a plain insertion.
use mathlib.Core.List.{Perm}
use mathlib.Core.List.Perm
use rappa_master.Base.{
  ℕ, zero, suc, ◌+◌, ◌-◌, ◌/◌, ◌≤◌, ◌<◌, ◌≡◌, refl, inl, inr, ℤ, leb_ℤ, ltb, ◌≤ℤ◌, true, false,
  Option, none, some, List, [], ◌∷◌, arith, length, get_elem?, get_elem?-lt, All, All-map,
  All-get_elem?, Bool-cases, if◌then◌else◌,
}
use rappa_master.Collector.{
  CollectSlotItem, Collector, binary_search, insert_after, process_slot_update,
}

-- The slots in descending order of size.
abbrev pub IsSorted : List CollectSlotItem → Type 0
IsSorted [] = Unit
IsSorted (x ∷ xs) = All (λ y. y.size ≤ℤ x.size) xs × IsSorted xs

-- The plain insertion: behind all slots that are as large or larger.
abbrev pub insert_slot : CollectSlotItem → List CollectSlotItem → List CollectSlotItem
insert_slot slot [] = slot ∷ []
insert_slot slot (x ∷ xs) =
    let rest = insert_slot slot xs in if leb_ℤ slot.size x.size then x ∷ rest else slot ∷ x ∷ xs

-- How many slots at the front are as large or larger.
abbrev rank : ℤ → List CollectSlotItem → ℕ
rank size [] = 0
rank size (x ∷ xs) = let r = rank size xs in if leb_ℤ size x.size then suc r else 0

rank-le : (size : ℤ) (xs : List CollectSlotItem) → rank size xs ≤ length xs
rank-le size [] = omega arith
rank-le size (x ∷ xs) = ground (arith, rank-le size xs)

rank_below :
    (size : ℤ) (xs : List CollectSlotItem) (i : ℕ) {x : CollectSlotItem}
    → get_elem? xs i ≡ some x
    → i < rank size xs
    → leb_ℤ size x.size ≡ true
rank_below size [] i found h = absurd (omega arith)
rank_below size (y ∷ xs) zero found h = ground arith
rank_below size (y ∷ xs) (suc i) found h = elim (Bool-cases (leb_ℤ size y.size)) [
  | inl large ↦ rank_below size xs i found (ground arith)
  | inr small ↦ absurd (ground arith)
]

rank_above :
    (size : ℤ) (xs : List CollectSlotItem) (i : ℕ) {x : CollectSlotItem}
    → IsSorted xs
    → get_elem? xs i ≡ some x
    → rank size xs ≤ i
    → leb_ℤ size x.size ≡ false
rank_above size [] i s found h = cc
rank_above size (y ∷ xs) zero s found h = ground arith
rank_above size (y ∷ xs) (suc i) {x} s found h = elim (Bool-cases (leb_ℤ size y.size)) [
  | inl large ↦ rank_above size xs i s.1 found (ground arith)
  | inr small ↦
      let le : x.size ≤ℤ y.size = All-get_elem? (λ z. z.size ≤ℤ y.size) xs i s.0 found in
      ground arith
]

large_below :
    (size : ℤ) (xs : List CollectSlotItem) (i : ℕ) {x : CollectSlotItem}
    → IsSorted xs
    → get_elem? xs i ≡ some x
    → leb_ℤ size x.size ≡ true
    → i < rank size xs
large_below size xs i {x} s found large = elim (Bool-cases (ltb i (rank size xs))) [
  | inl lt ↦ ground arith
  | inr ge ↦
      let small : leb_ℤ size x.size ≡ false = rank_above size xs i s found (ground arith) in
      absurd (ground arith)
]

small_above :
    (size : ℤ) (xs : List CollectSlotItem) (i : ℕ) {x : CollectSlotItem}
    → get_elem? xs i ≡ some x
    → leb_ℤ size x.size ≡ false
    → rank size xs ≤ i
small_above size xs i {x} found small = elim (Bool-cases (ltb i (rank size xs))) [
  | inl lt ↦
      let large : leb_ℤ size x.size ≡ true = rank_below size xs i found (ground arith) in
      absurd (ground arith)
  | inr ge ↦ ground arith
]

-- The position before one.
abbrev before : ℕ → Option ℕ
before zero = none
before (suc i) = some i

search_step :
    (fuel left bound : ℕ) (size : ℤ) (xs : List CollectSlotItem) (index : Option ℕ)
    (x : CollectSlotItem)
    → left < bound
    → get_elem? xs ((left + bound - 1) / 2) ≡ some x
    → binary_search (suc fuel) size xs left bound index ≡ (
        if leb_ℤ size x.size
        then binary_search fuel size xs
            (suc ((left + bound - 1) / 2))
            bound
            (some ((left + bound - 1) / 2))
        else binary_search fuel size xs left ((left + bound - 1) / 2) index)
unfolding binary_search
search_step fuel left bound size xs index x h found = ground arith

search_end :
    (fuel left bound : ℕ) (size : ℤ) (xs : List CollectSlotItem) (index : Option ℕ)
    → bound ≤ left
    → binary_search (suc fuel) size xs left bound index ≡ some index
unfolding binary_search
search_end fuel left bound size xs index h = ground arith

binary_search_between :
    (fuel left bound : ℕ) (size : ℤ) (xs : List CollectSlotItem)
    → IsSorted xs
    → left ≤ rank size xs
    → rank size xs ≤ bound
    → bound ≤ length xs
    → bound < left + fuel
    → binary_search fuel size xs left bound (before left) ≡ some (before (rank size xs))
binary_search_between zero left bound size xs s lo hi inside enough = absurd (omega arith)
binary_search_between (suc fuel) left bound size xs s lo hi inside enough =
    elim (Bool-cases (ltb left bound)) [
      | inr done ↦
          let e : left ≡ rank size xs = ground arith in
          rw e (search_end fuel (rank size xs) bound size xs (before (rank size xs)) (ground arith))
      | inl more ↦
          let mid = (left + bound - 1) / 2 in
          let lt : left < bound = ground arith in
          let (x, found) = get_elem?-lt xs mid (omega arith) in
          elim (Bool-cases (leb_ℤ size x.size)) [
            | inl large ↦
                let below : mid < rank size xs = large_below size xs mid s found large in
                let rest =
                  binary_search_between fuel (suc mid) bound size xs s (omega arith) hi inside
                    (omega arith) in
                ground (arith, search_step fuel left bound size xs (before left) x lt found)
            | inr small ↦
                let above : rank size xs ≤ mid = small_above size xs mid found small in
                let rest =
                  binary_search_between fuel left mid size xs s lo above (omega arith)
                    (omega arith) in
                ground (arith, search_step fuel left bound size xs (before left) x lt found)
          ]
    ]

insert_after-rank :
    (slot : CollectSlotItem) (xs : List CollectSlotItem)
    → insert_after (before (rank slot.size xs)) slot xs ≡ insert_slot slot xs
insert_after-rank slot [] = refl
insert_after-rank slot (x ∷ []) = ground arith
insert_after-rank slot (x ∷ y ∷ xs) = ground (arith, insert_after-rank slot (y ∷ xs))

length-insert_slot :
    (slot : CollectSlotItem) (xs : List CollectSlotItem)
    → length (insert_slot slot xs) ≡ length xs + 1
length-insert_slot slot [] = refl
length-insert_slot slot (x ∷ xs) = ground (arith, length-insert_slot slot xs)

insert_slot-Perm :
    (slot : CollectSlotItem) (xs : List CollectSlotItem) → Perm (insert_slot slot xs) (slot ∷ xs)
insert_slot-Perm slot [] = Perm.refl (slot ∷ [])
insert_slot-Perm slot (x ∷ xs) = elim (Bool-cases (leb_ℤ slot.size x.size)) [
  | inl large ↦ rw large (Perm.trans (Perm.cons x (insert_slot-Perm slot xs)) (Perm.swap slot x xs))
  | inr small ↦ rw small (Perm.refl (slot ∷ x ∷ xs))
]

insert_slot-All :
    (n : ℤ) (slot : CollectSlotItem) (xs : List CollectSlotItem)
    → slot.size ≤ℤ n
    → All (λ y. y.size ≤ℤ n) xs
    → All (λ y. y.size ≤ℤ n) (insert_slot slot xs)
insert_slot-All n slot [] h hs = (h, tt)
insert_slot-All n slot (x ∷ xs) h (hx, hs) = elim (Bool-cases (leb_ℤ slot.size x.size)) [
  | inl large ↦ rw large (hx, insert_slot-All n slot xs h hs)
  | inr small ↦ rw small (h, (hx, hs))
]

insert_slot-IsSorted :
    (slot : CollectSlotItem) (xs : List CollectSlotItem)
    → IsSorted xs
    → IsSorted (insert_slot slot xs)
insert_slot-IsSorted slot [] s = (tt, tt)
insert_slot-IsSorted slot (x ∷ xs) (hx, s) = elim (Bool-cases (leb_ℤ slot.size x.size)) [
  | inl large ↦
      rw large (insert_slot-All x.size slot xs (ground arith) hx, insert_slot-IsSorted slot xs s)
  | inr small ↦
      let le : x.size ≤ℤ slot.size = ground arith in
      let below =
        All-map {P = λ y. y.size ≤ℤ x.size} {Q = λ y. y.size ≤ℤ slot.size} (λ y h. ground arith) xs
          hx in
      rw small ((le, below), (hx, s))
]

-- On a sorted list the fuel is enough, no index is out of range and the length is right: the update
-- returns. The slot then stands behind all that are as large or larger and before the smaller ones,
-- so that the list is sorted again, and it holds the same slots as before and the new one.
pub process_slot_update-IsSorted :
    (slot : CollectSlotItem) (c : Collector)
    → IsSorted c.items
    → (process_slot_update slot c ≡ some (record c { items = insert_slot slot c.items }))
      × IsSorted (insert_slot slot c.items)
      × Perm (insert_slot slot c.items) (slot ∷ c.items)
unfolding process_slot_update
process_slot_update-IsSorted slot c s =
    let xs = c.items in
    let found =
      binary_search_between (suc (length xs)) 0 (length xs) slot.size xs s (omega arith)
        (rank-le slot.size xs) (omega arith) (omega arith) in
    (
      ground (arith, found, insert_after-rank slot xs, length-insert_slot slot xs),
      insert_slot-IsSorted slot xs s,
      insert_slot-Perm slot xs,
    )
