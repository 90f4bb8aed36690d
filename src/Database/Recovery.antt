-- ===== src/Database/Recovery.antt =====
-- A recovered collector (Database/taskImpl.go) can serve requests (Collector/collector.go).
use rappa_master.Base.{
  ℕ, ◌+◌, ◌≤◌, ◌≡◌, refl, sym, subst, ap, ◌∙◌, inl, inr, string_eq, pos_part, neg_part, IsI32,
  leb_ℤ, Bool, true, none, some, List, [], ◌∷◌, arith, All, Bool-cases, Option-cases,
}
use rappa_master.Paradigm.Commit.{CommitSlotItem}
use rappa_master.Paradigm.Slot.{Slot, finished}
use rappa_master.Collector.{
  Collector, CollectSlotItem, HttpCollectRequest, new_collector, process_collect,
}
use rappa_master.Collector.Search.{IsSorted, insert_slot, process_slot_update-IsSorted}
use rappa_master.Collector.Greedy.{total, IsSized, pick, process_collect_fewest}
use rappa_master.Task.{Task}
use rappa_master.Database.{recovered_item, recover_slots, recover_collector}

-- A finished slot: it has a commit slot, and its size is an int32 that is not negative.
abbrev pub IsStored : Slot → Type 0
IsStored slot =
    ((c : CommitSlotItem) × (slot.commit_slot ≡ some c))
    × (neg_part slot.schedule_size ≡ 0)
    × IsI32 slot.schedule_size

-- The data that the schedule gave to the slots.
abbrev pub scheduled : List Slot → ℕ
scheduled [] = 0
scheduled (slot ∷ slots) = pos_part slot.schedule_size + scheduled slots

total-insert_slot :
    (slot : CollectSlotItem) (xs : List CollectSlotItem)
    → total (insert_slot slot xs) ≡ pos_part slot.size + total xs
total-insert_slot slot [] = refl
total-insert_slot slot (x ∷ xs) = elim (Bool-cases (leb_ℤ slot.size x.size)) [
  | inl large ↦ rw large (omega (arith, total-insert_slot slot xs))
  | inr small ↦ rw small refl
]

insert_slot-AllSized :
    (slot : CollectSlotItem) (xs : List CollectSlotItem)
    → IsSized slot
    → All IsSized xs
    → All IsSized (insert_slot slot xs)
insert_slot-AllSized slot [] h hs = (h, tt)
insert_slot-AllSized slot (x ∷ xs) h (hx, hs) = elim (Bool-cases (leb_ℤ slot.size x.size)) [
  | inl large ↦ rw large (hx, insert_slot-AllSized slot xs h hs)
  | inr small ↦ rw small (h, (hx, hs))
]

-- A collector for the task with sorted slots of known sizes that hold `n` in all.
record Holds (t : Task) (n : ℕ) (c : Collector) : Type 0 where
  mine : c.task_id ≡ t.sign
  sorted : IsSorted c.items
  sized : All IsSized c.items
  amount : total c.items ≡ n

recovered_item_of :
    (t : Task) (slot : Slot) (c : CommitSlotItem)
    → slot.commit_slot ≡ some c
    → (item : CollectSlotItem) × (recovered_item t slot ≡ some item)
      × (item.size ≡ slot.schedule_size)
unfolding recovered_item
recovered_item_of t slot c e = elim (Option-cases (recovered_item t slot)) [
  | inl nil ↦ absurd (ground arith)
  | inr (item, made) ↦ (item, made, ground arith)
]

recover_slots-Holds :
    (t : Task) (slots : List Slot) (n : ℕ) (c : Collector)
    → All IsStored slots
    → Holds t n c
    → (c' : Collector) × (recover_slots t slots c ≡ some c') × Holds t (n + scheduled slots) c'
unfolding recover_slots
recover_slots-Holds t [] n c h holds = (c, refl, subst (λ k. Holds t k c) (omega arith) holds)
recover_slots-Holds t (slot ∷ slots) n c h holds =
    let ((k, stored), positive, small) = h.0 in
    let (item, made, size) = recovered_item_of t slot k stored in
    let (runs, sorted, _) = process_slot_update-IsSorted item c holds.sorted in
    let c1 = record c { items = insert_slot item c.items } in
    let holds1 : Holds t (n + pos_part slot.schedule_size) c1 = record {
      mine = holds.mine;
      sorted = sorted;
      sized = insert_slot-AllSized item c.items (rw size (positive, small)) holds.sized;
      amount = rw (total-insert_slot item c.items, size, holds.amount) (omega arith);
    } in
    let (c', rest, holds') =
      recover_slots-Holds t slots (n + pos_part slot.schedule_size) c1 h.1 holds1 in
    (c', ground (arith, runs), subst (λ m. Holds t m c') (omega arith) holds')

abbrev every : List CollectSlotItem → List Bool
every [] = []
every (x ∷ xs) = true ∷ every xs

pick-every : (xs : List CollectSlotItem) → pick (every xs) xs ≡ xs
pick-every [] = refl
pick-every (x ∷ xs) = ap (λ ys. x ∷ ys) (pick-every xs)

-- A finished task without a collector, whose finished slots are stored with their commits, gets a
-- collector back, without a panic; and a request of the task for no more data than was scheduled to
-- these slots is answered with slots that hold as much.
pub recover_collector-process_collect :
    (t : Task) (slots : List Slot) (request : HttpCollectRequest)
    → t.status ≡ finished
    → t.collector ≡ none
    → All IsStored slots
    → request.sign ≡ t.sign
    → IsI32 request.size
    → pos_part request.size ≤ scheduled slots
    → (c : Collector) × (chosen : List CollectSlotItem) × (recover_collector slots t
        ≡ some (some (record t { collector = some c })))
      × (process_collect request c ≡ some chosen)
      × (pos_part request.size ≤ total chosen)
unfolding recover_collector new_collector
recover_collector-process_collect t slots request done missing stored mine small enough =
    let c0 = new_collector t.sign t.output in
    let start : Holds t 0 c0 = record { mine = refl; sorted = tt; sized = tt; amount = refl } in
    let (c, runs, holds) = recover_slots-Holds t slots 0 c0 stored start in
    let same = pick-every c.items in
    let large : pos_part request.size ≤ total (pick (every c.items) c.items) =
      rw (same, holds.amount) (omega (arith, enough)) in
    let (chosen, answer, _, fits, _) =
      process_collect_fewest request c (every c.items) (mine ∙ sym holds.mine) small holds.sorted
        holds.sized large in
    (c, chosen, ground (arith, runs), answer, fits)
