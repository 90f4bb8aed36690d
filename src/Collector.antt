-- ===== src/Collector.antt =====
-- Collector/collector.go: the finalized slots of one task, kept in descending order of size so that a
-- collect request can take the largest first. Gather has how their data is asked for and put
-- together.
pub mod Search
pub mod Greedy
pub mod Gather
pub mod Download
pub mod Rows
pub mod Arrival
pub mod Waiting
pub mod Local
use rappa_master.Base.{
  ℕ, zero, suc, ◌+◌, ◌-◌, ◌/◌, String, string_eq, ℤ, pos, leb_ℤ, ltb_ℤ, ltb, nat_beq, sub_i32, true,
  false, Option, none, some, List, [], ◌∷◌, ◌++◌, length, get_elem?, take, drop, if◌then◌else◌,
  ◌==◌,
}
use rappa_master.Paradigm.Model.{TaskHash, SlotHash, ModelOutputType}

-- paradigm/collect.go
pub record CollectSlotItem : Type 0 where
  pub sign : String
  pub hash : SlotHash
  pub size : ℤ
  pub padding_size : List ℤ
  pub store_method : ℤ
  pub node_sign : String
  pub node_id : ℤ
  pub data_hash : String

pub record HttpCollectRequest : Type 0 where
  pub sign : String
  pub size : ℤ

pub record Collector : Type 0 where
  pub task_id : TaskHash
  pub items : List CollectSlotItem
  pub output_type : ModelOutputType

unfoldable pub new_collector : TaskHash → ModelOutputType → Collector
new_collector task_id output_type = record {
  task_id = task_id;
  items = [];
  output_type = output_type;
}

-- The binary search: `bound` is the source's right + 1, and `none` as the index is its -1. The
-- whole result is `none` if an index is out of range, or if the fuel, one more than the length of
-- the list at the start, is used up.
unfoldable pub binary_search :
    (fuel : ℕ)
    → ℤ
    → List CollectSlotItem
    → (left bound : ℕ) → (index : Option ℕ) → Option (Option ℕ)
binary_search zero size items left bound index = none
binary_search (suc fuel) size items left bound index = elim (ltb left bound) [
  | false ↦ some index
  | true ↦
      let mid = (left + bound - 1) / 2 in
      elim (get_elem? items mid) [
        | none ↦ none
        | some item ↦ elim (leb_ℤ size item.size) [
          | true ↦ binary_search fuel size items (suc mid) bound (some mid)
          | false ↦ binary_search fuel size items left mid index
        ]
      ]
]

-- The list with the slot after the index that was found.
abbrev pub insert_after : Option ℕ → CollectSlotItem → List CollectSlotItem → List CollectSlotItem
insert_after none slot items = slot ∷ items
insert_after (some index) slot items = take (suc index) items ++ slot ∷ drop (suc index) items

-- ProcessSlotUpdate: a slot of another task is only logged. `none` is a panic.
unfoldable pub process_slot_update : CollectSlotItem → Collector → Option Collector
process_slot_update slot c =
    elim (binary_search (suc (length c.items)) slot.size c.items 0 (length c.items) none) [
      | none ↦ none
      | some index ↦
          let items = insert_after index slot c.items in
          if nat_beq (length items) (length c.items + 1)
          then some (record c { items = items })
          else none
    ]

-- The slots that the greedy loop takes.
unfoldable pub take_slots : (remain : ℤ) → List CollectSlotItem → List CollectSlotItem
take_slots remain [] = []
take_slots remain (slot ∷ items) =
    let rest = take_slots (sub_i32 remain slot.size) items in
    if ltb_ℤ (pos 0) remain then slot ∷ rest else []

-- ProcessCollect, up to the slots that it hands to the collect instance: `none` is the error for a
-- request of another task.
unfoldable pub process_collect : HttpCollectRequest → Collector → Option (List CollectSlotItem)
process_collect request c =
    if request.sign == c.task_id then some (take_slots request.size c.items) else none
