-- ===== src/Examples/Downloading.antt =====
-- Downloads of slots, with toys for the transformer, the signatures and the Reed-Solomon code.
use rappa_master.Base.Assoc.{lookup, insert}
use rappa_master.Base.Bytes.{Bytes}
use rappa_master.Base.{
  ℕ, ◌≡◌, refl, String, ℤ, pos, Bool, true, false, Option, none, some, List, [], ◌∷◌, ◌++◌, map,
  ltb, if◌then◌else◌,
}
use rappa_master.Collector.{CollectSlotItem}
use rappa_master.Collector.Gather.{
  SlotRecover, new_slot_recover, pad_rows, add, add_chunks, place, sort_chunks, place_data, decode,
  recover_row_chunk, merge_with, recover_rows, recover, merge,
}
use rappa_master.Collector.Download.{
  waits_forever, ends, start_recovers, expected, receive, gather, counts_of, recover_all, collect,
}
use rappa_master.Collector.Rows.{Delivery, response_of}
use rappa_master.Collector.Local.{put_together, output_of, collect-output_of}
use rappa_master.Collector.Waiting.{collect-waits_forever}

-- Bytes that start with a 0 do not parse.
abbrev transform : Bytes → Option Bytes
transform [] = none
transform (b ∷ bytes) = if ltb 0 b then some (b ∷ bytes) else none

abbrev concat : Bytes → Bytes → Bytes
concat a b = a ++ b

abbrev verify : (node_id : ℤ) → (content : Bytes) → (sign : String) → Bool
verify node_id [] sign = false
verify node_id (b ∷ content) sign = true

-- A chunk that is missing is a 7.
abbrev fill : Option Bytes → Bytes
fill none = 7 ∷ []
fill (some bytes) = bytes

abbrev reconstruct : (k m : ℕ) → List (Option Bytes) → Option (List Bytes)
reconstruct k m chunks = some (map fill chunks)

abbrev slot : (hash : String) → (store_method : ℤ) → List ℤ → CollectSlotItem
slot hash store_method padding_size = record {
  sign = "task";
  hash = hash;
  size = pos 2;
  padding_size = padding_size;
  store_method = store_method;
  node_sign = "signed";
  node_id = pos 1;
  data_hash = "";
}

-- The second row of the first slot does not parse.
abbrev first : Delivery
first = record { slot = slot "a" (pos 1) []; parts = (1 ∷ 2 ∷ []) ∷ (0 ∷ []) ∷ (3 ∷ []) ∷ [] }

abbrev second : Delivery
second = record { slot = slot "b" (pos 1) []; parts = (4 ∷ []) ∷ [] }

collect-output_of_example :
    collect reconstruct transform concat verify 2 3 4
      (first.slot ∷ second.slot ∷ [])
      (response_of first ∷ response_of second ∷ [])
    ≡ ends (
        put_together concat
          (map (output_of 2 3 reconstruct transform concat verify) (first ∷ second ∷ [])))
collect-output_of_example =
    collect-output_of 2 3 reconstruct transform concat verify 4 (first ∷ second ∷ [])
      ((refl, tt), (tt, tt)) ((refl, refl), ((refl, refl), tt)) (refl, (refl, tt))

collect-waits_forever_example :
    collect reconstruct transform concat verify 2 3 4
      (first.slot ∷ second.slot ∷ [])
      (response_of first ∷ [])
    ≡ waits_forever
collect-waits_forever_example =
    collect-waits_forever 2 3 reconstruct transform concat verify 4 (first ∷ []) second []
      ((refl, tt), (tt, tt)) ((refl, refl), ((refl, refl), tt))

-- The row that does not parse is left out.
downloaded :
    collect reconstruct transform concat verify 2 3 4
      (first.slot ∷ second.slot ∷ [])
      (response_of first ∷ response_of second ∷ [])
    ≡ ends (some (1 ∷ 2 ∷ 3 ∷ 4 ∷ []))
unfolding collect counts_of lookup start_recovers insert gather receive expected add_chunks add
    pad_rows recover_all recover recover_rows recover_row_chunk merge merge_with
downloaded = refl

-- A row that is coded in three chunks, of which two arrived; the last byte is padding.
abbrev coded : SlotRecover
coded = record (new_slot_recover 2 3 (slot "c" (pos 3) (pos 1 ∷ []))) {
  chunks =
      (record { hash = "c"; row = pos 0; col = pos 1; chunk = 5 ∷ 0 ∷ [] }
        ∷ record { hash = "c"; row = pos 0; col = pos 0; chunk = 6 ∷ 9 ∷ [] }
        ∷ [])
      ∷ [];
}

decoded : recover reconstruct transform concat coded ≡ some (some (6 ∷ 9 ∷ 5 ∷ []))
unfolding recover recover_rows recover_row_chunk sort_chunks place decode place_data merge
    merge_with
decoded = refl
