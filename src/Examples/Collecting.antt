-- ===== src/Examples/Collecting.antt =====
-- The collector, and Merkle proofs.
use mathlib.Core.List.{Perm}
use rappa_master.Base.{
  ℕ, ◌≤◌, ◌≡◌, refl, String, string_eq, pos, Bool, true, false, some, List, [], ◌∷◌, arith, length,
  take, map,
}
use rappa_master.Paradigm.Model.{dataframe}
use rappa_master.Collector.{
  CollectSlotItem, Collector, HttpCollectRequest, process_slot_update, process_collect,
}
use rappa_master.Collector.Search.{IsSorted, insert_slot, process_slot_update-IsSorted}
use rappa_master.Collector.Greedy.{total, process_collect_fewest}
use rappa_master.Merkle.{
  Bytes, Levels, MerkleProofItem, ProofPair, get_merkle_proof, get_proof, build_merkle_tree, build,
}
use rappa_master.Merkle.Proof.{Certifies, get_merkle_proof-Certifies}
use rappa_master.Merkle.Agreement.{of_pair, of_item, get_proof-get_merkle_proof}

abbrev slot : String → ℕ → CollectSlotItem
slot hash size = record {
  sign = "task";
  hash = hash;
  size = pos size;
  padding_size = [];
  store_method = pos 1;
  node_sign = "";
  node_id = pos 1;
  data_hash = "";
}

abbrev collector : Collector
collector = record {
  task_id = "task";
  items = slot "a" 9 ∷ slot "b" 5 ∷ slot "c" 5 ∷ slot "d" 1 ∷ [];
  output_type = dataframe;
}

sorted : IsSorted collector.items
sorted = (
  (omega arith, (omega arith, (omega arith, tt))),
  ((omega arith, (omega arith, tt)), ((omega arith, tt), (tt, tt))),
)

process_slot_update-IsSorted_example :
    (process_slot_update (slot "e" 5) collector
      ≡ some (record collector { items = insert_slot (slot "e" 5) collector.items }))
    × IsSorted (insert_slot (slot "e" 5) collector.items)
    × Perm (insert_slot (slot "e" 5) collector.items) (slot "e" 5 ∷ collector.items)
process_slot_update-IsSorted_example = process_slot_update-IsSorted (slot "e" 5) collector sorted

-- It goes behind those of the same size.
placed :
    insert_slot (slot "e" 5) collector.items
    ≡ slot "a" 9 ∷ slot "b" 5 ∷ slot "c" 5 ∷ slot "e" 5 ∷ slot "d" 1 ∷ []
placed = refl

abbrev request : HttpCollectRequest
request = record { sign = "task"; size = pos 12 }

-- The first and the third slot would do.
abbrev choice : List Bool
choice = true ∷ false ∷ true ∷ []

process_collect_fewest_example :
    (slots : List CollectSlotItem) × (process_collect request collector ≡ some slots)
    × (slots ≡ take (length slots) collector.items)
    × (12 ≤ total slots)
    × (length slots ≤ 2)
process_collect_fewest_example =
    process_collect_fewest request collector choice refl (omega arith, omega arith) sorted
      (
        (refl, (omega arith, omega arith)),
        (
          (refl, (omega arith, omega arith)),
          ((refl, (omega arith, omega arith)), ((refl, (omega arith, omega arith)), tt)),
        ),
      )
      (omega arith)

-- A toy hash.
abbrev toy_hash : Bytes → Bytes
toy_hash bs = length bs ∷ bs

abbrev leaves : List Bytes
leaves = (1 ∷ []) ∷ (2 ∷ []) ∷ (3 ∷ []) ∷ []

get_merkle_proof-Certifies_example :
    (tree : Levels) × (root : Bytes) × (proof : List MerkleProofItem) × (build_merkle_tree toy_hash
        leaves
      ≡ some (tree, some root))
    × (get_merkle_proof tree 1 ≡ some proof)
    × Certifies toy_hash proof (2 ∷ []) root
get_merkle_proof-Certifies_example = get_merkle_proof-Certifies toy_hash leaves 1 (2 ∷ []) refl

get_proof-get_merkle_proof_example :
    (tree : Levels) × (pairs : List ProofPair) × (items : List MerkleProofItem) × (build toy_hash
        leaves
      ≡ some tree)
    × (get_proof tree 2 ≡ some pairs)
    × (get_merkle_proof tree 2 ≡ some items)
    × (map of_pair pairs ≡ map of_item items)
get_proof-get_merkle_proof_example = get_proof-get_merkle_proof toy_hash leaves 2 (3 ∷ []) refl
