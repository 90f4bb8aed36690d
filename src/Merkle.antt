-- ===== src/Merkle.antt =====
-- utils/merkle.go and Validatable/merkle/MerkleTree.go: Merkle trees over the leaves of a slot, and
-- proofs that a leaf lies in them. SHA-256 is a parameter; a slice of bytes is a list of numbers.
pub mod Proof
pub mod Agreement
use rappa_master.Base.{
  ℕ, zero, suc, ◌+◌, ◌-◌, ◌/◌, ◌%◌, String, ◌<>◌, Bool, true, false, Option, none, some, List, [],
  ◌∷◌, ◌++◌, length, get_elem?, leb, nat_beq, if◌then◌else◌, hex_digit,
}

abbrev pub Bytes : Type 0
Bytes = List ℕ

-- Levels of nodes, the leaves first.
abbrev pub Levels : Type 0
Levels = List (List Bytes)

-- Go's `%x` of a slice of bytes.
unfoldable pub hex : Bytes → String
hex [] = ""
hex (b ∷ bs) = hex_digit (b / 16) <> hex_digit (b % 16) <> hex bs

pub record MerkleProofItem : Type 0 where
  pub hash : String
  pub position : String
  pub level : ℕ
  pub node_index : ℕ

-- index ^ 1
abbrev pub sibling_index : ℕ → ℕ
sibling_index i = if nat_beq (i % 2) 0 then suc i else i - 1

-- `for level := 0; level < len(tree)-1; level++`, over the levels that are left.
unfoldable pub proof_loop :
    (level : ℕ) → Levels → (index : ℕ) → List MerkleProofItem → List MerkleProofItem
proof_loop level [] index proof = proof
proof_loop level (top ∷ []) index proof = proof
proof_loop level (current ∷ next ∷ levels) index proof =
    elim (get_elem? current (sibling_index index)) [
      | none ↦ proof_loop (suc level) (next ∷ levels) (index / 2) proof
      | some sibling ↦
          let item : MerkleProofItem = record {
            hash = hex sibling;
            position = if nat_beq (index % 2) 0 then "right" else "left";
            level = level;
            node_index = sibling_index index;
          } in
          proof_loop (suc level) (next ∷ levels) (index / 2) (item ∷ proof)
    ]

-- GetMerkleProof: `none` is the result false.
unfoldable pub get_merkle_proof : Levels → (target_index : ℕ) → Option (List MerkleProofItem)
get_merkle_proof [] target_index = none
get_merkle_proof (level ∷ levels) target_index =
    some (proof_loop 0 (level ∷ levels) target_index [])

-- tree[len(tree)-1][0]
unfoldable pub top_node : Levels → Option Bytes
top_node [] = none
top_node (top ∷ []) = get_elem? top 0
top_node (_ ∷ level ∷ levels) = top_node (level ∷ levels)

module _ (sha256 : Bytes → Bytes) where
  -- The inner loop: pairs are hashed, and an odd node is promoted.
  unfoldable pub next_level : List Bytes → List Bytes
  next_level [] = []
  next_level (x ∷ []) = x ∷ []
  next_level (x ∷ y ∷ level) = sha256 (x ++ y) ∷ next_level level

  -- The outer loop. The fuel is the number of leaves.
  unfoldable pub build_levels : (fuel : ℕ) → List Bytes → Levels
  build_levels zero current = current ∷ []
  build_levels (suc fuel) current =
      let rest = build_levels fuel (next_level current) in
      if leb (length current) 1 then current ∷ [] else current ∷ rest

  -- BuildMerkleTree: the tree and its root, or two nils.
  unfoldable pub build_merkle_tree : List Bytes → Option (Levels × Option Bytes)
  build_merkle_tree [] = none
  build_merkle_tree (x ∷ leaves) =
      let tree = build_levels (length (x ∷ leaves)) (x ∷ leaves) in some (tree, top_node tree)

  -- MerkleTree.Build: `none` is the error.
  unfoldable pub build : List Bytes → Option Levels
  build [] = none
  build (x ∷ leaves) = some (build_levels (length (x ∷ leaves)) (x ∷ leaves))

-- The two nodes of one level in a MerkleTree's proof.
pub record ProofNode : Type 0 where
  pub index : ℕ
  pub hash : String

pub record ProofPair : Type 0 where
  pub level : ℕ
  pub current : ProofNode
  pub sibling : ProofNode

-- The loop of MerkleTree.GetProof, with the pairs in the order in which it finds them; `none` is the
-- panic on an index out of range.
unfoldable pub pairs_loop : (level : ℕ) → Levels → (index : ℕ) → Option (List ProofPair)
pairs_loop level [] index = some []
pairs_loop level (top ∷ []) index = some []
pairs_loop level (current ∷ next ∷ levels) index =
    let more = pairs_loop (suc level) (next ∷ levels) (index / 2) in
    elim (get_elem? current (sibling_index index)) [
      | none ↦ more
      | some sibling ↦ elim (get_elem? current index) [
        | none ↦ none
        | some node ↦ elim more [
          | none ↦ none
          | some pairs ↦ some (
              record {
                level = level;
                current = record { index = index; hash = "0x" <> hex node };
                sibling = record { index = sibling_index index; hash = "0x" <> hex sibling };
              }
              ∷ pairs)
        ]
      ]
    ]

-- The loop that swaps the pairs end to end.
abbrev pub reverse_onto {ℓ} : {A : Type ℓ} → List A → List A → List A
reverse_onto [] ys = ys
reverse_onto (x ∷ xs) ys = reverse_onto xs (x ∷ ys)

unfoldable pub get_proof : Levels → (target_index : ℕ) → Option (List ProofPair)
get_proof tree target_index = elim (pairs_loop 0 tree target_index) [
  | none ↦ none
  | some pairs ↦ some (reverse_onto pairs [])
]
