-- ===== src/Merkle/Agreement.antt =====
-- The two implementations of Merkle proofs agree.
use rappa_master.Base.{
  ℕ, suc, ◌/◌, ◌≡◌, refl, sym, subst, ap, ◌∙◌, inl, inr, String, ◌<>◌, some, List, [], ◌∷◌, map,
  length, get_elem?, arith, Option-cases,
}
use rappa_master.Merkle.{
  Bytes, Levels, hex, MerkleProofItem, ProofPair, sibling_index, proof_loop, get_merkle_proof,
  pairs_loop, get_proof, reverse_onto, build,
}
use rappa_master.Merkle.Proof.{
  IsTree, next_level-alone, build_levels_first, build_levels-IsTree, IsParent-of, item_at,
}

-- What the two proofs have in common: the level, and the position and the hash of the sibling.
abbrev pub Part : Type 0
Part = ℕ × ℕ × String

abbrev pub of_item : MerkleProofItem → Part
of_item item = (item.level, item.node_index, "0x" <> item.hash)

abbrev pub of_pair : ProofPair → Part
of_pair pair = (pair.level, pair.sibling.index, pair.sibling.hash)

map-reverse_onto {ℓ κ} :
    {A : Type ℓ} {B : Type κ} (f : A → B) (xs ys : List A)
    → map f (reverse_onto xs ys) ≡ reverse_onto (map f xs) (map f ys)
map-reverse_onto f [] ys = refl
map-reverse_onto f (x ∷ xs) ys = map-reverse_onto f xs (x ∷ ys)

-- The pair that a round of the loop of MerkleTree.GetProof adds.
abbrev pair_at : (level index : ℕ) (node sibling : Bytes) → ProofPair
pair_at level index node sibling = record {
  level = level;
  current = record { index = index; hash = "0x" <> hex node };
  sibling = record { index = sibling_index index; hash = "0x" <> hex sibling };
}

module _ (sha256 : Bytes → Bytes) where
  abbrev Agrees : (level : ℕ) → Levels → (index : ℕ) → List MerkleProofItem → Type 0
  Agrees level tree index proof =
      (pairs : List ProofPair) × (pairs_loop level tree index ≡ some pairs)
      × (map of_item (proof_loop level tree index proof)
          ≡ reverse_onto (map of_pair pairs) (map of_item proof))

  loops-Agrees :
      (levels : Levels) (current : List Bytes) (level index : ℕ) (proof : List MerkleProofItem)
      (x : Bytes)
      → IsTree sha256 (current ∷ levels)
      → get_elem? current index ≡ some x
      → Agrees level (current ∷ levels) index proof
  unfolding pairs_loop proof_loop
  loops-Agrees [] current level index proof x t h = ([], refl, refl)
  loops-Agrees (next ∷ levels) current level index proof x (made, t) h =
      elim (Option-cases (get_elem? current (sibling_index index))) [
        | inl alone ↦
            let up : get_elem? next (index / 2) ≡ some x =
              rw made (next_level-alone sha256 current index h alone) in
            let (pairs, runs, same) =
              loops-Agrees levels next (suc level) (index / 2) proof x t up in
            let e : proof_loop level (current ∷ next ∷ levels) index proof
                ≡ proof_loop (suc level) (next ∷ levels) (index / 2) proof =
              ground arith in
            (pairs, ground arith, ap (map of_item) e ∙ same)
        | inr (s, found) ↦
            let (parent, up, _) = IsParent-of sha256 current level index x s h found in
            let item = item_at level index s in
            let (pairs, runs, same) =
              loops-Agrees levels next (suc level) (index / 2) (item ∷ proof) parent t
                (rw made up) in
            let e : proof_loop level (current ∷ next ∷ levels) index proof
                ≡ proof_loop (suc level) (next ∷ levels) (index / 2) (item ∷ proof) =
              ground arith in
            (pair_at level index x s ∷ pairs, ground arith, ap (map of_item) e ∙ same)
      ]

  -- For each leaf of a tree both implementations find a proof, and the proofs name the same
  -- siblings, level by level from the top: MerkleTree.GetProof writes 0x before the hashes.
  pub get_proof-get_merkle_proof :
      (leaves : List Bytes) (i : ℕ) (leaf : Bytes)
      → get_elem? leaves i ≡ some leaf
      → (tree : Levels) × (pairs : List ProofPair) × (items : List MerkleProofItem) × (build sha256
            leaves
          ≡ some tree)
        × (get_proof tree i ≡ some pairs)
        × (get_merkle_proof tree i ≡ some items)
        × (map of_pair pairs ≡ map of_item items)
  unfolding build get_merkle_proof get_proof
  get_proof-get_merkle_proof [] i leaf h = absurd (ground arith)
  get_proof-get_merkle_proof (x ∷ xs) i leaf h =
      let leaves = x ∷ xs in
      let n = length leaves in
      let (rest, e) = build_levels_first sha256 n leaves in
      let tree =
        subst (IsTree sha256) e (build_levels-IsTree sha256 n leaves (omega arith) (omega arith)) in
      let (pairs, runs, same) = loops-Agrees rest leaves 0 i [] leaf tree h in
      (
        leaves ∷ rest,
        reverse_onto pairs [],
        proof_loop 0 (leaves ∷ rest) i [],
        rw e,
        ground (arith, runs),
        refl,
        map-reverse_onto of_pair pairs [] ∙ sym same,
      )
