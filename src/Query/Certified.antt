-- ===== src/Query/Certified.antt =====
-- The answer to an integrity query certifies the commitment of the slot that was asked for.
use rappa_master.Base.{
  ℕ, String, string_eq, true, Option, none, some, List, [], ◌∷◌, ◌++◌, length, map, get_elem?, ◌<>◌,
  if◌then◌else◌, ◌==◌, ◌⊎◌, inl, inr, ◌≡◌, refl, Bool-cases, All, get_elem?-append,
  get_elem?-append_length, arith,
}
use rappa_master.Base.Bytes.{Bytes}
use rappa_master.Paradigm.Slot.{Slot}
use rappa_master.Merkle.{
  Levels, MerkleProofItem, hex, build, build_merkle_tree, get_proof, top_node,
}
use rappa_master.Merkle.Proof.{Certifies, get_merkle_proof-Certifies}
use rappa_master.Merkle.Agreement.{of_item, of_pair, get_proof-get_merkle_proof}
use rappa_master.Query.Response.{Response, success_response, error_response, slot_life_error}
use rappa_master.Query.Integrity.{
  merkle, commitment_of, collect_leaves, MerkleAnswer, Answer, merkle_answer, new_validatable,
  generate_response,
}

-- Reading the commitment of the slot does not panic.
abbrev pub IsReadable : Slot → Type 0
IsReadable slot = (commitment : Bytes) × (commitment_of slot ≡ some commitment)

-- The commitment, where it is there and not empty, of the last slot with the hash.
abbrev pub last_from : (slot_hash : String) → List Slot → Option Bytes → Option Bytes
last_from slot_hash [] known = known
last_from slot_hash (slot ∷ slots) known = elim (commitment_of slot) [
  | none ↦ last_from slot_hash slots known
  | some [] ↦ last_from slot_hash slots known
  | some (b ∷ bs) ↦
      last_from slot_hash slots (if slot.slot_id == slot_hash then some (b ∷ bs) else known)
]

-- The position found so far is that of the commitment found so far.
abbrev IsAt : List Bytes → (target : Option ℕ) → (known : Option Bytes) → Type 0
IsAt leaves none known = known ≡ none
IsAt leaves (some i) known = (leaf : Bytes) × (known ≡ some leaf) × (get_elem? leaves i ≡ some leaf)

IsAt-append :
    (leaves : List Bytes) (leaf : Bytes) (target : Option ℕ) (known : Option Bytes)
    → IsAt leaves target known
    → IsAt (leaves ++ leaf ∷ []) target known
IsAt-append leaves leaf none known h = h
IsAt-append leaves leaf (some i) known (l, e, h) = (l, e, get_elem?-append leaves (leaf ∷ []) i h)

collect_leaves-IsAt :
    (slot_hash : String) (slots : List Slot) (leaves : List Bytes) (target : Option ℕ)
    (known : Option Bytes)
    → All IsReadable slots
    → IsAt leaves target known
    → (leaves' : List Bytes) × (target' : Option ℕ) × (collect_leaves slot_hash slots leaves target
        ≡ some (leaves', target'))
      × IsAt leaves' target' (last_from slot_hash slots known)
unfolding collect_leaves
collect_leaves-IsAt slot_hash [] leaves target known r h = (leaves, target, refl, h)
collect_leaves-IsAt slot_hash (slot ∷ slots) leaves target known (([], e), r) h =
    rw (collect_leaves, last_from, e) (collect_leaves-IsAt slot_hash slots leaves target known r h)
collect_leaves-IsAt slot_hash (slot ∷ slots) leaves target known ((b ∷ bs, e), r) h =
    elim (Bool-cases (slot.slot_id == slot_hash)) [
      | inl same ↦
          rw (collect_leaves, last_from, e, same)
            (collect_leaves-IsAt slot_hash slots (leaves ++ (b ∷ bs) ∷ []) (some (length leaves))
              (some (b ∷ bs)) r (b ∷ bs, refl, get_elem?-append_length leaves (b ∷ bs)))
      | inr other ↦
          rw (collect_leaves, last_from, e, other)
            (collect_leaves-IsAt slot_hash slots (leaves ++ (b ∷ bs) ∷ []) target known r
              (IsAt-append leaves (b ∷ bs) target known h))
    ]

module _ (sha256 : Bytes → Bytes) {V P : Type 0} (verkle_build : List Bytes → String ⊎ V)
    (verkle_proof : V → ℕ → Option P) where
  build-build_merkle_tree :
      (leaves : List Bytes) (tree : Levels) (root : Bytes)
      → build_merkle_tree sha256 leaves ≡ some (tree, some root)
      → (build sha256 leaves ≡ some tree) × (top_node tree ≡ some root)
  unfolding build build_merkle_tree
  build-build_merkle_tree [] tree root h = absurd (ground arith)
  build-build_merkle_tree (x ∷ leaves) tree root h = ground arith

  -- What an answer must be for the commitment `leaf` of a slot.
  abbrev pub IsProof : (slot_hash : String) → (leaf : Bytes) → Option (Response (Answer P)) → Type 0
  IsProof slot_hash leaf response =
      (a : MerkleAnswer) × (items : List MerkleProofItem) × (root : Bytes) × (response
        ≡ some (success_response (merkle_answer a)))
      × (a.slot_hash ≡ slot_hash)
      × (a.leaf ≡ "0x" <> hex leaf)
      × (a.merkle_root ≡ "0x" <> hex root)
      × (map of_pair a.proof ≡ map of_item items)
      × Certifies sha256 items leaf root

  answer-IsProof :
      (slot_hash : String) (slots : List Slot) (leaves : List Bytes) (i : ℕ) (leaf : Bytes)
      → collect_leaves slot_hash slots [] none ≡ some (leaves, some i)
      → get_elem? leaves i ≡ some leaf
      → IsProof slot_hash leaf
          (generate_response sha256 verkle_build verkle_proof slot_hash merkle slots)
  unfolding generate_response new_validatable
  answer-IsProof slot_hash slots leaves i leaf h k =
      let (tree, root, items, makes, finds, certifies) =
        get_merkle_proof-Certifies sha256 leaves i leaf k in
      let (builds, tops) = build-build_merkle_tree leaves tree root makes in
      let (tree', pairs, items', builds', proves, finds', same) =
        get_proof-get_merkle_proof sha256 leaves i leaf k in
      let e : tree' ≡ tree = ground arith in
      let e' : items' ≡ items = ground arith in
      let proves' : get_proof tree i ≡ some pairs = ground arith in
      (
        record {
          slot_hash = slot_hash;
          leaf = "0x" <> hex leaf;
          merkle_root = "0x" <> hex root;
          proof = pairs;
          verified = true;
          leaves_count = length leaves;
          target_index = i;
        },
        items,
        root,
        ground arith,
        refl,
        refl,
        refl,
        rw (← e') same,
        certifies,
      )

  -- What the response must be, by the commitment of the slot, if it has one.
  abbrev pub IsAnswer : (slot_hash : String) → List Slot → Option Bytes → Type 0
  IsAnswer slot_hash slots (some leaf) =
      IsProof slot_hash leaf
        (generate_response sha256 verkle_build verkle_proof slot_hash merkle slots)
  IsAnswer slot_hash slots none =
      generate_response sha256 verkle_build verkle_proof slot_hash merkle slots
      ≡ some (error_response slot_life_error "target slot not found or no valid commitments")

  found-IsAnswer :
      (slot_hash : String) (slots : List Slot) (leaves : List Bytes) (target : Option ℕ)
      (known : Option Bytes)
      → collect_leaves slot_hash slots [] none ≡ some (leaves, target)
      → IsAt leaves target known
      → IsAnswer slot_hash slots known
  unfolding generate_response
  found-IsAnswer slot_hash slots leaves none known runs h = rw h (ground arith)
  found-IsAnswer slot_hash slots leaves (some i) known runs (leaf, h, k) =
      rw h (answer-IsProof slot_hash slots leaves i leaf runs k)

  -- The answer to an integrity query over a Merkle tree. If a slot with the hash that was asked for
  -- has a commitment, the response is a success with that commitment, a root and a proof; the proof
  -- has the siblings of a proof, as GetMerkleProof gives it, whose hashes lead from the commitment
  -- to the root. The last such slot counts. If there is none, the response is an error. The
  -- condition is that no slot has a commit without a slot in it.
  pub generate_response-Certifies :
      (slot_hash : String) (slots : List Slot)
      → All IsReadable slots
      → IsAnswer slot_hash slots (last_from slot_hash slots none)
  generate_response-Certifies slot_hash slots r =
      let (leaves, target, runs, h) = collect_leaves-IsAt slot_hash slots [] none none r refl in
      found-IsAnswer slot_hash slots leaves target (last_from slot_hash slots none) runs h
