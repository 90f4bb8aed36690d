-- ===== src/Merkle/Proof.antt =====
-- A Merkle proof certifies its leaf.
use rappa_master.Base.{
  ℕ, zero, suc, ◌+◌, ◌/◌, ◌%◌, ◌≤◌, ◌<◌, ◌≡◌, ◌⊎◌, refl, sym, subst, inl, inr, String, false, none,
  some, List, [], ◌∷◌, ◌++◌, length, get_elem?, leb, nat_beq, if◌then◌else◌, arith, Bool-cases,
  Option-cases,
}
use rappa_master.Merkle.{
  Bytes, Levels, hex, MerkleProofItem, sibling_index, proof_loop, get_merkle_proof, top_node,
  next_level, build_levels, build_merkle_tree,
}

pred_of : (i : ℕ) → nat_beq (i % 2) 0 ≡ false → (j : ℕ) × (i ≡ suc j) × (j % 2 ≡ 0)
pred_of zero odd = absurd (ground arith)
pred_of (suc j) odd = (j, refl, ground arith)

-- What a round of the loop adds.
abbrev pub item_at : (level index : ℕ) → Bytes → MerkleProofItem
item_at level index sibling = record {
  hash = hex sibling;
  position = if nat_beq (index % 2) 0 then "right" else "left";
  level = level;
  node_index = sibling_index index;
}

module _ (sha256 : Bytes → Bytes) where
  -- The parent of a node and its sibling, which lies on the side that the proof names.
  abbrev pub IsParent : (position : String) → (sibling node parent : Bytes) → Type 0
  IsParent position sibling node parent =
      ((position ≡ "right") × (parent ≡ sha256 (node ++ sibling)))
      ⊎ ((position ≡ "left") × (parent ≡ sha256 (sibling ++ node)))

  -- The hashes of a proof, from the bottom to the top, lead from a leaf to a root. The proof has the
  -- top first.
  abbrev pub Certifies : List MerkleProofItem → (leaf root : Bytes) → Type 0
  Certifies [] leaf root = leaf ≡ root
  Certifies (item ∷ proof) leaf root =
      (sibling node : Bytes) × (item.hash ≡ hex sibling)
      × Certifies proof leaf node
      × IsParent item.position sibling node root

  next_level-even :
      (level : List Bytes) (i : ℕ) {x s : Bytes}
      → i % 2 ≡ 0
      → get_elem? level i ≡ some x
      → get_elem? level (suc i) ≡ some s
      → get_elem? (next_level sha256 level) (i / 2) ≡ some (sha256 (x ++ s))
  unfolding next_level
  next_level-even [] i e h k = absurd (ground arith)
  next_level-even (a ∷ []) zero e h k = absurd (ground arith)
  next_level-even (a ∷ []) (suc i) e h k = absurd (ground arith)
  next_level-even (a ∷ b ∷ level) zero e h k = ground arith
  next_level-even (a ∷ b ∷ level) (suc zero) e h k = absurd (omega (arith, e))
  next_level-even (a ∷ b ∷ level) (suc (suc i)) e h k =
      let half : suc (suc i) / 2 ≡ suc (i / 2) = omega arith in
      rw half (next_level-even level i (omega (arith, e)) h k)

  next_level-odd :
      (level : List Bytes) (i : ℕ) {x s : Bytes}
      → i % 2 ≡ 0
      → get_elem? level (suc i) ≡ some x
      → get_elem? level i ≡ some s
      → get_elem? (next_level sha256 level) (suc i / 2) ≡ some (sha256 (s ++ x))
  unfolding next_level
  next_level-odd [] i e h k = absurd (ground arith)
  next_level-odd (a ∷ []) i e h k = absurd (ground arith)
  next_level-odd (a ∷ b ∷ level) zero e h k = ground arith
  next_level-odd (a ∷ b ∷ level) (suc zero) e h k = absurd (omega (arith, e))
  next_level-odd (a ∷ b ∷ level) (suc (suc i)) e h k =
      let half : suc (suc (suc i)) / 2 ≡ suc (suc i / 2) = omega arith in
      rw half (next_level-odd level i (omega (arith, e)) h k)

  pub next_level-alone :
      (level : List Bytes) (i : ℕ) {x : Bytes}
      → get_elem? level i ≡ some x
      → get_elem? level (sibling_index i) ≡ none
      → get_elem? (next_level sha256 level) (i / 2) ≡ some x
  unfolding next_level
  next_level-alone [] i h k = absurd (ground arith)
  next_level-alone (a ∷ []) zero h k = h
  next_level-alone (a ∷ []) (suc i) h k = absurd (ground arith)
  next_level-alone (a ∷ b ∷ level) zero h k = absurd (ground arith)
  next_level-alone (a ∷ b ∷ level) (suc zero) h k = absurd (ground arith)
  next_level-alone (a ∷ b ∷ level) (suc (suc i)) h k =
      let half : suc (suc i) / 2 ≡ suc (i / 2) = omega arith in
      let there : sibling_index (suc (suc i)) ≡ suc (suc (sibling_index i)) = ground arith in
      let k' : get_elem? (a ∷ b ∷ level) (suc (suc (sibling_index i))) ≡ none =
        subst (λ j. get_elem? (a ∷ b ∷ level) j ≡ none) there k in
      rw half (next_level-alone level i h k')

  -- Each level is made from the one before, and the last has one node.
  abbrev pub IsTree : Levels → Type 0
  IsTree [] = ⊥
  IsTree (top ∷ []) = length top ≡ 1
  IsTree (current ∷ next ∷ levels) = (next ≡ next_level sha256 current) × IsTree (next ∷ levels)

  length-next_level :
      (level : List Bytes) → length (next_level sha256 level) ≡ (length level + 1) / 2
  unfolding next_level
  length-next_level [] = omega arith
  length-next_level (a ∷ []) = omega arith
  length-next_level (a ∷ b ∷ level) = omega (arith, length-next_level level)

  pub build_levels_first :
      (fuel : ℕ) (current : List Bytes)
      → (rest : Levels) × (build_levels sha256 fuel current ≡ current ∷ rest)
  unfolding build_levels
  build_levels_first zero current = ([], refl)
  build_levels_first (suc fuel) current = elim (Bool-cases (leb (length current) 1)) [
    | inl done ↦ ([], ground arith)
    | inr more ↦ (build_levels sha256 fuel (next_level sha256 current), ground arith)
  ]

  pub build_levels-IsTree :
      (fuel : ℕ) (current : List Bytes)
      → 0 < length current
      → length current ≤ suc fuel
      → IsTree (build_levels sha256 fuel current)
  unfolding build_levels
  build_levels-IsTree zero current h enough = omega (arith, h, enough)
  build_levels-IsTree (suc fuel) current h enough = elim (Bool-cases (leb (length current) 1)) [
    | inl done ↦ rw done (ground arith)
    | inr more ↦
        let next = next_level sha256 current in
        let l = length-next_level current in
        let big : 1 < length current = ground arith in
        let tree = build_levels-IsTree fuel next (omega arith) (omega arith) in
        let (rest, e) = build_levels_first fuel next in
        let tree' : IsTree (current ∷ next ∷ rest) = (refl, subst IsTree e tree) in
        let whole : build_levels sha256 (suc fuel) current ≡ current ∷ next ∷ rest = ground arith in
        subst IsTree (sym whole) tree'
  ]

  pub IsParent-of :
      (current : List Bytes) (level index : ℕ) (x s : Bytes)
      → get_elem? current index ≡ some x
      → get_elem? current (sibling_index index) ≡ some s
      → (parent : Bytes) × (get_elem? (next_level sha256 current) (index / 2) ≡ some parent)
        × IsParent (item_at level index s).position s x parent
  IsParent-of current level index x s h k = elim (Bool-cases (nat_beq (index % 2) 0)) [
    | inl even ↦
        let e : index % 2 ≡ 0 = ground arith in
        let k' : get_elem? current (suc index) ≡ some s = ground arith in
        (sha256 (x ++ s), next_level-even current index e h k', inl (ground arith, refl))
    | inr odd ↦
        let (j, same, e) = pred_of index odd in
        let h' : get_elem? current (suc j) ≡ some x = rw (← same) h in
        let before : sibling_index index ≡ j = ground arith in
        let k' : get_elem? current j ≡ some s = rw (← before) k in
        (sha256 (s ++ x), rw same (next_level-odd current j e h' k'), inr (ground arith, refl))
  ]

  proof_loop-Certifies :
      (levels : Levels) (current : List Bytes) (level index : ℕ) (proof : List MerkleProofItem)
      (leaf x root : Bytes)
      → IsTree (current ∷ levels)
      → get_elem? current index ≡ some x
      → Certifies proof leaf x
      → top_node (current ∷ levels) ≡ some root
      → Certifies (proof_loop level (current ∷ levels) index proof) leaf root
  unfolding proof_loop top_node
  proof_loop-Certifies [] [] level index proof leaf x root t h c top = absurd (ground arith)
  proof_loop-Certifies [] (y ∷ []) level zero proof leaf x root t h c top =
      let e : x ≡ root = ground arith in subst (Certifies proof leaf) e c
  proof_loop-Certifies [] (y ∷ []) level (suc i) proof leaf x root t h c top = absurd (ground arith)
  proof_loop-Certifies [] (y ∷ z ∷ ys) level index proof leaf x root t h c top =
      absurd (omega (arith, t))
  proof_loop-Certifies (next ∷ levels) current level index proof leaf x root (made, t) h c top =
      elim (Option-cases (get_elem? current (sibling_index index))) [
        | inl alone ↦
            let up : get_elem? next (index / 2) ≡ some x =
              rw made (next_level-alone current index h alone) in
            let e : proof_loop level (current ∷ next ∷ levels) index proof
                ≡ proof_loop (suc level) (next ∷ levels) (index / 2) proof =
              ground arith in
            subst (λ p. Certifies p leaf root) (sym e)
              (proof_loop-Certifies levels next (suc level) (index / 2) proof leaf x root t up c
                top)
        | inr (s, found) ↦
            let (parent, up, is_parent) = IsParent-of current level index x s h found in
            let c' : Certifies (item_at level index s ∷ proof) leaf parent =
              (s, x, refl, c, is_parent) in
            let e : proof_loop level (current ∷ next ∷ levels) index proof
                ≡ proof_loop (suc level) (next ∷ levels) (index / 2)
                    (item_at level index s ∷ proof) =
              ground arith in
            subst (λ p. Certifies p leaf root) (sym e)
              (proof_loop-Certifies levels next (suc level) (index / 2)
                (item_at level index s ∷ proof) leaf parent root t (rw made up) c' top)
      ]

  pub top_node-IsTree :
      (levels : Levels) (current : List Bytes)
      → IsTree (current ∷ levels)
      → (root : Bytes) × (top_node (current ∷ levels) ≡ some root)
  unfolding top_node
  top_node-IsTree [] [] t = absurd (omega (arith, t))
  top_node-IsTree [] (y ∷ ys) t = (y, refl)
  top_node-IsTree (next ∷ levels) current (made, t) = top_node-IsTree levels next t

  -- The tree of at least one leaf has a root, and for each leaf the proof is found and certifies the
  -- leaf: its hashes, each on the side that it names, lead from the leaf to the root.
  pub get_merkle_proof-Certifies :
      (leaves : List Bytes) (i : ℕ) (leaf : Bytes)
      → get_elem? leaves i ≡ some leaf
      → (tree : Levels) × (root : Bytes) × (proof : List MerkleProofItem) × (build_merkle_tree
            sha256 leaves
          ≡ some (tree, some root))
        × (get_merkle_proof tree i ≡ some proof)
        × Certifies proof leaf root
  unfolding build_merkle_tree get_merkle_proof
  get_merkle_proof-Certifies [] i leaf h = absurd (ground arith)
  get_merkle_proof-Certifies (x ∷ xs) i leaf h =
      let leaves = x ∷ xs in
      let n = length leaves in
      let (rest, e) = build_levels_first n leaves in
      let tree = subst IsTree e (build_levels-IsTree n leaves (omega arith) (omega arith)) in
      let (root, top) = top_node-IsTree rest leaves tree in
      (
        leaves ∷ rest,
        root,
        proof_loop 0 (leaves ∷ rest) i [],
        rw (e, top),
        refl,
        proof_loop-Certifies rest leaves 0 i [] leaf leaf root tree h refl top,
      )
