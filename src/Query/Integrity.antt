-- ===== src/Query/Integrity.antt =====
-- Query/SynthTaskQuery.go, SlotIntegrityVerification, and Validatable/Validatable.go: a proof that the
-- commitment of a slot is among those of its task. The Verkle tree is a parameter.
use rappa_master.Base.{
  ℕ, String, string_eq, Bool, true, Option, none, some, List, [], ◌∷◌, ◌++◌, length, get_elem?,
  ◌<>◌, if◌then◌else◌, ◌==◌, ◌⊎◌, inl, inr,
}
use rappa_master.Base.Bytes.{Bytes}
use rappa_master.Paradigm.Slot.{Slot}
use rappa_master.Merkle.{Levels, ProofPair, hex, build, get_proof, top_node}
use rappa_master.Query.Response.{
  Response, success_response, error_response, slot_life_error, runtime_error,
}

pub data StructType : Type 0 where
  merkle verkle : StructType

-- The commitment, empty where there is no commit; `none` is the panic on a commit without a slot.
unfoldable pub commitment_of : Slot → Option Bytes
commitment_of slot = elim slot.commit_slot [
  | none ↦ some []
  | some c ↦ elim c.justified_slot [ none ↦ none | some j ↦ some j.commitment ]
]

-- The loop over the slots: `target` is indexOfTarget, with `none` for -1.
unfoldable pub collect_leaves :
    (slot_hash : String)
    → List Slot
    → (leaves : List Bytes) → (target : Option ℕ) → Option (List Bytes × Option ℕ)
collect_leaves slot_hash [] leaves target = some (leaves, target)
collect_leaves slot_hash (slot ∷ slots) leaves target = elim (commitment_of slot) [
  | none ↦ none
  | some [] ↦ collect_leaves slot_hash slots leaves target
  | some (b ∷ bs) ↦
      collect_leaves slot_hash slots (leaves ++ (b ∷ bs) ∷ [])
        (if slot.slot_id == slot_hash then some (length leaves) else target)
]

pub record MerkleAnswer : Type 0 where
  pub slot_hash : String
  pub leaf : String
  pub merkle_root : String
  pub proof : List ProofPair
  pub verified : Bool
  pub leaves_count : ℕ
  pub target_index : ℕ

pub data Answer (P : Type 0) : Type 0 where
  merkle_answer : MerkleAnswer → Answer P
  verkle_answer : (slot_hash : String) → P → (verified : Bool) → Answer P

-- A tree of either kind.
pub data Validatable (V : Type 0) : Type 0 where
  merkle_tree : Levels → Validatable V
  verkle_tree : V → Validatable V

module _ (sha256 : Bytes → Bytes) {V P : Type 0} (verkle_build : List Bytes → String ⊎ V)
    (verkle_proof : V → ℕ → Option P) where
  -- NewValidatable, with the error of Build on the left.
  unfoldable pub new_validatable : List Bytes → StructType → String ⊎ Validatable V
  new_validatable leaves merkle = elim (build sha256 leaves) [
    | none ↦ inl "no leaves"
    | some tree ↦ inr (merkle_tree tree)
  ]
  new_validatable leaves verkle = elim (verkle_build leaves) [
    | inl message ↦ inl message
    | inr tree ↦ inr (verkle_tree tree)
  ]

  -- The last part of GenerateResponse, with the panics on an index out of range as `none`.
  abbrev pub answer_of :
      (slot_hash : String) → List Bytes → (target : ℕ) → Validatable V → Option (Answer P)
  answer_of slot_hash leaves target (merkle_tree tree) = elim (get_proof tree target) [
    | none ↦ none
    | some proof ↦ elim (get_elem? leaves target) [
      | none ↦ none
      | some leaf ↦ elim (top_node tree) [
        | none ↦ none
        | some root ↦ some (
            merkle_answer (record {
              slot_hash = slot_hash;
              leaf = "0x" <> hex leaf;
              merkle_root = "0x" <> hex root;
              proof = proof;
              verified = true;
              leaves_count = length leaves;
              target_index = target;
            }))
      ]
    ]
  ]
  answer_of slot_hash leaves target (verkle_tree tree) = elim (verkle_proof tree target) [
    | none ↦ none
    | some proof ↦ some (verkle_answer slot_hash proof true)
  ]

  -- GenerateResponse: `none` is a panic.
  unfoldable pub generate_response :
      (slot_hash : String) → StructType → List Slot → Option (Response (Answer P))
  unfolding new_validatable
  generate_response slot_hash type slots = elim (collect_leaves slot_hash slots [] none) [
    | none ↦ none
    | some (leaves, none) ↦
        some (error_response slot_life_error "target slot not found or no valid commitments")
    | some (leaves, some target) ↦ elim (new_validatable leaves type) [
      | inl message ↦ some (error_response runtime_error message)
      | inr tree ↦ elim (answer_of slot_hash leaves target tree) [
        | none ↦ none
        | some answer ↦ some (success_response answer)
      ]
    ]
  ]
