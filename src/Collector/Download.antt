-- ===== src/Collector/Download.antt =====
-- Collector/instance.go, Collect: the goroutine that writes the data of the chosen slots into the pipe.
use rappa_master.Base.Assoc.{Assoc, lookup, insert}
use rappa_master.Base.Bytes.{Bytes}
use rappa_master.Base.{
  ℕ, zero, suc, String, string_eq, ℤ, pos, negsuc, int_beq, Bool, Option, none, some, List, [], ◌∷◌,
  map, if◌then◌else◌,
}
use rappa_master.Paradigm.Model.{SlotHash}
use rappa_master.Collector.{CollectSlotItem}
use rappa_master.Collector.Gather.{Chunk, SlotRecover, new_slot_recover, add_chunks, merge, recover}

-- The loop that starts a recovery for each slot.
unfoldable pub start_recovers :
    (k n : ℕ) → List CollectSlotItem → Assoc SlotHash SlotRecover → Assoc SlotHash SlotRecover
start_recovers k n [] recovers = recovers
start_recovers k n (slot ∷ slots) recovers =
    start_recovers k n slots (insert slot.hash (new_slot_recover k n slot) recovers)

-- How many responses a connection waits for: a slot that is not stored with its node is asked for from
-- all nodes, and so is one whose node is -1.
unfoldable pub expected : (num_nodes : ℕ) → SlotRecover → ℕ
expected num_nodes r =
    if int_beq r.store_method (pos 1)
    then if int_beq r.node_id (negsuc 0) then num_nodes else 1
    else num_nodes

-- A stage ends, or waits for a response for ever, or panics.
pub data Stage {ℓ} (A : Type ℓ) : Type ℓ where
  waits_forever : Stage A
  panics : Stage A
  ends : A → Stage A

-- The responses that are left, and the recoveries.
abbrev pub Progress : Type 0
Progress = List (List Chunk) × Assoc SlotHash SlotRecover

-- The inner loop: `count` responses.
unfoldable pub receive : (count : ℕ) → Progress → Stage Progress
receive zero p = ends p
receive (suc count) ([], recovers) = waits_forever
receive (suc count) (response ∷ responses, recovers) = elim (add_chunks response recovers) [
  | none ↦ panics
  | some recovers' ↦ receive count (responses, recovers')
]

-- The loop over the connections; the number of responses is fixed at the start.
unfoldable pub gather : (num_nodes : ℕ) → List ℕ → Progress → Stage Progress
gather num_nodes [] p = ends p
gather num_nodes (count ∷ counts) p = elim (receive count p) [
  | waits_forever ↦ waits_forever
  | panics ↦ panics
  | ends p' ↦ gather num_nodes counts p'
]

-- The connections, by the number of responses that they wait for.
unfoldable pub counts_of :
    (num_nodes : ℕ) → List SlotHash → Assoc SlotHash SlotRecover → Option (List ℕ)
counts_of num_nodes [] recovers = some []
counts_of num_nodes (hash ∷ hashes) recovers = elim (lookup hash recovers) [
  | none ↦ none
  | some r ↦ elim (counts_of num_nodes hashes recovers) [
    | none ↦ none
    | some counts ↦ some (expected num_nodes r ∷ counts)
  ]
]

module _ (reconstruct : (k m : ℕ) → List (Option Bytes) → Option (List Bytes)) {T : Type 0}
    (transform : Bytes → Option T) (concat : T → T → T)
    (verify : (node_id : ℤ) → (content : Bytes) → (sign : String) → Bool) where
  -- The loop that recovers the slots; one whose signature is not valid is left out.
  unfoldable pub recover_all : List SlotHash → Assoc SlotHash SlotRecover → Option (List (Option T))
  recover_all [] recovers = some []
  recover_all (hash ∷ hashes) recovers = elim (lookup hash recovers) [
    | none ↦ none
    | some r ↦
        if verify r.node_id r.data_hash r.node_sign
        then elim (recover reconstruct transform concat r) [
          | none ↦ none
          | some output ↦ elim (recover_all hashes recovers) [
            | none ↦ none
            | some outputs ↦ some (output ∷ outputs)
          ]
        ]
        else recover_all hashes recovers
  ]

  -- Collect: what is put together, with `none` where the pipe is closed without data.
  unfoldable pub collect :
      (k n num_nodes : ℕ)
      → List CollectSlotItem
      → (responses : List (List Chunk)) → Stage (Option T)
  collect k n num_nodes slots responses =
      let hashes = map (λ slot. slot.hash) slots in
      let recovers = start_recovers k n slots [] in
      elim (counts_of num_nodes hashes recovers) [
        | none ↦ panics
        | some counts ↦ elim (gather num_nodes counts (responses, recovers)) [
          | waits_forever ↦ waits_forever
          | panics ↦ panics
          | ends (_, recovers') ↦ elim (recover_all hashes recovers') [
            | none ↦ panics
            | some outputs ↦ ends (merge reconstruct transform concat outputs)
          ]
        ]
      ]
