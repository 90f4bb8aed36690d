-- ===== src/Collector/Gather.antt =====
-- Collector/instance.go, Collector/recover.go, ErasureDecoder/decoder.go: the data of the slots that were
-- chosen is asked for, slot by slot, and put together. Parameters are: the signatures; the transformer,
-- which parses JSON into a data frame or a list of graphs, and how two of these are joined; and the
-- Reed-Solomon code. The output type is one of the two that are known. An output is `none` where Go has nil. The responses are a stream in the order of
-- the channel; what comes after its end never comes.
use rappa_master.Base.Assoc.{Assoc, lookup, insert}
use rappa_master.Base.Bytes.{Bytes}
use rappa_master.Base.{
  ℕ, zero, suc, ◌-◌, String, string_eq, ℤ, pos, negsuc, int_beq, ltb_ℤ, Option, none, some, List,
  [], ◌∷◌, ◌++◌, length, get_elem?, set, take, ltb, if◌then◌else◌, ◌==◌,
}
use rappa_master.Paradigm.Model.{SlotHash}
use rappa_master.Collector.{CollectSlotItem}

pub record Chunk : Type 0 where
  pub hash : SlotHash
  pub row : ℤ
  pub col : ℤ
  pub chunk : Bytes

pub record SlotRecover : Type 0 where
  pub slot_hash : SlotHash
  pub chunks : List (List Chunk)
  pub k : ℕ
  pub n : ℕ
  pub padding_size : List ℤ
  pub store_method : ℤ
  pub data_hash : Bytes
  pub sign : String
  pub node_id : ℤ
  pub node_sign : String

abbrev pub new_slot_recover : (k n : ℕ) → CollectSlotItem → SlotRecover
new_slot_recover k n slot = record {
  slot_hash = slot.hash;
  chunks = [];
  k = k;
  n = n;
  padding_size = slot.padding_size;
  store_method = slot.store_method;
  data_hash = [];
  sign = slot.sign;
  node_id = slot.node_id;
  node_sign = slot.node_sign;
}

-- The loop that appends empty rows until there are `rows`; at most `fuel` are missing.
unfoldable pub pad_rows : (fuel rows : ℕ) → List (List Chunk) → List (List Chunk)
pad_rows zero rows chunks = chunks
pad_rows (suc fuel) rows chunks =
    let more = pad_rows fuel rows (chunks ++ [] ∷ []) in
    if ltb (length chunks) rows then more else chunks

-- Add: `none` is a panic, on another slot or on a negative row.
unfoldable pub add : Chunk → SlotRecover → Option SlotRecover
add c r = elim c.row [
  | negsuc _ ↦ none
  | pos row ↦
      let chunks = pad_rows (suc row) (suc row) r.chunks in
      if c.hash == r.slot_hash
      then elim (get_elem? chunks row) [
        | none ↦ none
        | some old ↦ some (record r {
          chunks = set chunks row (old ++ c ∷ []);
          data_hash = r.data_hash ++ c.chunk;
        })
      ]
      else none
]

-- The loop over the chunks of a response: one of a slot that was not asked for is only logged.
unfoldable pub add_chunks :
    List Chunk → Assoc SlotHash SlotRecover → Option (Assoc SlotHash SlotRecover)
add_chunks [] recovers = some recovers
add_chunks (c ∷ chunks) recovers = elim (lookup c.hash recovers) [
  | none ↦ add_chunks chunks recovers
  | some r ↦ elim (add c r) [
    | none ↦ none
    | some r' ↦ add_chunks chunks (insert c.hash r' recovers)
  ]
]

-- sort.Slice by Col, which leaves the order of equal ones open.
unfoldable pub place : Chunk → List Chunk → List Chunk
place c [] = c ∷ []
place c (d ∷ chunks) =
    let rest = place c chunks in if ltb_ℤ d.col c.col then d ∷ rest else c ∷ d ∷ chunks

unfoldable pub sort_chunks : List Chunk → List Chunk
sort_chunks [] = []
sort_chunks (c ∷ chunks) = place c (sort_chunks chunks)

-- processChunks of the erasure decoder: the outer `none` is a panic, the inner one an error.
unfoldable pub place_data :
    (row : ℤ) → List Chunk → List (Option Bytes) → Option (Option (List (Option Bytes)))
place_data row [] data_chunks = some (some data_chunks)
place_data row (c ∷ chunks) data_chunks =
    if int_beq c.row row
    then elim c.col [
      | negsuc _ ↦ none
      | pos col ↦ elim (get_elem? data_chunks col) [
        | none ↦ none
        | some _ ↦ place_data row chunks (set data_chunks col (some c.chunk))
      ]
    ]
    else some none

abbrev pub blanks : ℕ → List (Option Bytes)
blanks zero = []
blanks (suc n) = none ∷ blanks n

abbrev pub joined : List Bytes → Bytes
joined [] = []
joined (b ∷ bytes) = b ++ joined bytes

module _ (reconstruct : (k m : ℕ) → List (Option Bytes) → Option (List Bytes)) where
  -- Decode: the first `k` chunks after the reconstruction. A code with fewer than no parity chunks is
  -- refused.
  unfoldable pub decode : (k n : ℕ) → List Chunk → Option (Option Bytes)
  decode k n [] = some none
  decode k n (c ∷ chunks) =
      if ltb n (length (c ∷ chunks))
      then some none
      else elim (place_data c.row (c ∷ chunks) (blanks n)) [
        | none ↦ none
        | some none ↦ some none
        | some (some data_chunks) ↦
            if ltb n k then some none else elim (reconstruct k (n - k) data_chunks) [
              | none ↦ some none
              | some all ↦ some (some (joined (take k all)))
            ]
      ]

  -- recoverRowChunk: the bytes are empty where it gives an error. The padding must fit, or the slicing
  -- panics; so do the other store methods.
  unfoldable pub recover_row_chunk : List Chunk → (row : ℕ) → SlotRecover → Option Bytes
  unfolding decode sort_chunks
  recover_row_chunk chunks row r =
      if int_beq r.store_method (pos 1)
      then elim chunks [
        | [] ↦ some []
        | c ∷ rest ↦ elim rest [ [] ↦ some c.chunk | _ ∷ _ ↦ some [] ]
      ]
      else if int_beq r.store_method (pos 3)
      then elim (get_elem? r.padding_size row) [
        | none ↦ none
        | some padding ↦ elim (decode r.k r.n (sort_chunks chunks)) [
          | none ↦ none
          | some none ↦ some []
          | some (some bytes) ↦ elim padding [
            | negsuc _ ↦ none
            | pos p ↦ if ltb (length bytes) p then none else some (take (length bytes - p) bytes)
          ]
        ]
      ]
      else none

  module _ {T : Type 0} (transform : Bytes → Option T) (concat : T → T → T) where
    -- The loop of merge over the outputs behind the first.
    unfoldable pub merge_with : T → List (Option T) → T
    merge_with merged [] = merged
    merge_with merged (none ∷ outputs) = merge_with merged outputs
    merge_with merged (some next ∷ outputs) = merge_with (concat merged next) outputs

    -- merge
    unfoldable pub merge : List (Option T) → Option T
    merge [] = none
    merge (none ∷ outputs) = none
    merge (some first ∷ outputs) = some (merge_with first outputs)

    -- The loop of Recover over the rows; an empty row is only logged.
    unfoldable pub recover_rows :
        List (List Chunk) → (row : ℕ) → SlotRecover → Option (List (Option T))
    recover_rows [] row r = some []
    recover_rows ([] ∷ rows) row r = recover_rows rows (suc row) r
    recover_rows ((c ∷ chunks) ∷ rows) row r = elim (recover_row_chunk (c ∷ chunks) row r) [
      | none ↦ none
      | some bytes ↦ elim (recover_rows rows (suc row) r) [
        | none ↦ none
        | some outputs ↦ some (transform bytes ∷ outputs)
      ]
    ]

    -- Recover
    unfoldable pub recover : SlotRecover → Option (Option T)
    recover r = elim (recover_rows r.chunks 0 r) [
      | none ↦ none
      | some outputs ↦ some (merge outputs)
    ]
