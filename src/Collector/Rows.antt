-- ===== src/Collector/Rows.antt =====
-- What the rows of a slot, sent by its node, add to its recovery.
use rappa_master.Base.Assoc.{Assoc, lookup, insert, lookup-insert}
use rappa_master.Base.Bytes.{Bytes}
use rappa_master.Base.{
  ℕ, ◌≤◌, ◌+◌, zero, suc, string_eq, pos, int_eq, true, some, List, [], ◌∷◌, ◌++◌, append_assoc,
  append-nil, length, length-append, set, get_elem?-append_length, ltb, if◌then◌else◌, ◌==◌,
  ==_refl, ◌≡◌, refl, ap, Bool-cases, inl, inr, arith,
}
use rappa_master.Paradigm.Model.{SlotHash}
use rappa_master.Collector.{CollectSlotItem}
use rappa_master.Collector.Gather.{Chunk, SlotRecover, pad_rows, add, add_chunks, joined}

-- A slot, and the rows that its node kept.
pub record Delivery : Type 0 where
  pub slot : CollectSlotItem
  pub parts : List Bytes

abbrev chunk_at : SlotHash → ℕ → Bytes → Chunk
chunk_at hash row part = record { hash = hash; row = pos row; col = pos 0; chunk = part }

abbrev pub chunks_from : SlotHash → (row : ℕ) → List Bytes → List Chunk
chunks_from hash row [] = []
chunks_from hash row (part ∷ parts) = chunk_at hash row part ∷ chunks_from hash (suc row) parts

-- The response of the node of a slot.
abbrev pub response_of : Delivery → List Chunk
response_of d = chunks_from d.slot.hash 0 d.parts

abbrev pub rows_from : SlotHash → (row : ℕ) → List Bytes → List (List Chunk)
rows_from hash row [] = []
rows_from hash row (part ∷ parts) = (chunk_at hash row part ∷ []) ∷ rows_from hash (suc row) parts

set-append_length {ℓ} :
    {A : Type ℓ} (xs : List A) (a b : A) → set (xs ++ a ∷ []) (length xs) b ≡ xs ++ b ∷ []
set-append_length [] a b = refl
set-append_length (x ∷ xs) a b = ap (λ l. x ∷ l) (set-append_length xs a b)

-- With the fuel that `add` gives, the row of the chunk is there afterwards.
pad_rows_enough :
    (fuel rows : ℕ) (chunks : List (List Chunk))
    → rows ≤ length chunks + fuel
    → rows ≤ length (pad_rows fuel rows chunks)
unfolding pad_rows
pad_rows_enough zero rows chunks h = omega (arith, h)
pad_rows_enough (suc fuel) rows chunks h =
    let more = pad_rows_enough fuel rows (chunks ++ [] ∷ []) in
    ground (arith, h, more, length-append chunks ([] ∷ []))

pad_rows-length :
    (fuel : ℕ) (chunks : List (List Chunk)) → pad_rows fuel (length chunks) chunks ≡ chunks
unfolding pad_rows
pad_rows-length zero chunks = refl
pad_rows-length (suc fuel) chunks = ground arith

pad_rows_one :
    (fuel : ℕ) (chunks : List (List Chunk))
    → pad_rows (suc fuel) (suc (length chunks)) chunks ≡ chunks ++ [] ∷ []
unfolding pad_rows
pad_rows_one fuel chunks =
    let e : length (chunks ++ [] ∷ []) ≡ suc (length chunks) =
      omega (arith, length-append chunks ([] ∷ [])) in
    let less : ltb (length chunks) (suc (length chunks)) ≡ true = ground arith in
    rw (pad_rows, less, ← e) (pad_rows-length fuel (chunks ++ [] ∷ []))

-- A recovery with more rows.
abbrev pub filled : SlotRecover → List (List Chunk) → Bytes → SlotRecover
filled r rows content = record r { chunks = r.chunks ++ rows; data_hash = r.data_hash ++ content }

add_next :
    (r : SlotRecover) (part : Bytes)
    → add (chunk_at r.slot_hash (length r.chunks) part) r
      ≡ some (filled r ((chunk_at r.slot_hash (length r.chunks) part ∷ []) ∷ []) part)
unfolding add
add_next r part =
    rw
      (
        add,
        pad_rows_one (length r.chunks) r.chunks,
        ==_refl r.slot_hash,
        get_elem?-append_length r.chunks [],
        pad_rows_one (length r.chunks) r.chunks,
        set-append_length r.chunks [] (chunk_at r.slot_hash (length r.chunks) part ∷ []),
      )
      refl

reads_insert :
    (hash : SlotHash) (middle : SlotRecover) (recovers recovers' : Assoc SlotHash SlotRecover)
    (x y : SlotRecover)
    → x ≡ y
    → ((other : SlotHash)
        → lookup other recovers'
          ≡ (if hash == other then some x else lookup other (insert hash middle recovers)))
    → (other : SlotHash)
    → lookup other recovers' ≡ (if hash == other then some y else lookup other recovers)
reads_insert hash middle recovers recovers' x y e reads other = elim (Bool-cases (hash == other)) [
  | inl same ↦ rw (reads, same) (ap some e)
  | inr ne ↦ rw (reads, ne, lookup-insert, ne) refl
]

-- All the rows of a slot, into a recovery that has the rows before them.
pub add_chunks-filled :
    (parts : List Bytes) (r : SlotRecover) (recovers : Assoc SlotHash SlotRecover)
    → lookup r.slot_hash recovers ≡ some r
    → (recovers' : Assoc SlotHash SlotRecover) × (add_chunks
          (chunks_from r.slot_hash (length r.chunks) parts)
          recovers
        ≡ some recovers')
      × ((other : SlotHash)
          → lookup other recovers' ≡ (
              if r.slot_hash == other
              then some (filled r (rows_from r.slot_hash (length r.chunks) parts) (joined parts))
              else lookup other recovers))
unfolding add_chunks
add_chunks-filled [] r recovers h = (
  recovers,
  refl,
  λ other. elim (Bool-cases (r.slot_hash == other)) [
    | inl same ↦
        let e : r.slot_hash ≡ other = (string_eq.same_iff r.slot_hash other).0 same in
        rw (same, append-nil, append-nil) (rw (← e) h)
    | inr ne ↦ rw ne refl
  ],
)
add_chunks-filled (part ∷ parts) r recovers h =
    let row = chunk_at r.slot_hash (length r.chunks) part ∷ [] in
    let r' = filled r (row ∷ []) part in
    let n : length r'.chunks ≡ suc (length r.chunks) =
      omega (arith, length-append r.chunks (row ∷ [])) in
    let whole : filled r' (rows_from r.slot_hash (length r'.chunks) parts) (joined parts)
        ≡ filled r (rows_from r.slot_hash (length r.chunks) (part ∷ parts))
            (joined (part ∷ parts)) =
      rw (n, append_assoc r.chunks, append_assoc r.data_hash) refl in
    let found : lookup r.slot_hash (insert r.slot_hash r' recovers) ≡ some r' =
      rw (lookup-insert, ==_refl r.slot_hash) refl in
    let (recovers', runs, reads) =
      add_chunks-filled parts r' (insert r.slot_hash r' recovers) found in
    (
      recovers',
      rw (add_chunks, h, add_next r part) (rw n at runs),
      reads_insert r.slot_hash r' recovers recovers' _ _ whole reads,
    )
