-- ===== src/Collector/Arrival.antt =====
-- The responses of the nodes of slots that are stored with them, one after the other.
use rappa_master.Base.Assoc.{Assoc, lookup, insert, lookup-insert}
use rappa_master.Base.{
  ℕ, string_eq, pos, negsuc, int_eq, int_beq, false, Option, some, List, [], ◌∷◌, map,
  if◌then◌else◌, ◌==◌, ==_refl, ==_ne, ◌≡◌, refl, sym, ◌∙◌, All, All-map,
}
use rappa_master.Paradigm.Model.{SlotHash}
use rappa_master.Collector.Gather.{SlotRecover, new_slot_recover, joined}
use rappa_master.Collector.Download.{start_recovers, expected, ends, receive, gather, counts_of}
use rappa_master.Collector.Rows.{Delivery, response_of, rows_from, filled, add_chunks-filled}

abbrev pub ones : List Delivery → List ℕ
ones ds = map (λ d. 1) ds

-- No slot has this hash.
abbrev pub IsApart : SlotHash → List Delivery → Type 0
IsApart hash ds = All (λ d. (hash == d.slot.hash) ≡ false) ds

apart_sym :
    (hash : SlotHash) (ds : List Delivery)
    → IsApart hash ds
    → All (λ d. (d.slot.hash == hash) ≡ false) ds
apart_sym hash ds apart =
    All-map
      (λ d ne. ==_ne d.slot.hash hash (λ p. cc ((string_eq.same_iff hash d.slot.hash).1 (sym p))))
      ds apart

abbrev pub HasDistinctHashes : List Delivery → Type 0
HasDistinctHashes [] = Unit
HasDistinctHashes (d ∷ ds) = IsApart d.slot.hash ds × HasDistinctHashes ds

-- Stored with its node, which is not the node -1.
abbrev pub IsLocal : Delivery → Type 0
IsLocal d = (d.slot.store_method ≡ pos 1) × (int_beq d.slot.node_id (negsuc 0) ≡ false)

module _ (k n : ℕ) where
  abbrev pub IsNew : Assoc SlotHash SlotRecover → Delivery → Type 0
  IsNew recovers d = lookup d.slot.hash recovers ≡ some (new_slot_recover k n d.slot)

  -- The recovery of a slot with all its rows.
  abbrev pub done_of : Delivery → SlotRecover
  done_of d =
      filled (new_slot_recover k n d.slot) (rows_from d.slot.hash 0 d.parts) (joined d.parts)

  abbrev pub IsDone : Assoc SlotHash SlotRecover → Delivery → Type 0
  IsDone recovers d = lookup d.slot.hash recovers ≡ some (done_of d)

  -- A write under one hash leaves what is there under others.
  pub All-apart {κ} :
      (hash : SlotHash) (x : SlotRecover) (recovers recovers' : Assoc SlotHash SlotRecover)
      (P : Option SlotRecover → Delivery → Type κ) (ds : List Delivery)
      → ((other : SlotHash)
          → lookup other recovers' ≡ (if hash == other then some x else lookup other recovers))
      → IsApart hash ds
      → All (λ d. P (lookup d.slot.hash recovers) d) ds
      → All (λ d. P (lookup d.slot.hash recovers') d) ds
  All-apart hash x recovers recovers' P [] reads apart h = tt
  All-apart hash x recovers recovers' P (d ∷ ds) reads (ne, apart) (h, hs) =
      (rw (reads, ne) h, All-apart hash x recovers recovers' P ds reads apart hs)

  pub gather-IsDone :
      (num_nodes : ℕ) (ds : List Delivery) (recovers : Assoc SlotHash SlotRecover)
      → HasDistinctHashes ds
      → All (IsNew recovers) ds
      → (recovers' : Assoc SlotHash SlotRecover) × (gather num_nodes
            (ones ds)
            (map response_of ds, recovers)
          ≡ ends ([], recovers'))
        × All (IsDone recovers') ds
        × ((other : SlotHash)
            → All (λ d. (d.slot.hash == other) ≡ false) ds
            → lookup other recovers' ≡ lookup other recovers)
  unfolding gather receive
  gather-IsDone num_nodes [] recovers distinct h = (recovers, refl, tt, λ other apart. refl)
  gather-IsDone num_nodes (d ∷ ds) recovers (apart, distinct) (h, hs) =
      let (middle, runs, reads) =
        add_chunks-filled d.parts (new_slot_recover k n d.slot) recovers h in
      let hs' =
        All-apart d.slot.hash (done_of d) recovers middle
          (λ found e. found ≡ some (new_slot_recover k n e.slot)) ds reads apart hs in
      let (recovers', ends', dones, keeps) = gather-IsDone num_nodes ds middle distinct hs' in
      (
        recovers',
        rw (gather, receive, runs, receive) ends',
        (
          keeps d.slot.hash (apart_sym d.slot.hash ds apart) ∙ rw (reads, ==_refl d.slot.hash) refl,
          dones,
        ),
        λ other (ne, nes). keeps other nes ∙ rw (reads, ne) refl,
      )

  start_recovers-keeps :
      (ds : List Delivery) (recovers : Assoc SlotHash SlotRecover) (other : SlotHash)
      → All (λ d. (d.slot.hash == other) ≡ false) ds
      → lookup other (start_recovers k n (map (λ d. d.slot) ds) recovers) ≡ lookup other recovers
  unfolding start_recovers
  start_recovers-keeps [] recovers other apart = refl
  start_recovers-keeps (d ∷ ds) recovers other (ne, apart) =
      start_recovers-keeps ds (insert d.slot.hash (new_slot_recover k n d.slot) recovers) other
        apart
      ∙ rw (lookup-insert, ne) refl

  pub start_recovers-IsNew :
      (ds : List Delivery) (recovers : Assoc SlotHash SlotRecover)
      → HasDistinctHashes ds
      → All (IsNew (start_recovers k n (map (λ d. d.slot) ds) recovers)) ds
  unfolding start_recovers
  start_recovers-IsNew [] recovers distinct = tt
  start_recovers-IsNew (d ∷ ds) recovers (apart, distinct) =
      let next = insert d.slot.hash (new_slot_recover k n d.slot) recovers in
      (
        start_recovers-keeps ds next d.slot.hash (apart_sym d.slot.hash ds apart)
            ∙ rw (lookup-insert, ==_refl d.slot.hash) refl,
        start_recovers-IsNew ds next distinct,
      )

  pub counts_of-ones :
      (num_nodes : ℕ) (ds : List Delivery) (recovers : Assoc SlotHash SlotRecover)
      → All IsLocal ds
      → All (IsNew recovers) ds
      → counts_of num_nodes (map (λ slot. slot.hash) (map (λ d. d.slot) ds)) recovers
        ≡ some (ones ds)
  unfolding counts_of expected
  counts_of-ones num_nodes [] recovers local new = refl
  counts_of-ones num_nodes (d ∷ ds) recovers ((store, node), local) (h, hs) =
      rw (counts_of, h, counts_of-ones num_nodes ds recovers local hs, expected, store, node) refl
