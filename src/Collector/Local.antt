-- ===== src/Collector/Local.antt =====
-- Slots that are stored with their nodes come back as they were.
use rappa_master.Base.Assoc.{Assoc}
use rappa_master.Base.Bytes.{Bytes}
use rappa_master.Base.{
  ℕ, suc, String, string_eq, ℤ, pos, int_eq, Bool, true, Option, none, some, List, [], ◌∷◌, map,
  ◌≡◌, refl, ap, All,
}
use rappa_master.Paradigm.Model.{SlotHash}
use rappa_master.Collector.Gather.{
  SlotRecover, joined, recover_row_chunk, merge_with, merge, recover_rows, recover,
}
use rappa_master.Collector.Download.{start_recovers, ends, recover_all, collect}
use rappa_master.Collector.Rows.{Delivery, response_of, rows_from}
use rappa_master.Collector.Arrival.{
  HasDistinctHashes, IsLocal, done_of, IsDone, gather-IsDone, start_recovers-IsNew, counts_of-ones,
}

-- The outputs that are there.
abbrev pub present : {T : Type 0} → List (Option T) → List T
present [] = []
present (none ∷ outputs) = present outputs
present (some output ∷ outputs) = output ∷ present outputs

abbrev pub concat_all : {T : Type 0} → (T → T → T) → T → List T → T
concat_all concat first [] = first
concat_all concat first (next ∷ outputs) = concat_all concat (concat first next) outputs

-- Nothing, if the first output is missing; otherwise all that are there, in order.
abbrev pub put_together : {T : Type 0} → (T → T → T) → List (Option T) → Option T
put_together concat [] = none
put_together concat (none ∷ outputs) = none
put_together concat (some first ∷ outputs) = some (concat_all concat first (present outputs))

module _ (k n : ℕ) where
  module _ (reconstruct : (k m : ℕ) → List (Option Bytes) → Option (List Bytes)) {T : Type 0}
      (transform : Bytes → Option T) (concat : T → T → T)
      (verify : (node_id : ℤ) → (content : Bytes) → (sign : String) → Bool) where
    merge_with-concat_all :
        (first : T) (outputs : List (Option T))
        → merge_with reconstruct transform concat first outputs
          ≡ concat_all concat first (present outputs)
    unfolding merge_with
    merge_with-concat_all first [] = refl
    merge_with-concat_all first (none ∷ outputs) = merge_with-concat_all first outputs
    merge_with-concat_all first (some next ∷ outputs) =
        merge_with-concat_all (concat first next) outputs

    merge-put_together :
        (outputs : List (Option T))
        → merge reconstruct transform concat outputs ≡ put_together concat outputs
    unfolding merge
    merge-put_together [] = refl
    merge-put_together (none ∷ outputs) = refl
    merge-put_together (some first ∷ outputs) = ap some (merge_with-concat_all first outputs)

    recover_rows-local :
        (parts : List Bytes) (row : ℕ) (hash : SlotHash) (r : SlotRecover)
        → r.store_method ≡ pos 1
        → recover_rows reconstruct transform concat (rows_from hash row parts) row r
          ≡ some (map transform parts)
    unfolding recover_rows recover_row_chunk
    recover_rows-local [] row hash r h = refl
    recover_rows-local (part ∷ parts) row hash r h =
        rw (recover_rows, recover_row_chunk, h, recover_rows-local parts (suc row) hash r h) refl

    -- The output of one slot: its rows, in order.
    abbrev pub output_of : Delivery → Option T
    output_of d = put_together concat (map transform d.parts)

    -- The signature of the node over all its rows.
    abbrev pub IsSigned : Delivery → Type 0
    IsSigned d = verify d.slot.node_id (joined d.parts) d.slot.node_sign ≡ true

    recover_all-outputs :
        (ds : List Delivery) (recovers : Assoc SlotHash SlotRecover)
        → All IsLocal ds
        → All IsSigned ds
        → All (IsDone k n recovers) ds
        → recover_all reconstruct transform concat verify
            (map (λ slot. slot.hash) (map (λ d. d.slot) ds))
            recovers
          ≡ some (map output_of ds)
    unfolding recover_all recover
    recover_all-outputs [] recovers local signed dones = refl
    recover_all-outputs (d ∷ ds) recovers ((store, node), local) (sign, signed) (h, hs) =
        rw
          (
            recover_all,
            h,
            sign,
            recover,
            recover_rows-local d.parts 0 d.slot.hash (done_of k n d) store,
            recover_all-outputs ds recovers local signed hs,
          )
          (ap (λ output. some (output ∷ map output_of ds))
            (merge-put_together (map transform d.parts)))

    -- A download of slots with distinct hashes that are stored with their nodes: when each node has
    -- answered, in the order of the requests, with the rows of its slot, each row once and in order, and
    -- its signature over all these rows is valid, then the collector neither panics nor waits. The
    -- output of a slot is missing if it has no rows or its first row does not parse; otherwise it is the
    -- concatenation of its rows that parse, in order. What is put together is nothing if there are no
    -- slots or the output of the first one is missing, and otherwise the concatenation of the outputs
    -- that are not missing, in order.
    pub collect-output_of :
        (num_nodes : ℕ) (ds : List Delivery)
        → HasDistinctHashes ds
        → All IsLocal ds
        → All IsSigned ds
        → collect reconstruct transform concat verify k n num_nodes
            (map (λ d. d.slot) ds)
            (map response_of ds)
          ≡ ends (put_together concat (map output_of ds))
    unfolding collect
    collect-output_of num_nodes ds distinct local signed =
        let recovers = start_recovers k n (map (λ d. d.slot) ds) [] in
        let new = start_recovers-IsNew k n ds [] distinct in
        let (recovers', runs, dones, _) = gather-IsDone k n num_nodes ds recovers distinct new in
        rw
          (
            collect,
            counts_of-ones k n num_nodes ds recovers local new,
            runs,
            recover_all-outputs ds recovers' local signed dones,
            merge-put_together (map output_of ds),
          )
          refl
