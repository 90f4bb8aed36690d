-- ===== src/Collector/Waiting.antt =====
-- A node that does not answer.
use rappa_master.Base.Assoc.{Assoc}
use rappa_master.Base.Bytes.{Bytes}
use rappa_master.Base.{
  ℕ, String, string_eq, ℤ, int_eq, Bool, Option, some, List, [], ◌∷◌, ◌++◌, map, ◌≡◌, refl, All,
}
use rappa_master.Paradigm.Model.{SlotHash}
use rappa_master.Collector.Gather.{SlotRecover, new_slot_recover}
use rappa_master.Collector.Download.{start_recovers, waits_forever, receive, gather, collect}
use rappa_master.Collector.Rows.{Delivery, response_of, add_chunks-filled}
use rappa_master.Collector.Arrival.{
  ones, HasDistinctHashes, IsLocal, IsNew, done_of, All-apart, start_recovers-IsNew, counts_of-ones,
}

module _ (k n : ℕ) where
  gather-waits_forever :
      (num_nodes : ℕ) (answered : List Delivery) (silent : Delivery) (rest : List Delivery)
      (recovers : Assoc SlotHash SlotRecover)
      → HasDistinctHashes (answered ++ silent ∷ rest)
      → All (IsNew k n recovers) (answered ++ silent ∷ rest)
      → gather num_nodes (ones (answered ++ silent ∷ rest)) (map response_of answered, recovers)
        ≡ waits_forever
  unfolding gather receive
  gather-waits_forever num_nodes [] silent rest recovers distinct new = refl
  gather-waits_forever num_nodes (d ∷ ds) silent rest recovers (apart, distinct) (h, hs) =
      let (middle, runs, reads) =
        add_chunks-filled d.parts (new_slot_recover k n d.slot) recovers h in
      let hs' =
        All-apart k n d.slot.hash (done_of k n d) recovers middle
          (λ found e. found ≡ some (new_slot_recover k n e.slot)) (ds ++ silent ∷ rest) reads apart
          hs in
      rw (gather, receive, runs, receive)
        (gather-waits_forever num_nodes ds silent rest middle distinct hs')

  module _ (reconstruct : (k m : ℕ) → List (Option Bytes) → Option (List Bytes)) {T : Type 0}
      (transform : Bytes → Option T) (concat : T → T → T)
      (verify : (node_id : ℤ) → (content : Bytes) → (sign : String) → Bool) where
    -- A download of slots with distinct hashes that are stored with their nodes: if the nodes of the
    -- first slots have answered with all their rows and the node of the next one sends no response,
    -- then the collector waits for ever, and nothing of the slots that did arrive is put together.
    pub collect-waits_forever :
        (num_nodes : ℕ) (answered : List Delivery) (silent : Delivery) (rest : List Delivery)
        → HasDistinctHashes (answered ++ silent ∷ rest)
        → All IsLocal (answered ++ silent ∷ rest)
        → collect reconstruct transform concat verify k n num_nodes
            (map (λ d. d.slot) (answered ++ silent ∷ rest))
            (map response_of answered)
          ≡ waits_forever
    unfolding collect
    collect-waits_forever num_nodes answered silent rest distinct local =
        let ds = answered ++ silent ∷ rest in
        let recovers = start_recovers k n (map (λ d. d.slot) ds) [] in
        let new = start_recovers-IsNew k n ds [] distinct in
        rw
          (
            collect,
            counts_of-ones k n num_nodes ds recovers local new,
            gather-waits_forever num_nodes answered silent rest recovers distinct new,
          )
          refl
