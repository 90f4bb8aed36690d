-- ===== src/Schedule/Nodes.antt =====
-- A schedule's map of nodes leads from a node to the slot that is meant for it.
use rappa_master.Base.Assoc.{Assoc, lookup, insert, lookup-insert}
use rappa_master.Base.{
  ℕ, zero, suc, ◌+◌, ◌≡◌, refl, ap, ◌∙◌, ℤ, int_eq, wrap_i32, false, some, List, [], ◌∷◌, arith,
  get_elem?, ==_refl, ◌==◌,
}
use rappa_master.Paradigm.Model.{TaskHash, SlotHash}
use rappa_master.Paradigm.Slot.{new_slot}
use rappa_master.Paradigm.Track.{UnprocessedTask}
use rappa_master.Schedule.{
  Indices, index_of, advance_index, make_slots, make_node_id_map, generate_synth_schedule,
}

abbrev pub IsAbsent : ℤ → List ℤ → Type 0
IsAbsent j [] = Unit
IsAbsent j (n ∷ ns) = ((n == j) ≡ false) × IsAbsent j ns

abbrev pub IsUnique : List ℤ → Type 0
IsUnique [] = Unit
IsUnique (n ∷ ns) = IsAbsent n ns × IsUnique ns

lookup-make_node_id_map_absent :
    (j : ℤ) (i : ℕ) (ns : List ℤ) (m : Assoc ℤ ℕ)
    → IsAbsent j ns
    → lookup j (make_node_id_map i ns m) ≡ lookup j m
unfolding make_node_id_map
lookup-make_node_id_map_absent j i [] m a = refl
lookup-make_node_id_map_absent j i (n ∷ ns) m a =
    lookup-make_node_id_map_absent j (i + 1) ns (insert n i m) a.1 ∙ rw (lookup-insert n j i m, a.0)

lookup-make_node_id_map :
    (n : ℤ) (i k : ℕ) (ns : List ℤ) (m : Assoc ℤ ℕ)
    → IsUnique ns
    → get_elem? ns k ≡ some n
    → lookup n (make_node_id_map i ns m) ≡ some (i + k)
unfolding make_node_id_map
lookup-make_node_id_map n i k [] m u h = cc
lookup-make_node_id_map n i zero (n' ∷ ns) m u h =
    let e : n' ≡ n = ground arith in
    rw (← e) (
      lookup-make_node_id_map_absent n' (i + 1) ns (insert n' i m) u.0
      ∙ rw (lookup-insert n' n' i m, ==_refl n') (ap some (omega arith)))
lookup-make_node_id_map n i (suc k) (n' ∷ ns) m u h =
    lookup-make_node_id_map n (i + 1) k ns (insert n' i m) u.1 h ∙ ap some (omega arith)

module _ (slot_hash : TaskHash → ℤ → ℤ → SlotHash) where
  get_elem?-make_slots :
      (t : TaskHash) (h s n z : ℤ) (k : ℕ) (ns zs : List ℤ)
      → get_elem? ns k ≡ some n
      → get_elem? zs k ≡ some z
      → get_elem? (make_slots slot_hash t h s ns zs) k
        ≡ some (new_slot (slot_hash t (wrap_i32 h) n) t (wrap_i32 s) z)
  unfolding make_slots
  get_elem?-make_slots t h s n z k [] zs p q = cc
  get_elem?-make_slots t h s n z k (n' ∷ ns) [] p q = cc
  get_elem?-make_slots t h s n z zero (n' ∷ ns) (z' ∷ zs) p q = cc
  get_elem?-make_slots t h s n z (suc k) (n' ∷ ns) (z' ∷ zs) p q =
      get_elem?-make_slots t h s n z k ns zs p q

  -- Where the nodes of the advice are distinct, the schedule's map sends the k-th node to k, and
  -- the k-th slot is a fresh one with the node's hash and the size that the advice gives the node.
  pub generate_synth_schedule-node_id_map :
      (task : UnprocessedTask) (nids sizes : List ℤ) (m : Indices) (k : ℕ) (n z : ℤ)
      → IsUnique nids
      → get_elem? nids k ≡ some n
      → get_elem? sizes k ≡ some z
      → let t = task.task_id in
        let s = (generate_synth_schedule slot_hash task nids sizes m).0 in
        (lookup n s.node_id_map ≡ some k)
        × (get_elem? s.slots k
            ≡ some (
                new_slot
                  (slot_hash t (wrap_i32 (index_of t (advance_index t m))) n)
                  t
                  s.schedule_id
                  z))
  unfolding generate_synth_schedule
  generate_synth_schedule-node_id_map task nids sizes m k n z u p q = (
    lookup-make_node_id_map n 0 k nids [] u p ∙ ap some (omega arith),
    get_elem?-make_slots task.task_id _ _ n z k nids sizes p q,
  )
