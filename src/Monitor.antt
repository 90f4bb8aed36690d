-- ===== src/Monitor.antt =====
-- Monitor/monitor.go: the advice of the monitor on how to share a task among the nodes.
pub mod Advice
pub mod Log
pub mod Standing
pub mod Status
use rappa_master.Base.{
  ℕ, zero, suc, ◌+◌, ℤ, pos, ltb_ℤ, int_beq, add_i32, div_i32, mod_i32, Bool, true, false, Option,
  none, some, List, [], ◌∷◌, if◌then◌else◌,
}

pub record AdviceResponse : Type 0 where
  pub node_ids : List ℤ
  pub schedule_size : List ℤ

-- The share of one node.
unfoldable pub advice_size : (size slot_size : ℤ) → ℕ → ℤ
unfolding div_i32
advice_size size slot_size n =
    let even = div_i32 size n in
    let capped = if ltb_ℤ slot_size even then slot_size else even in
    if int_beq capped (pos 0) then pos 1 else capped

-- The loop over the nodes, `left` of them to come.
unfoldable pub fill_nodes : ℕ → ℕ → List ℤ
fill_nodes i zero = []
fill_nodes i (suc left) = pos i ∷ fill_nodes (i + 1) left

unfoldable pub fill_sizes : ℤ → ℕ → List ℤ
fill_sizes z zero = []
fill_sizes z (suc left) = z ∷ fill_sizes z left

-- `n` is the number of nodes. `none` is the panic on an empty list of nodes.
unfoldable pub advice : ℕ → (size slot_size : ℤ) → Option AdviceResponse
unfolding advice_size fill_nodes fill_sizes mod_i32
advice zero size slot_size = none
advice (suc n) size slot_size =
    let share = advice_size size slot_size (suc n) in
    some (record {
      node_ids = fill_nodes 0 (suc n);
      schedule_size = add_i32 share (mod_i32 size (suc n)) ∷ fill_sizes share n;
    })
