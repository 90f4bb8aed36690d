-- ===== src/Examples/Chaining.antt =====
-- The chain upper.
use rappa_master.Base.{◌≡◌, refl, negsuc, true, false, some, List, [], ◌∷◌, ◌++◌}
use rappa_master.Paradigm.Commit.{justified, no_reason}
use rappa_master.Chain.{
  Transaction, task_process_transaction, ChainUpper, new_chain_upper, check, up_chain, receive, up,
  run,
}
use rappa_master.Chain.Queue.{checked, run-queue}
use rappa_master.Examples.Data.{slot_of}

abbrev good : Transaction
good = task_process_transaction (record {
  commit_slot_item = record {
    justified_slot = some (slot_of 5);
    state = justified;
    hash = "good";
    invalid_type = no_reason;
  };
  signatures = [];
})

-- A slot with a negative amount.
abbrev bad : Transaction
bad = task_process_transaction (record {
  commit_slot_item = record {
    justified_slot = some (record (slot_of 5) { process = negsuc 0 });
    state = justified;
    hash = "bad";
    invalid_type = no_reason;
  };
  signatures = [];
})

run-queue_example :
    (c : ChainUpper) × (c' : ChainUpper) × (had : List Transaction) × (new : List Transaction)
    × (run (receive good ∷ up ∷ receive bad ∷ []) new_chain_upper ≡ some c)
    × (had ++ new ≡ good ∷ bad ∷ [])
    × (c.queue ≡ checked had)
    × (up_chain c ≡ some c')
    × (c'.queue ≡ good ∷ [])
unfolding check
run-queue_example =
    run-queue (receive good ∷ up ∷ receive bad ∷ []) ((true, refl), ((false, refl), tt))
