-- ===== src/Chain.antt =====
-- ChainUpper/chainupper.go: the pool of transactions and UpChain, which passes the new ones on to the
-- workers that put them on the chain. The queue is the list of all transactions that it got.
pub mod Keys
pub mod Reading
pub mod Collision
pub mod Queue
pub mod Contract
pub mod Store
pub mod Words
use rappa_master.Base.{
  ℕ, ℤ, pos, ltb_ℤ, Bool, true, false, Option, none, some, List, [], ◌∷◌, ◌++◌, length, drop,
  nat_beq, if◌then◌else◌,
}
use rappa_master.Task.{Task}
use rappa_master.Epoch.{TaskProcessTransaction, EpochRecordTransaction}

pub data Transaction : Type 0 where
  init_task_transaction : Task → Transaction
  task_process_transaction : TaskProcessTransaction → Transaction
  epoch_record_transaction : EpochRecordTransaction → Transaction

pub record ChainUpper : Type 0 where
  pub transaction_pool : List Transaction
  pub unprocessed_index : ℕ
  pub queue : List Transaction

abbrev pub new_chain_upper : ChainUpper
new_chain_upper = record { transaction_pool = []; unprocessed_index = 0; queue = [] }

-- Whether the check lets a transaction pass; `none` is the nil pointer of a fake item.
unfoldable pub check : Transaction → Option Bool
check (init_task_transaction task) = some true
check (task_process_transaction tx) = elim tx.commit_slot_item.justified_slot [
  | none ↦ none
  | some j ↦ some (if ltb_ℤ j.process (pos 0) then false else true)
]
check (epoch_record_transaction tx) = some true

-- The loop over the packed transactions, which passes on those that the check lets pass.
unfoldable pub push_all : List Transaction → List Transaction → Option (List Transaction)
unfolding check
push_all [] queue = some queue
push_all (tx ∷ packed) queue = elim (check tx) [
  | none ↦ none
  | some passes ↦ push_all packed (if passes then queue ++ tx ∷ [] else queue)
]

-- pack: the transactions from the index on, and the index moved to the end.
unfoldable pub pack : ChainUpper → ChainUpper × List Transaction
pack c = if nat_beq c.unprocessed_index (length c.transaction_pool) then (c, []) else (
  record c { unprocessed_index = length c.transaction_pool },
  drop c.unprocessed_index c.transaction_pool,
)

unfoldable pub up_chain : ChainUpper → Option ChainUpper
unfolding pack push_all
up_chain c =
    let (c', packed) = pack c in
    elim (push_all packed c'.queue) [
      | none ↦ none
      | some queue ↦ some (record c' { queue = queue })
    ]

-- A transaction that comes in, or a turn of UpChain; in Start a lock keeps them apart.
pub data Turn : Type 0 where
  receive : Transaction → Turn
  up : Turn

unfoldable pub run : List Turn → ChainUpper → Option ChainUpper
unfolding up_chain
run [] c = some c
run (receive tx ∷ turns) c =
    run turns (record c { transaction_pool = c.transaction_pool ++ tx ∷ [] })
run (up ∷ turns) c = elim (up_chain c) [ none ↦ none | some c' ↦ run turns c' ]
