-- ===== src/Chain/Contract.antt =====
-- ChainUpper/contract/storeData/StoreData.sol: the contract that keeps what the master puts on the
-- chain. A mapping reads zero values for a key that was not written; events are not modelled.
use rappa_master.Base.Assoc.{Assoc, lookup, insert}
use rappa_master.Base.{
  ℕ, ℤ, int_eq, Bool, false, Option, none, some, List, [], ◌∷◌, length, nat_beq, if◌then◌else◌,
}
use rappa_master.Base.Bytes.{Bytes, bytes_eq}
use rappa_master.Chain.Words.{copied}

pub record InitTask : Type 0 where
  pub name : Bytes
  pub size : ℕ
  pub model : Bytes
  pub is_reliable : Bool
  pub params : Bytes

pub record TaskProcess : Type 0 where
  pub sign : Bytes
  pub slot : ℕ
  pub process : ℕ
  pub id : ℕ
  pub epoch : ℕ
  pub hash : Bytes
  pub commitment : Bytes
  pub proof : Bytes
  pub signatures : List Bytes

pub record InvalidEntry : Type 0 where
  pub hash : Bytes
  pub reason : ℕ

pub record EpochEntry : Type 0 where
  pub justified : List Bytes
  pub commits : List Bytes
  pub invalids : List InvalidEntry

pub record StoreData : Type 0 where
  pub init_tasks : Assoc Bytes InitTask
  pub task_processes : Assoc Bytes TaskProcess
  pub epoch_records : Assoc ℤ EpochEntry

abbrev pub zero_word : Bytes
unfolding copied
zero_word = copied 32 []

unfoldable pub store_init_task : Bytes → InitTask → StoreData → StoreData
store_init_task sign t s = record s { init_tasks = insert sign t s.init_tasks }

unfoldable pub get_init_task : Bytes → StoreData → InitTask
get_init_task sign s = elim (lookup sign s.init_tasks) [
  | some t ↦ t
  | none ↦ record { name = []; size = 0; model = zero_word; is_reliable = false; params = [] }
]

-- storeTaskProcess: the struct goes to the key of its hash.
unfoldable pub store_task_process : TaskProcess → StoreData → StoreData
store_task_process t s = record s { task_processes = insert t.hash t s.task_processes }

unfoldable pub get_task_process : Bytes → StoreData → TaskProcess
get_task_process hash s = elim (lookup hash s.task_processes) [
  | some t ↦ t
  | none ↦ record {
    sign = zero_word;
    slot = 0;
    process = 0;
    id = 0;
    epoch = 0;
    hash = zero_word;
    commitment = zero_word;
    proof = [];
    signatures = [];
  }
]

-- The loop over the two arrays of invalid slots.
unfoldable pub invalid_entries : List Bytes → List ℕ → List InvalidEntry
invalid_entries [] reasons = []
invalid_entries (hash ∷ hashes) [] = []
invalid_entries (hash ∷ hashes) (reason ∷ reasons) =
    record { hash = hash; reason = reason } ∷ invalid_entries hashes reasons

-- storeEpochRecord: `none` is the revert on arrays of different lengths.
unfoldable pub store_epoch_record :
    ℤ
    → (justified commits invalid_hashes : List Bytes) → (invalid_reasons : List ℕ) → StoreData
    → Option StoreData
unfolding invalid_entries
store_epoch_record id justified commits invalid_hashes invalid_reasons s =
    if nat_beq (length invalid_hashes) (length invalid_reasons)
    then some (record s {
      epoch_records =
          insert id
            (record {
              justified = justified;
              commits = commits;
              invalids = invalid_entries invalid_hashes invalid_reasons;
            })
            s.epoch_records;
    })
    else none

unfoldable pub get_epoch_record_full : ℤ → StoreData → EpochEntry
get_epoch_record_full id s = elim (lookup id s.epoch_records) [
  | some r ↦ r
  | none ↦ record { justified = []; commits = []; invalids = [] }
]
