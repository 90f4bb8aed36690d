-- ===== src/Chain/Store.antt =====
-- paradigm/transaction.go (StoreParams), ChainUpper/service/worker.go and query_worker.go: how a
-- worker puts a transaction into the contract, and what it reads of the contract. Parameters are
-- go-ethereum's BytesToHash and the JSON of a task's parameters. A call of the chain that fails is an
-- error that the worker logs; here all calls succeed, and a receipt comes back for each.
use rappa_master.Base.Assoc.{Assoc, insert}
use rappa_master.Base.{
  ℕ, ◌&&◌, nat_beq, if◌then◌else◌, String, ◌<>◌, ℤ, word_of, Bool, Option, none, some, List, [],
  ◌∷◌, map, get_elem?,
}
use rappa_master.Base.Bytes.{Bytes, bytes_of, bytes_eq, decode_string}
use rappa_master.Paradigm.Model.{SupportModelType, ctgan, baed, finkan, abm, Params}
use rappa_master.Paradigm.Commit.{
  InvalidCommitType, invalid_slot, expire_slot, invalid_commitment, verified_failed, down_failed,
  unknown, no_reason,
}
use rappa_master.Merkle.{hex}
use rappa_master.Task.{Task}
use rappa_master.Epoch.{TaskProcessTransaction, EpochRecordTransaction}
use rappa_master.Chain.{
  Transaction, init_task_transaction, task_process_transaction, epoch_record_transaction,
}
use rappa_master.Chain.Words.{
  copied, string_to_bytes32, int_to_bytes32, trim_zero, hex_list, bytes32_list_to_strings,
}
use rappa_master.Chain.Contract
use rappa_master.Chain.Contract.{
  StoreData, TaskProcess, InvalidEntry, store_init_task, get_init_task, store_task_process,
  get_task_process, store_epoch_record, get_epoch_record_full,
}

abbrev pub model_number : SupportModelType → ℕ
model_number ctgan = 0
model_number baed = 1
model_number finkan = 2
model_number abm = 3

-- ModelTypeToString(SupportModelType(b)): `none` is its panic.
abbrev pub model_name : ℕ → Option String
model_name b =
    if nat_beq b 0
    then some "CTGAN"
    else if nat_beq b 1
    then some "BAED"
    else if nat_beq b 2
    then some "FINKAN"
    else if nat_beq b 3
    then some "ABM"
    else none

abbrev pub reason_number : InvalidCommitType → ℕ
reason_number invalid_slot = 0
reason_number expire_slot = 1
reason_number invalid_commitment = 2
reason_number verified_failed = 3
reason_number down_failed = 4
reason_number unknown = 5
reason_number no_reason = 6

-- The word of a slot's hash in the record of an epoch: its bytes, if it is hexadecimal.
unfoldable pub hash_word : Bytes → Bytes
unfolding string_to_bytes32
hash_word hash = elim (decode_string hash) [
  | some bs ↦ copied 32 bs
  | none ↦ string_to_bytes32 hash
]

-- strings.TrimPrefix(hashHex, "0x")
abbrev pub trim_0x : Bytes → Bytes
trim_0x [] = []
trim_0x (a ∷ []) = a ∷ []
trim_0x (a ∷ b ∷ s) = if nat_beq a b'0' && nat_beq b b'x' then s else a ∷ b ∷ s

-- The word that GetTaskProcessJSON looks up.
unfoldable pub query_word : Bytes → Bytes
unfolding string_to_bytes32
query_word hash_hex = elim (decode_string (trim_0x hash_hex)) [
  | some bs ↦ copied 32 bs
  | none ↦ string_to_bytes32 hash_hex
]

pub record InitTaskJson : Type 0 where
  pub sign : String
  pub name : Bytes
  pub size : ℕ
  pub model : String
  pub is_reliable : Bool
  pub params : Bytes

pub record TaskProcessJson : Type 0 where
  pub sign : Bytes
  pub hash : Bytes
  pub slot : ℕ
  pub process : ℕ
  pub id : ℕ
  pub epoch : ℕ
  pub commitment : String
  pub proof : String
  pub signatures : List String

pub record EpochRecordJson : Type 0 where
  pub id : ℤ
  pub justified_hash : List Bytes
  pub commits_hash : List Bytes
  pub invalids : Assoc Bytes ℕ

-- The loop that makes a map of the invalid slots.
unfoldable pub invalid_map : List InvalidEntry → Assoc Bytes ℕ → Assoc Bytes ℕ
invalid_map [] m = m
invalid_map (e ∷ entries) m = invalid_map entries (insert (trim_zero e.hash) e.reason m)

-- GetTaskProcessJSON, with the text that it is asked for as its bytes.
unfoldable pub get_task_process_json : (hash_hex : Bytes) → StoreData → TaskProcessJson
unfolding query_word
get_task_process_json hash_hex s =
    let res = get_task_process (query_word hash_hex) s in
    record {
      sign = trim_zero res.sign;
      hash = hash_hex;
      slot = res.slot;
      process = res.process;
      id = res.id;
      epoch = res.epoch;
      commitment = "0x" <> hex res.commitment;
      proof = "0x" <> hex res.proof;
      signatures = hex_list res.signatures;
    }

-- GetInitTaskJSON: the parameters are those that were stored. `none` is the panic on a byte that is
-- no model.
unfoldable pub get_init_task_json : (sign : String) → StoreData → Option InitTaskJson
unfolding string_to_bytes32
get_init_task_json sign s =
    let res = get_init_task (string_to_bytes32 (bytes_of sign)) s in
    elim (get_elem? res.model 31) [
      | none ↦ none
      | some b ↦ elim (model_name b) [
        | none ↦ none
        | some model ↦ some (record {
          sign = sign;
          name = res.name;
          size = res.size;
          model = model;
          is_reliable = res.is_reliable;
          params = res.params;
        })
      ]
    ]

unfoldable pub get_epoch_record_json : ℤ → StoreData → EpochRecordJson
unfolding invalid_map
get_epoch_record_json id s =
    let res = get_epoch_record_full id s in
    record {
      id = id;
      justified_hash = bytes32_list_to_strings res.justified;
      commits_hash = bytes32_list_to_strings res.commits;
      invalids = invalid_map res.invalids [];
    }

module _ (bytes_to_hash : Bytes → Bytes) where
  -- The word of a slot's hash in the progress of a task.
  unfoldable pub process_word : Bytes → Bytes
  unfolding string_to_bytes32
  process_word hash = elim (decode_string hash) [
    | some bs ↦ bytes_to_hash bs
    | none ↦ string_to_bytes32 hash
  ]

  -- StoreParams of a TaskProcessTransaction, whose proof is nil: `none` is the nil pointer of a fake
  -- item.
  unfoldable pub task_process_params : TaskProcessTransaction → Option TaskProcess
  unfolding process_word string_to_bytes32
  task_process_params tx = elim tx.commit_slot_item.justified_slot [
    | none ↦ none
    | some j ↦ some (record {
      sign = string_to_bytes32 (bytes_of j.sign);
      slot = word_of j.slot;
      process = word_of j.process;
      id = word_of j.nid;
      epoch = word_of j.epoch;
      hash = process_word (bytes_of tx.commit_slot_item.hash);
      commitment = bytes_to_hash j.commitment;
      proof = [];
      signatures = map bytes_of tx.signatures;
    })
  ]

-- StoreParams of an InitTaskTransaction, without the sign.
unfoldable pub init_task_params : (marshal : Params → Bytes) → Task → Contract.InitTask
unfolding int_to_bytes32
init_task_params marshal task = record {
  name = bytes_of task.name;
  size = word_of task.size;
  model = int_to_bytes32 (model_number task.model);
  is_reliable = task.is_reliable;
  params = marshal task.params;
}

-- StoreParams of an EpochRecordTransaction, and its call of the contract.
unfoldable pub put_epoch_record : EpochRecordTransaction → StoreData → Option StoreData
unfolding hash_word
put_epoch_record tx s =
    store_epoch_record tx.id (map (λ h. hash_word (bytes_of h)) tx.justified_hash)
      (map (λ h. hash_word (bytes_of h)) tx.commits_hash)
      (map (λ e. hash_word (bytes_of e.0)) tx.invalids) (map (λ e. reason_number e.1) tx.invalids) s

module _ (bytes_to_hash : Bytes → Bytes) (marshal : Params → Bytes) where
  -- Process, for one transaction: what becomes of the contract. `none` is a panic.
  unfoldable pub process : Transaction → StoreData → Option StoreData
  unfolding task_process_params init_task_params put_epoch_record string_to_bytes32
  process (init_task_transaction task) s =
      some
        (store_init_task (string_to_bytes32 (bytes_of task.sign)) (init_task_params marshal task) s)
  process (task_process_transaction tx) s = elim (task_process_params bytes_to_hash tx) [
    | none ↦ none
    | some t ↦ some (store_task_process t s)
  ]
  process (epoch_record_transaction tx) s = put_epoch_record tx s

  unfoldable pub process_all : List Transaction → StoreData → Option StoreData
  unfolding process
  process_all [] s = some s
  process_all (tx ∷ queue) s = elim (process tx s) [ none ↦ none | some s' ↦ process_all queue s' ]
