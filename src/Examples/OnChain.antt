-- ===== src/Examples/OnChain.antt =====
-- The contract.
use rappa_master.Base.{◌≡◌, refl, String, pos, some, [], ◌∷◌, arith, take}
use rappa_master.Base.Bytes.{Bytes, bytes_of, trim_right}
use rappa_master.Paradigm.Model.{Params}
use rappa_master.Paradigm.Commit.{JustifiedSlot, justified, no_reason, expire_slot}
use rappa_master.Paradigm.Record.{new_epoch_record}
use rappa_master.Epoch.{TaskProcessTransaction, EpochRecordTransaction}
use rappa_master.Chain.{task_process_transaction, epoch_record_transaction}
use rappa_master.Chain.Contract.{StoreData}
use rappa_master.Chain.Store.{process, process_all, get_task_process_json, get_epoch_record_json}
use rappa_master.Chain.Keys.{IsSlotHash}
use rappa_master.Chain.Reading.{
  shown, inserted, get_task_process_json-process_all, get_epoch_record_json-process,
}
use rappa_master.Chain.Collision.{process_all-collide}
use rappa_master.Examples.Data.{slot_of}

abbrev progress : String → JustifiedSlot → TaskProcessTransaction
progress hash j = record {
  commit_slot_item = record {
    justified_slot = some j;
    state = justified;
    hash = hash;
    invalid_type = no_reason;
  };
  signatures = "signature" ∷ "ca" ∷ [];
}

abbrev empty_store : StoreData
empty_store = record { init_tasks = []; task_processes = []; epoch_records = [] }

-- The last 32 bytes of a long text.
abbrev bytes_to_hash : Bytes → Bytes
bytes_to_hash b = take 32 b

abbrev marshal : Params → Bytes
marshal p = []

is_slot_hash : IsSlotHash (bytes_of "task_0_1")
unfolding bytes_of trim_right
is_slot_hash = (bytes_of "task_0", bytes_of "1", refl, omega arith, refl)

get_task_process_json-process_all_example :
    (s' : StoreData) × (process_all bytes_to_hash marshal
        (task_process_transaction (progress "task_0_1" (slot_of 4))
          ∷ task_process_transaction (progress "task_0_1" (slot_of 5))
          ∷ [])
        empty_store
      ≡ some s')
    × (get_task_process_json (bytes_of "task_0_1") s'
        ≡ shown bytes_to_hash (bytes_of "task_0_1") (progress "task_0_1" (slot_of 5)) (slot_of 5))
unfolding bytes_of trim_right
get_task_process_json-process_all_example =
    get_task_process_json-process_all bytes_to_hash marshal
      (task_process_transaction (progress "task_0_1" (slot_of 4))
        ∷ task_process_transaction (progress "task_0_1" (slot_of 5))
        ∷ [])
      empty_store (bytes_of "task_0_1") (progress "task_0_1" (slot_of 5)) (slot_of 5)
      ((slot_of 4, refl, is_slot_hash), ((slot_of 5, refl, is_slot_hash), tt)) is_slot_hash refl
      refl (omega arith) refl

-- Two nodes of a schedule, of a task with a long identifier.
abbrev long_10 : String
long_10 = "SynthTask-100000-1700000000_12_10"

abbrev long_11 : String
long_11 = "SynthTask-100000-1700000000_12_11"

process_all-collide_example :
    (s' : StoreData) × (process_all bytes_to_hash marshal
        (task_process_transaction (progress long_10 (slot_of 4))
          ∷ task_process_transaction (progress long_11 (slot_of 5))
          ∷ [])
        empty_store
      ≡ some s')
    × (get_task_process_json (bytes_of long_10) s'
        ≡ shown bytes_to_hash (bytes_of long_10) (progress long_11 (slot_of 5)) (slot_of 5))
unfolding bytes_of trim_right
process_all-collide_example =
    process_all-collide bytes_to_hash marshal empty_store
      (bytes_of "SynthTask-100000-1700000000_12_1") (bytes_of "0") (bytes_of "1")
      (progress long_10 (slot_of 4)) (progress long_11 (slot_of 5)) (slot_of 4) (slot_of 5)
      (omega arith) refl refl (bytes_of "SynthTask-100000-1700000000_12", bytes_of "10", refl)
      (bytes_of "SynthTask-100000-1700000000_12", bytes_of "11", refl) refl refl (omega arith) refl

abbrev epoch_tx : EpochRecordTransaction
epoch_tx = record {
  epoch_record = new_epoch_record (pos 7);
  id = pos 7;
  commits_hash = "task_0_1" ∷ [];
  justified_hash = [];
  invalids = ("task_0_1", expire_slot) ∷ [];
}

get_epoch_record_json-process_example :
    (s' : StoreData) × (process bytes_to_hash marshal
        (epoch_record_transaction epoch_tx)
        empty_store
      ≡ some s')
    × (get_epoch_record_json (pos 7) s' ≡ record {
      id = pos 7;
      justified_hash = [];
      commits_hash = bytes_of "task_0_1" ∷ [];
      invalids = inserted ((bytes_of "task_0_1", 1) ∷ []) [];
    })
get_epoch_record_json-process_example =
    get_epoch_record_json-process bytes_to_hash marshal epoch_tx empty_store tt (is_slot_hash, tt)
      (is_slot_hash, tt)
