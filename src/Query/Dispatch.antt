-- ===== src/Query/Dispatch.antt =====
-- Oracle/persistedQuery.go, processDBQuery: what the oracle does with one query. What the database, the
-- chain, the monitor and a collector answer is a parameter, with the text of an error on the left.
use rappa_master.Base.Assoc.{Assoc}
use rappa_master.Base.{
  ℕ, String, ℤ, pos, wrap_i32, Bool, Option, none, some, List, [], ◌∷◌, length, ◌⊎◌, inl, inr, ◌<>◌,
}
use rappa_master.Base.Bytes.{Bytes}
use rappa_master.Paradigm.Model.{TaskHash, SlotHash, SupportModelType}
use rappa_master.Paradigm.Slot.{Slot, SlotStatus, processing, finished}
use rappa_master.Monitor.Status.{NodeStatus}
use rappa_master.Date.{DateRecord}
use rappa_master.Task.{Task}
use rappa_master.Collector.{Collector, HttpCollectRequest}
use rappa_master.Oracle.{RfType, DevReference}
use rappa_master.Oracle.EpochTx.{DevEpoch}
use rappa_master.Query.Response.{
  Response, success_response, error_response, Channel, new_channel, send_response, value_error,
  runtime_error, chunk_recover_error,
}
use rappa_master.Query.Evidence
use rappa_master.Query.Evidence.{TaskResponse}
use rappa_master.Query.EpochView.{EpochResponse, epoch_response}
use rappa_master.Query.Integrity
use rappa_master.Query.Integrity.{Answer}
use rappa_master.Query.Nodes.{
  NodesStatusResponse, DateSynthResponse, task_on_nodes_response, nodes_status_response,
  date_synth_data_response,
}
use rappa_master.Query.Latest.{LatestBlockchainInfo, LatestResponse, latest_response, tx_type}
use rappa_master.Query.Tasks.{synth_task_response}
use rappa_master.Query.Request.{
  Query, evidence_preserve_task_tx, evidence_preserve_task_id, evidence_preserve_epoch_tx,
  evidence_preserve_epoch_id, blockchain_latest_info, blockchain_block_hash,
  blockchain_block_number, blockchain_transaction, nodes_status, date_synth_data, date_transaction,
  synth_task, task_on_nodes, collect_task, upload_task, slot_integrity_verification,
}

-- What a success carries. A block, a transaction and a reader of recovered data are opaque numbers.
pub data Reply (P : Type 0) : Type 0 where
  task_reply : TaskResponse → Reply P
  epoch_reply : EpochResponse → Reply P
  latest_reply : LatestResponse → Reply P
  block_reply : ℕ → Reply P
  transaction_reply : (info : ℕ) → (abi : String) → Reply P
  nodes_reply : NodesStatusResponse → Reply P
  dates_reply : DateSynthResponse → (processing finished : ℤ) → Reply P
  date_transactions_reply : List (ℕ × ℤ) → Reply P
  tasks_reply : List (Task × String) → Reply P
  node_info_reply : Assoc ℤ ℤ → Reply P
  reader_reply : ℕ → Reply P
  integrity_reply : Answer P → Reply P

-- What the other components answer. The type of a reference is `none` if it is no known number, and
-- the collector of a task if RecoverCollector panics. A task or an epoch that is listed comes with
-- the hash of its transaction, if that could be read; `has_speed` is that Speed does not panic.
pub record Sources : Type 0 where
  pub task_by_id : TaskHash → String ⊎ Task
  pub task_by_tx_hash : String → String ⊎ Task
  pub epoch_by_id : ℤ → String ⊎ (DevEpoch × Assoc SlotHash Slot)
  pub epoch_by_tx_hash : String → String ⊎ (DevEpoch × Assoc SlotHash Slot)
  pub latest_transactions : String ⊎ List DevReference
  pub latest_epochs : String ⊎ List (DevEpoch × Option String)
  pub finalized_slots_count : String ⊎ ℕ
  pub synth_data_by_model : String ⊎ Assoc SupportModelType ℤ
  pub transaction_count : String ⊎ ℕ
  pub block_of : Query → ℕ
  pub transaction_of : (tx_hash : String) → ℕ × String
  pub reference_type_of : (tx_hash : String) → String ⊎ Option RfType
  pub nodes : List NodeStatus
  pub date_records : String ⊎ List DateRecord
  pub count_task_by_status : SlotStatus → ℤ
  pub all_tasks : String ⊎ List (Task × Option String)
  pub has_speed : Task → Bool
  pub finished_slots_by_task : TaskHash → List Slot
  pub finished_slots_by_slot : SlotHash → List Slot
  pub recover_collector : Task → Option (String ⊎ Collector)
  pub collect : HttpCollectRequest → Collector → String ⊎ Option ℕ

-- The date and the transactions of each day.
abbrev pub day_transactions : List DateRecord → List (ℕ × ℤ)
day_transactions [] = []
day_transactions (day ∷ days) = (day.date, day.nb_transactions) ∷ day_transactions days

abbrev pub no_days : DateSynthResponse
no_days = record { date = []; init = []; finish = []; synth_data = []; dataset_distribution = [] }

module _ (sha256 : Bytes → Bytes) {V P : Type 0} (verkle_build : List Bytes → String ⊎ V)
    (verkle_proof : V → ℕ → Option P) where
  abbrev pub Outcome : Type 0
  Outcome = Option (Channel (Reply P))

  -- item.SendResponse on the channel of a new query.
  abbrev pub answer : Response (Reply P) → Outcome
  answer r = send_response r new_channel

  abbrev pub answer_task : String ⊎ Task → Outcome
  answer_task (inl message) = answer (error_response value_error message)
  answer_task (inr task) = elim (Evidence.generate_response task) [
    | none ↦ none
    | some r ↦ answer (success_response (task_reply r))
  ]

  abbrev pub answer_epoch : String ⊎ (DevEpoch × Assoc SlotHash Slot) → Outcome
  answer_epoch (inl message) = answer (error_response value_error message)
  answer_epoch (inr (epoch, m)) = answer (success_response (epoch_reply (epoch_response epoch m)))

  -- The answers that are needed for the latest information; an error ends the case without a response.
  unfoldable pub latest_info : Sources → Option LatestBlockchainInfo
  latest_info s = elim s.latest_transactions [
    | inl _ ↦ none
    | inr txs ↦ elim s.latest_epochs [
      | inl _ ↦ none
      | inr epochs ↦ elim s.finalized_slots_count [
        | inl _ ↦ none
        | inr finalized ↦ elim s.synth_data_by_model [
          | inl _ ↦ none
          | inr synth ↦ elim s.transaction_count [
            | inl _ ↦ none
            | inr transactions ↦ some (record {
              latest_txs = txs;
              latest_epoch = epochs;
              nb_finalized = wrap_i32 (pos finalized);
              synth_data = synth;
              nb_epoch = wrap_i32 (pos (length epochs));
              nb_transaction = wrap_i32 (pos transactions);
            })
          ]
        ]
      ]
    ]
  ]

  -- GenerateResponse of a CollectTaskQuery.
  abbrev pub collect_response : String ⊎ Option ℕ → Response (Reply P)
  collect_response (inl message) = error_response chunk_recover_error message
  collect_response (inr none) = error_response chunk_recover_error "Recover Output is nil"
  collect_response (inr (some reader)) = success_response (reader_reply reader)

  abbrev pub tasks_failed : String → Response (Reply P)
  tasks_failed message = error_response runtime_error ("Failed to query tasks: " <> message)

  abbrev pub dates_failed : String → Response (Reply P)
  dates_failed message = error_response runtime_error ("Failed to query date records: " <> message)

  -- One round of the loop: the channel of the query after it, where no response is a query that is never
  -- answered, and `none` is a panic.
  unfoldable pub process_query : Query → Sources → Outcome
  unfolding latest_info
  process_query (evidence_preserve_task_id task_id) s = answer_task (s.task_by_id task_id)
  process_query (evidence_preserve_task_tx tx_hash) s = answer_task (s.task_by_tx_hash tx_hash)
  process_query (evidence_preserve_epoch_id epoch_id) s = answer_epoch (s.epoch_by_id epoch_id)
  process_query (evidence_preserve_epoch_tx tx_hash) s = answer_epoch (s.epoch_by_tx_hash tx_hash)
  process_query blockchain_latest_info s = elim (latest_info s) [
    | none ↦ some new_channel
    | some info ↦ elim (latest_response info) [
      | none ↦ none
      | some shown ↦ answer (success_response (latest_reply shown))
    ]
  ]
  process_query (blockchain_block_number n) s =
      answer (success_response (block_reply (s.block_of (blockchain_block_number n))))
  process_query (blockchain_block_hash h) s =
      answer (success_response (block_reply (s.block_of (blockchain_block_hash h))))
  process_query (blockchain_transaction tx_hash) s =
      let (info, hash) = s.transaction_of tx_hash in
      elim (s.reference_type_of hash) [
        | inl message ↦ answer (error_response value_error message)
        | inr (some rf) ↦ answer (success_response (transaction_reply info (tx_type rf)))
        | inr none ↦
            elim (answer (error_response runtime_error "Unknown transaction reference type")) [
              | none ↦ none
              | some c ↦ send_response (success_response (transaction_reply info "")) c
            ]
      ]
  process_query nodes_status s =
      answer (success_response (nodes_reply (nodes_status_response s.nodes)))
  process_query date_synth_data s = elim s.date_records [
    | inl message ↦ answer (dates_failed message)
    | inr days ↦ answer (
        success_response (
          dates_reply (date_synth_data_response days no_days) (s.count_task_by_status processing)
            (s.count_task_by_status finished)))
  ]
  process_query date_transaction s = elim s.date_records [
    | inl message ↦ answer (dates_failed message)
    | inr days ↦ answer (success_response (date_transactions_reply (day_transactions days)))
  ]
  process_query synth_task s = elim s.all_tasks [
    | inl message ↦ answer (tasks_failed message)
    | inr tasks ↦ elim (synth_task_response s.has_speed tasks) [
      | none ↦ none
      | some shown ↦ answer (success_response (tasks_reply shown))
    ]
  ]
  process_query (task_on_nodes sign) s =
      answer (
        success_response (node_info_reply (task_on_nodes_response (s.finished_slots_by_task sign))))
  process_query (collect_task request) s = elim (s.task_by_id request.sign) [
    | inl message ↦ answer (tasks_failed message)
    | inr task ↦ elim (s.recover_collector task) [
      | none ↦ none
      | some (inl message) ↦ answer (tasks_failed message)
      | some (inr collector) ↦ answer (collect_response (s.collect request collector))
    ]
  ]
  process_query (slot_integrity_verification slot_hash type) s =
      elim (Integrity.generate_response sha256 verkle_build verkle_proof slot_hash type
        (s.finished_slots_by_slot slot_hash)) [
          | none ↦ none
          | some (success_response a) ↦ answer (success_response (integrity_reply a))
          | some (error_response kind message) ↦ answer (error_response kind message)
        ]
  -- The error of GetTaskByID is dropped, and RecoverCollector reads the status of the nil task. The
  -- task that is there is a pointer, which GenerateResponse asserts to be a struct.
  process_query (upload_task request) s = elim (s.task_by_id request.task_id) [
    | inl _ ↦ none
    | inr task ↦ elim (s.recover_collector task) [
      | none ↦ none
      | some (inl message) ↦ answer (tasks_failed message)
      | some (inr _) ↦ none
    ]
  ]
