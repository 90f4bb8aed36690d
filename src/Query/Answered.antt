-- ===== src/Query/Answered.antt =====
-- Each query that the oracle takes is answered once, but for three kinds of trouble.
use rappa_master.Base.Assoc.{Assoc}
use rappa_master.Base.{
  ℕ, ◌∙◌, String, Bool, true, false, Option, none, some, List, [], ◌∷◌, ◌⊎◌, inl, inr, ◌≡◌, refl,
  All, Sum-cases,
}
use rappa_master.Base.Bytes.{Bytes}
use rappa_master.Paradigm.Model.{SlotHash}
use rappa_master.Paradigm.Slot.{Slot, processing, finished}
use rappa_master.Task.{Task}
use rappa_master.Oracle.EpochTx.{DevEpoch}
use rappa_master.Query.Response.{
  Response, success_response, error_response, Channel, send_response, value_error,
}
use rappa_master.Query.Integrity
use rappa_master.Query.Integrity.{Answer}
use rappa_master.Query.Nodes.{date_synth_data_response}
use rappa_master.Query.Request.{
  Query, evidence_preserve_task_tx, evidence_preserve_task_id, evidence_preserve_epoch_tx,
  evidence_preserve_epoch_id, blockchain_latest_info, blockchain_block_hash,
  blockchain_block_number, blockchain_transaction, nodes_status, date_synth_data, date_transaction,
  synth_task, task_on_nodes, collect_task, upload_task, slot_integrity_verification,
}
use rappa_master.Collector.{HttpCollectRequest}
use rappa_master.Query.Shown.{
  IsShown, HasTx, IsListed, IsRecovered, with_dataset-some, latest_response-HasTx,
  synth_task_response-IsListed,
}
use rappa_master.Query.Timeline.{generate_response-count}
use rappa_master.Query.Dispatch
use rappa_master.Query.Latest.{LatestBlockchainInfo, tx_type}
use rappa_master.Query.Dispatch.{
  Reply, Sources, answer, answer_task, answer_epoch, latest_info, process_query,
}

abbrev pub is_error {ℓ} : {A : Type ℓ} → Response A → Bool
is_error (success_response a) = false
is_error (error_response kind message) = true

abbrev pub is_left {ℓ κ} : {A : Type ℓ} {B : Type κ} → A ⊎ B → Bool
is_left (inl a) = true
is_left (inr b) = false

abbrev pub has_no_reader : String ⊎ Option ℕ → Bool
has_no_reader (inl message) = true
has_no_reader (inr none) = true
has_no_reader (inr (some reader)) = false

-- The channel after one response.
abbrev pub answered {ℓ} : {A : Type ℓ} → Response A → Channel A
answered r = record { responses = r ∷ []; is_closed = true }

module _ (sha256 : Bytes → Bytes) {V P : Type 0} (verkle_build : List Bytes → String ⊎ V)
    (verkle_proof : V → ℕ → Option P) where
  -- The response to an integrity query, before it is sent.
  abbrev pub integrity : SlotHash → Integrity.StructType → Sources → Option (Response (Answer P))
  integrity slot_hash type s =
      Integrity.generate_response sha256 verkle_build verkle_proof slot_hash type
        (s.finished_slots_by_slot slot_hash)

  -- What is needed for a response: the latest information takes five answers without an error and the
  -- transactions of its epochs, the type of a transaction must be known, a list of tasks takes their
  -- transactions, and an upload only gets a response if its task cannot be recovered.
  abbrev pub IsAnswerable : Query → Sources → Type 0
  IsAnswerable (evidence_preserve_task_id task_id) s = IsShown (s.task_by_id task_id)
  IsAnswerable (evidence_preserve_task_tx tx_hash) s = IsShown (s.task_by_tx_hash tx_hash)
  IsAnswerable blockchain_latest_info s =
      (info : LatestBlockchainInfo) × (latest_info sha256 verkle_build verkle_proof s ≡ some info)
      × All HasTx info.latest_epoch
  IsAnswerable synth_task s = IsListed s.has_speed s.all_tasks
  IsAnswerable (collect_task request) s =
      IsRecovered s.recover_collector (s.task_by_id request.sign)
  IsAnswerable (blockchain_transaction tx_hash) s =
      ¬ (s.reference_type_of (s.transaction_of tx_hash).1 ≡ inr none)
  IsAnswerable (slot_integrity_verification slot_hash type) s =
      (r : Response (Answer P)) × (integrity slot_hash type s ≡ some r)
  IsAnswerable (upload_task request) s =
      (task : Task) × (message : String) × (s.task_by_id request.task_id ≡ inr task)
      × (s.recover_collector task ≡ some (inl message))
  IsAnswerable _ s = Unit

  -- Whether what a query asks for could not be read.
  abbrev pub fails : Query → Sources → Bool
  fails (evidence_preserve_task_id task_id) s = is_left (s.task_by_id task_id)
  fails (evidence_preserve_task_tx tx_hash) s = is_left (s.task_by_tx_hash tx_hash)
  fails (evidence_preserve_epoch_id epoch_id) s = is_left (s.epoch_by_id epoch_id)
  fails (evidence_preserve_epoch_tx tx_hash) s = is_left (s.epoch_by_tx_hash tx_hash)
  fails (blockchain_transaction tx_hash) s =
      is_left (s.reference_type_of (s.transaction_of tx_hash).1)
  fails date_synth_data s = is_left s.date_records
  fails date_transaction s = is_left s.date_records
  fails synth_task s = is_left s.all_tasks
  fails (collect_task request) s = elim (s.task_by_id request.sign) [
    | inl _ ↦ true
    | inr task ↦ elim (s.recover_collector task) [
      | none ↦ true
      | some (inl _) ↦ true
      | some (inr collector) ↦ has_no_reader (s.collect request collector)
    ]
  ]
  fails (slot_integrity_verification slot_hash type) s = elim (integrity slot_hash type s) [
    | none ↦ false
    | some r ↦ is_error r
  ]
  fails (upload_task request) s = true
  fails _ s = false

  -- One response was sent, an error or not.
  abbrev pub IsAnswered : Option (Channel (Reply P)) → (failed : Bool) → Type 0
  IsAnswered result failed =
      (r : Response (Reply P)) × (result ≡ some (answered r)) × (is_error r ≡ failed)

  answer-IsAnswered :
      (r : Response (Reply P)) → IsAnswered (answer sha256 verkle_build verkle_proof r) (is_error r)
  unfolding send_response
  answer-IsAnswered r = (r, refl, refl)

  collect_response-has_no_reader :
      (output : String ⊎ Option ℕ)
      → is_error (Dispatch.collect_response sha256 verkle_build verkle_proof output)
        ≡ has_no_reader output
  collect_response-has_no_reader (inl message) = refl
  collect_response-has_no_reader (inr none) = refl
  collect_response-has_no_reader (inr (some reader)) = refl

  answer_task-IsAnswered :
      (found : String ⊎ Task)
      → IsShown found
      → IsAnswered (answer_task sha256 verkle_build verkle_proof found) (is_left found)
  unfolding send_response
  answer_task-IsAnswered (inl message) h = (_, refl, refl)
  answer_task-IsAnswered (inr task) (paid, dataset) =
      let (r, runs, _, _) = generate_response-count task paid in
      let shown = runs ∙ with_dataset-some task r dataset in
      (success_response (Dispatch.task_reply r), rw (answer_task, shown) refl, refl)

  answer_epoch-IsAnswered :
      (found : String ⊎ (DevEpoch × Assoc SlotHash Slot))
      → IsAnswered (answer_epoch sha256 verkle_build verkle_proof found) (is_left found)
  unfolding send_response
  answer_epoch-IsAnswered (inl message) = (_, refl, refl)
  answer_epoch-IsAnswered (inr (e, m)) = (_, refl, refl)

  synth_task-IsAnswered :
      (s : Sources) (found : String ⊎ List (Task × Option String))
      → s.all_tasks ≡ found
      → IsListed s.has_speed found
      → IsAnswered
          (process_query sha256 verkle_build verkle_proof synth_task s)
          (fails synth_task s)
  unfolding process_query send_response
  synth_task-IsAnswered s (inl message) e h = (
    Dispatch.tasks_failed sha256 verkle_build verkle_proof message,
    rw (process_query, e) refl,
    rw (fails, e) refl,
  )
  synth_task-IsAnswered s (inr tasks) e h =
      let (shown, made) = synth_task_response-IsListed s.has_speed tasks h in
      (
        success_response (Dispatch.tasks_reply shown),
        rw (process_query, e, made) refl,
        rw (fails, e) refl,
      )

  collect_task-IsAnswered :
      (request : HttpCollectRequest) (s : Sources) (found : String ⊎ Task)
      → s.task_by_id request.sign ≡ found
      → IsRecovered s.recover_collector found
      → IsAnswered
          (process_query sha256 verkle_build verkle_proof (collect_task request) s)
          (fails (collect_task request) s)
  unfolding process_query send_response
  collect_task-IsAnswered request s (inl message) e h = (
    Dispatch.tasks_failed sha256 verkle_build verkle_proof message,
    rw (process_query, e) refl,
    rw (fails, e) refl,
  )
  collect_task-IsAnswered request s (inr task) e (inl message, e') = (
    Dispatch.tasks_failed sha256 verkle_build verkle_proof message,
    rw (process_query, e, e') refl,
    rw (fails, e, e') refl,
  )
  collect_task-IsAnswered request s (inr task) e (inr collector, e') = (
    Dispatch.collect_response sha256 verkle_build verkle_proof (s.collect request collector),
    rw (process_query, e, e') refl,
    rw (fails, e, e') (collect_response-has_no_reader (s.collect request collector)),
  )

  -- If the chain and the monitor answer what they are asked, each query gets one response, after which its
  -- channel is closed, under a condition that depends on its kind. For a task that is shown, its
  -- finished slots have their commits, and its dataset is not given or a text. For the list of all
  -- tasks, of each task the transaction could be read and the speed can be computed. For the latest
  -- information, it is read without an error, and of each epoch the transaction could be read. For
  -- a download, the recovery of the collector does not panic. For a transaction that is there, its type
  -- is known. For an integrity query, the answer is found without a panic. For an upload, the task is
  -- there, but cannot be recovered. For all other kinds there is no condition. The response is an
  -- error exactly when what the query asks for could not be read, or no proof could be given.
  pub process_query-IsAnswered :
      (q : Query) (s : Sources)
      → IsAnswerable q s
      → IsAnswered (process_query sha256 verkle_build verkle_proof q s) (fails q s)
  unfolding process_query send_response
  process_query-IsAnswered (evidence_preserve_task_id task_id) s h =
      answer_task-IsAnswered (s.task_by_id task_id) h
  process_query-IsAnswered (evidence_preserve_task_tx tx_hash) s h =
      answer_task-IsAnswered (s.task_by_tx_hash tx_hash) h
  process_query-IsAnswered (evidence_preserve_epoch_id epoch_id) s h =
      answer_epoch-IsAnswered (s.epoch_by_id epoch_id)
  process_query-IsAnswered (evidence_preserve_epoch_tx tx_hash) s h =
      answer_epoch-IsAnswered (s.epoch_by_tx_hash tx_hash)
  process_query-IsAnswered blockchain_latest_info s (info, h, txs) =
      let (shown, made) = latest_response-HasTx info txs in
      (success_response (Dispatch.latest_reply shown), rw (process_query, h, made) refl, refl)
  process_query-IsAnswered (blockchain_transaction tx_hash) s h =
      elim (Sum-cases (s.reference_type_of (s.transaction_of tx_hash).1)) [
        | inl (message, e) ↦
            (error_response value_error message, rw (process_query, e) refl, rw (fails, e) refl)
        | inr (none, e) ↦ absurd (h e)
        | inr (some rf, e) ↦ (
          success_response (Dispatch.transaction_reply (s.transaction_of tx_hash).0 (tx_type rf)),
          rw (process_query, e) refl,
          rw (fails, e) refl,
        )
      ]
  process_query-IsAnswered date_synth_data s h = elim (Sum-cases s.date_records) [
    | inl (message, e) ↦ (
      Dispatch.dates_failed sha256 verkle_build verkle_proof message,
      rw (process_query, e) refl,
      rw (fails, e) refl,
    )
    | inr (days, e) ↦ (
      success_response (
          Dispatch.dates_reply (date_synth_data_response days Dispatch.no_days)
            (s.count_task_by_status processing) (s.count_task_by_status finished)),
      rw (process_query, e) refl,
      rw (fails, e) refl,
    )
  ]
  process_query-IsAnswered date_transaction s h = elim (Sum-cases s.date_records) [
    | inl (message, e) ↦ (
      Dispatch.dates_failed sha256 verkle_build verkle_proof message,
      rw (process_query, e) refl,
      rw (fails, e) refl,
    )
    | inr (days, e) ↦ (
      success_response (Dispatch.date_transactions_reply (Dispatch.day_transactions days)),
      rw (process_query, e) refl,
      rw (fails, e) refl,
    )
  ]
  process_query-IsAnswered synth_task s h = synth_task-IsAnswered s s.all_tasks refl h
  process_query-IsAnswered (collect_task request) s h =
      collect_task-IsAnswered request s (s.task_by_id request.sign) refl h
  process_query-IsAnswered (slot_integrity_verification slot_hash type) s (success_response a, e) =
      (
        success_response (Dispatch.integrity_reply a),
        rw (process_query, e) refl,
        rw (fails, e) refl,
      )
  process_query-IsAnswered (slot_integrity_verification slot_hash type) s
        (error_response kind message, e) =
      (error_response kind message, rw (process_query, e) refl, rw (fails, e) refl)
  process_query-IsAnswered (upload_task request) s (task, message, e, e') = (
    Dispatch.tasks_failed sha256 verkle_build verkle_proof message,
    rw (process_query, e, e') refl,
    refl,
  )
  process_query-IsAnswered (blockchain_block_hash hash) s h = (_, refl, refl)
  process_query-IsAnswered (blockchain_block_number n) s h = (_, refl, refl)
  process_query-IsAnswered nodes_status s h = (_, refl, refl)
  process_query-IsAnswered (task_on_nodes sign) s h = (_, refl, refl)
