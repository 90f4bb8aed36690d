-- ===== src/Http/Delivery.antt =====
-- When a download is a file.
use rappa_master.Base.Assoc.{Assoc}
use rappa_master.Base.Bytes.{Bytes}
use rappa_master.Base.{
  ℕ, String, Bool, true, false, Option, none, some, List, [], ◌∷◌, ◌⊎◌, inl, inr, ◌≡◌, refl, sym,
  ◌∙◌, Option-cases, Sum-cases,
}
use rappa_master.Task.{Task}
use rappa_master.Collector.{Collector, HttpCollectRequest}
use rappa_master.Query.Response.{success_response, error_response, Channel, send_response}
use rappa_master.Query.Request.{
  QueryString, Query, evidence_preserve_task_tx, evidence_preserve_task_id,
  evidence_preserve_epoch_tx, evidence_preserve_epoch_id, blockchain_latest_info,
  blockchain_block_hash, blockchain_block_number, blockchain_transaction, nodes_status,
  date_synth_data, date_transaction, synth_task, task_on_nodes, collect_task, upload_task,
  slot_integrity_verification,
}
use rappa_master.Query.Evidence
use rappa_master.Query.Integrity
use rappa_master.Oracle.EpochTx.{DevEpoch}
use rappa_master.Paradigm.Model.{SlotHash}
use rappa_master.Paradigm.Slot.{Slot}
use rappa_master.Query.Latest.{latest_response}
use rappa_master.Query.Tasks.{synth_task_response}
use rappa_master.Query.Build.{build_query_from_get_request}
use rappa_master.Query.Dispatch.{
  Reply, Sources, answer_task, answer_epoch, latest_info, process_query,
}
use rappa_master.Http.{
  Answer, bad_request, file, waits_forever, handler_panics, oracle_panics, file_of, ask,
  handle_download,
}

-- The task of a request is there, its collector too.
abbrev pub HasCollector : HttpCollectRequest → Sources → Collector → Type 0
HasCollector r s collector =
    (task : Task) × (s.task_by_id r.sign ≡ inr task)
    × (s.recover_collector task ≡ some (inr collector))

-- And the collector gives this reader.
abbrev pub IsReady : HttpCollectRequest → Sources → ℕ → Type 0
IsReady r s reader =
    (collector : Collector) × HasCollector r s collector
    × (s.collect r collector ≡ inr (some reader))

-- The task is not there, or the recovery of its collector gives an error, or the collector no reader.
abbrev pub IsFailed : HttpCollectRequest → Sources → Type 0
IsFailed r s =
    ((message : String) × (s.task_by_id r.sign ≡ inl message))
    ⊎ ((task : Task) × (message : String) × (s.task_by_id r.sign ≡ inr task)
        × (s.recover_collector task ≡ some (inl message)))
    ⊎ ((collector : Collector) × HasCollector r s collector
        × ¬ ((reader : ℕ) × (s.collect r collector ≡ inr (some reader))))

-- The recovery of the collector panics.
abbrev pub IsStopped : HttpCollectRequest → Sources → Type 0
IsStopped r s = (task : Task) × (s.task_by_id r.sign ≡ inr task) × (s.recover_collector task ≡ none)

abbrev pub serves : {P : Type 0} → Answer P → Bool
serves (file reader) = true
serves _ = false

abbrev pub is_refused : {P : Type 0} → Answer P → Bool
is_refused bad_request = true
is_refused _ = false

abbrev pub IsDelivered : {P : Type 0} → Option Query → Sources → Answer P → Type 0
IsDelivered none s a = a ≡ bad_request
IsDelivered (some (collect_task r)) s a =
    ((reader : ℕ) × IsReady r s reader × (a ≡ file reader))
    ⊎ (IsFailed r s × (a ≡ handler_panics))
    ⊎ (IsStopped r s × (a ≡ oracle_panics))
IsDelivered (some q) s a = (serves a ≡ false) × (is_refused a ≡ false)

module _ (sha256 : Bytes → Bytes) {V P : Type 0} (verkle_build : List Bytes → String ⊎ V)
    (verkle_proof : V → ℕ → Option P) where
  abbrev reply_of : Option (Channel (Reply P)) → Answer P
  reply_of result = elim result [
    | none ↦ oracle_panics
    | some channel ↦ elim channel.responses [ [] ↦ waits_forever | r ∷ _ ↦ file_of r ]
  ]

  abbrev CollectReply : HttpCollectRequest → Sources → Type 0
  CollectReply r s =
      IsDelivered {P = P} (some (collect_task r)) s
        (reply_of (process_query sha256 verkle_build verkle_proof (collect_task r) s))

  collected-IsDelivered :
      (r : HttpCollectRequest) (s : Sources) (task : Task) (collector : Collector)
      (found : String ⊎ Option ℕ)
      → s.task_by_id r.sign ≡ inr task
      → s.recover_collector task ≡ some (inr collector)
      → s.collect r collector ≡ found
      → CollectReply r s
  unfolding process_query send_response file_of
  collected-IsDelivered r s task collector (inl m) e e1 e2 = inr (
      inl (
        inr (inr (collector, (task, e, e1), λ (reader, e'). cc (sym e2 ∙ e'))),
        rw (process_query, e, e1, e2) refl,
      ))
  collected-IsDelivered r s task collector (inr none) e e1 e2 = inr (
      inl (
        inr (
            inr (
              collector,
              (task, e, e1),
              λ (reader, e'). let k : inr none ≡ inr (some reader) = sym e2 ∙ e' in cc k,
            )),
        rw (process_query, e, e1, e2) refl,
      ))
  collected-IsDelivered r s task collector (inr (some reader)) e e1 e2 =
      inl (reader, (collector, (task, e, e1), e2), rw (process_query, e, e1, e2) refl)

  recovered-IsDelivered :
      (r : HttpCollectRequest) (s : Sources) (task : Task) (found : Option (String ⊎ Collector))
      → s.task_by_id r.sign ≡ inr task
      → s.recover_collector task ≡ found
      → CollectReply r s
  unfolding process_query send_response file_of
  recovered-IsDelivered r s task none e e1 =
      inr (inr ((task, e, e1), rw (process_query, e, e1) refl))
  recovered-IsDelivered r s task (some (inl m)) e e1 =
      inr (inl (inr (inl (task, m, e, e1)), rw (process_query, e, e1) refl))
  recovered-IsDelivered r s task (some (inr collector)) e e1 =
      collected-IsDelivered r s task collector (s.collect r collector) e e1 refl

  collect-IsDelivered :
      (r : HttpCollectRequest) (s : Sources) (found : String ⊎ Task)
      → s.task_by_id r.sign ≡ found
      → CollectReply r s
  unfolding process_query send_response file_of
  collect-IsDelivered r s (inl m) e = inr (inl (inl (m, e), rw (process_query, e) refl))
  collect-IsDelivered r s (inr task) e =
      recovered-IsDelivered r s task (s.recover_collector task) e refl

  abbrev IsPlain : Option (Channel (Reply P)) → Type 0
  IsPlain result = (serves (reply_of result) ≡ false) × (is_refused (reply_of result) ≡ false)

  task-IsPlain :
      (found : String ⊎ Task) → IsPlain (answer_task sha256 verkle_build verkle_proof found)
  unfolding send_response file_of
  task-IsPlain (inl message) = (refl, refl)
  task-IsPlain (inr task) = elim (Option-cases (Evidence.generate_response task)) [
    | inl e ↦ rw (answer_task, e) (refl, refl)
    | inr (r, e) ↦ rw (answer_task, e) (refl, refl)
  ]

  epoch-IsPlain :
      (found : String ⊎ (DevEpoch × Assoc SlotHash Slot))
      → IsPlain (answer_epoch sha256 verkle_build verkle_proof found)
  unfolding send_response file_of
  epoch-IsPlain (inl message) = (refl, refl)
  epoch-IsPlain (inr epoch) = (refl, refl)

  -- No query but a collect query has a reader in its response.
  process_query-IsDelivered :
      (q : Query) (s : Sources)
      → IsDelivered (some q) s (reply_of (process_query sha256 verkle_build verkle_proof q s))
  unfolding process_query send_response file_of
  process_query-IsDelivered (evidence_preserve_task_id t) s = task-IsPlain (s.task_by_id t)
  process_query-IsDelivered (evidence_preserve_task_tx h) s = task-IsPlain (s.task_by_tx_hash h)
  process_query-IsDelivered (evidence_preserve_epoch_id e) s = epoch-IsPlain (s.epoch_by_id e)
  process_query-IsDelivered (evidence_preserve_epoch_tx h) s = epoch-IsPlain (s.epoch_by_tx_hash h)
  process_query-IsDelivered blockchain_latest_info s =
      elim (Option-cases (latest_info sha256 verkle_build verkle_proof s)) [
        | inl e ↦ rw (reply_of, process_query, e) (refl, refl)
        | inr (info, e) ↦ elim (Option-cases (latest_response info)) [
          | inl e1 ↦ rw (reply_of, process_query, e, e1) (refl, refl)
          | inr (shown, e1) ↦ rw (reply_of, process_query, e, e1) (refl, refl)
        ]
      ]
  process_query-IsDelivered (blockchain_block_number n) s = (refl, refl)
  process_query-IsDelivered (blockchain_block_hash h) s = (refl, refl)
  process_query-IsDelivered (blockchain_transaction h) s =
      elim (Sum-cases (s.reference_type_of (s.transaction_of h).1)) [
        | inl (m, e) ↦ rw (reply_of, process_query, e) (refl, refl)
        | inr (found, e) ↦ elim (Option-cases found) [
          | inl e1 ↦ rw (reply_of, process_query, e, e1) (refl, refl)
          | inr (rf, e1) ↦ rw (reply_of, process_query, e, e1) (refl, refl)
        ]
      ]
  process_query-IsDelivered nodes_status s = (refl, refl)
  process_query-IsDelivered date_synth_data s = elim (Sum-cases s.date_records) [
    | inl (m, e) ↦ rw (reply_of, process_query, e) (refl, refl)
    | inr (days, e) ↦ rw (reply_of, process_query, e) (refl, refl)
  ]
  process_query-IsDelivered date_transaction s = elim (Sum-cases s.date_records) [
    | inl (m, e) ↦ rw (reply_of, process_query, e) (refl, refl)
    | inr (days, e) ↦ rw (reply_of, process_query, e) (refl, refl)
  ]
  process_query-IsDelivered synth_task s = elim (Sum-cases s.all_tasks) [
    | inl (m, e) ↦ rw (reply_of, process_query, e) (refl, refl)
    | inr (tasks, e) ↦ elim (Option-cases (synth_task_response s.has_speed tasks)) [
      | inl e1 ↦ rw (reply_of, process_query, e, e1) (refl, refl)
      | inr (shown, e1) ↦ rw (reply_of, process_query, e, e1) (refl, refl)
    ]
  ]
  process_query-IsDelivered (task_on_nodes sign) s = (refl, refl)
  process_query-IsDelivered (collect_task r) s = collect-IsDelivered r s (s.task_by_id r.sign) refl
  process_query-IsDelivered (upload_task r) s = elim (Sum-cases (s.task_by_id r.task_id)) [
    | inl (m, e) ↦ rw (reply_of, process_query, e) (refl, refl)
    | inr (task, e) ↦ elim (Option-cases (s.recover_collector task)) [
      | inl e1 ↦ rw (reply_of, process_query, e, e1) (refl, refl)
      | inr (inl m, e1) ↦ rw (reply_of, process_query, e, e1) (refl, refl)
      | inr (inr c, e1) ↦ rw (reply_of, process_query, e, e1) (refl, refl)
    ]
  ]
  process_query-IsDelivered (slot_integrity_verification h type) s =
      elim (Option-cases (
        Integrity.generate_response sha256 verkle_build verkle_proof h type
          (s.finished_slots_by_slot h))) [
            | inl e ↦ rw (reply_of, process_query, e) (refl, refl)
            | inr (success_response a, e) ↦ rw (reply_of, process_query, e) (refl, refl)
            | inr (error_response kind message, e) ↦ rw (reply_of, process_query, e) (refl, refl)
          ]

  -- A request for a download that becomes no query is refused. One that becomes a collect query gets the
  -- file if its task is there, the collector of the task can be recovered, and gives a reader. If
  -- the task is not there, the recovery gives an error, or the collector gives no reader, then the
  -- handler panics; and if the recovery of the collector panics, then so does the oracle. One that
  -- becomes any other query is not refused and never gets a file.
  pub handle_download-IsDelivered :
      (c : QueryString) (s : Sources)
      → IsDelivered
          (build_query_from_get_request c)
          s
          (handle_download sha256 verkle_build verkle_proof c s)
  unfolding handle_download ask
  handle_download-IsDelivered c s = elim (Option-cases (build_query_from_get_request c)) [
    | inl e ↦ rw (handle_download, ask, e) refl
    | inr (q, e) ↦ rw (handle_download, ask, e) (process_query-IsDelivered q s)
  ]
