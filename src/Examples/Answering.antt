-- ===== src/Examples/Answering.antt =====
-- Requests, and what the oracle answers.
use rappa_master.Base.{some, pos, none, [], ◌∷◌, true, false, inl, inr}
use rappa_master.Base.Assoc.{lookup}
use rappa_master.Base.Bytes.{bytes_of}
use rappa_master.Query.Request.{QueryString, evidence_preserve_task_id, read_digits, atoi}
use rappa_master.Query.Build.{build_query_from_get_request}
use rappa_master.Query.Refusal.{IsBuilt, build_query_from_get_request-IsBuilt}
use rappa_master.Query.Dispatch.{Sources, process_query}
use rappa_master.Query.Answered.{IsAnswered, process_query-IsAnswered}
use rappa_master.Examples.Querying.{with_slots, paid, has_dataset, sha256, no_tree, no_proof}

abbrev pub request : QueryString
request = ("query", "CollectTaskQuery") ∷ ("taskID", "task") ∷ ("size", "-12") ∷ []

build_query_from_get_request-IsBuilt_example :
    IsBuilt "CollectTaskQuery" true (build_query_from_get_request request)
unfolding bytes_of atoi read_digits lookup
build_query_from_get_request-IsBuilt_example = build_query_from_get_request-IsBuilt request

-- Only the task is there.
abbrev pub sources : Sources
sources = record {
  task_by_id = λ id. inr with_slots;
  task_by_tx_hash = λ hash. inl "no transaction";
  epoch_by_id = λ id. inl "no epoch";
  epoch_by_tx_hash = λ hash. inl "no transaction";
  latest_transactions = inr [];
  latest_epochs = inl "no epochs";
  finalized_slots_count = inr 2;
  synth_data_by_model = inr [];
  transaction_count = inr 0;
  block_of = λ q. 0;
  transaction_of = λ hash. (0, hash);
  reference_type_of = λ hash. inl "no transaction";
  nodes = [];
  date_records = inr [];
  count_task_by_status = λ status. pos 0;
  all_tasks = inr ((with_slots, some "0x1") ∷ []);
  has_speed = λ task. true;
  finished_slots_by_task = λ id. [];
  finished_slots_by_slot = λ hash. [];
  recover_collector = λ task. some (inl "task is not finished, cannot be downloaded");
  collect = λ request collector. inr none;
}

process_query-IsAnswered_example :
    IsAnswered sha256 no_tree no_proof
      (process_query sha256 no_tree no_proof (evidence_preserve_task_id "task") sources)
      false
process_query-IsAnswered_example =
    process_query-IsAnswered sha256 no_tree no_proof (evidence_preserve_task_id "task") sources
      (paid, has_dataset)
