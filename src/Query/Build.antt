-- ===== src/Query/Build.antt =====
-- Query/request.go, BuildQueryFromGETRequest, the constructors that it calls, and ToHttpJson.
use rappa_master.Base.Bytes.{bytes_of}
use rappa_master.Base.{
  String, string_eq, ℤ, pos, Option, none, some, List, [], ◌∷◌, if◌then◌else◌, ◌==◌,
}
use rappa_master.Query.Integrity.{StructType, merkle, verkle}
use rappa_master.Query.Request.{
  QueryString, default_query, atoi, text, number, RawData, HttpUploadTaskRequest, Query,
  text_or_zero, number_or_zero, parse_collect, parse_upload, parse_integrity,
  evidence_preserve_task_tx, evidence_preserve_task_id, evidence_preserve_epoch_tx,
  evidence_preserve_epoch_id, blockchain_latest_info, blockchain_block_hash,
  blockchain_block_number, blockchain_transaction, nodes_status, date_synth_data, date_transaction,
  synth_task, task_on_nodes, collect_task, upload_task, slot_integrity_verification,
}

-- The constructors parse the raw data into zero values and drop whether that succeeded. The raw data of a
-- request always has a text or a number where the parsing asserts one.
unfoldable pub new_evidence_preserve_task_tx_query : RawData → Query
new_evidence_preserve_task_tx_query raw = evidence_preserve_task_tx (text_or_zero "txHash" raw)

unfoldable pub new_evidence_preserve_task_id_query : RawData → Query
new_evidence_preserve_task_id_query raw = evidence_preserve_task_id (text_or_zero "taskID" raw)

unfoldable pub new_evidence_preserve_epoch_tx_query : RawData → Query
new_evidence_preserve_epoch_tx_query raw = evidence_preserve_epoch_tx (text_or_zero "txHash" raw)

unfoldable pub new_evidence_preserve_epoch_id_query : RawData → Query
new_evidence_preserve_epoch_id_query raw = evidence_preserve_epoch_id (number_or_zero "epochID" raw)

unfoldable pub new_blockchain_block_hash_query : RawData → Query
new_blockchain_block_hash_query raw = blockchain_block_hash (text_or_zero "blockHash" raw)

unfoldable pub new_blockchain_block_number_query : RawData → Query
new_blockchain_block_number_query raw = blockchain_block_number (number_or_zero "blockNumber" raw)

unfoldable pub new_blockchain_transaction_query : RawData → Query
new_blockchain_transaction_query raw = blockchain_transaction (text_or_zero "txHash" raw)

unfoldable pub new_task_on_nodes_query : RawData → Query
new_task_on_nodes_query raw = task_on_nodes (text_or_zero "taskID" raw)

unfoldable pub new_collect_task_query : RawData → Query
new_collect_task_query raw =
    let (request, _) = parse_collect raw (record { sign = ""; size = pos 0 }) in
    collect_task request

unfoldable pub new_upload_task_query : RawData → Query
new_upload_task_query raw =
    let zero : HttpUploadTaskRequest = record {
      task_id = "";
      purpose = "";
      description = "";
      create_by = "";
    } in
    let (request, _) = parse_upload raw zero in upload_task request

unfoldable pub new_slot_integrity_verification : RawData → Query
new_slot_integrity_verification raw =
    let ((slot_hash, type), _) = parse_integrity raw ("", merkle) in
    slot_integrity_verification slot_hash type

-- The cases of the switch.
pub data QueryName : Type 0 where
  task_tx_name task_id_name epoch_tx_name epoch_id_name latest_info_name : QueryName
  block_hash_name block_number_name transaction_name nodes_status_name : QueryName
  date_synth_data_name date_transaction_name synth_task_name task_on_nodes_name : QueryName
  collect_task_name upload_task_name integrity_name : QueryName

abbrev pub named : List (String × QueryName) → String → Option QueryName
named [] query = none
named ((name, case_of) ∷ names) query =
    let rest = named names query in if query == name then some case_of else rest

abbrev pub switch_names : List (String × QueryName)
switch_names =
    ("EvidencePreserveTaskTxQuery", task_tx_name)
    ∷ ("EvidencePreserveTaskIDQuery", task_id_name)
    ∷ ("EvidencePreserveEpochTxQuery", epoch_tx_name)
    ∷ ("EvidencePreserveEpochIDQuery", epoch_id_name)
    ∷ ("BlockchainLatestInfoQuery", latest_info_name)
    ∷ ("BlockchainBlockHashQuery", block_hash_name)
    ∷ ("BlockchainBlockNumberQuery", block_number_name)
    ∷ ("BlockchainTransactionQuery", transaction_name)
    ∷ ("NodesStatusQuery", nodes_status_name)
    ∷ ("DateSynthDataQuery", date_synth_data_name)
    ∷ ("DateTransactionQuery", date_transaction_name)
    ∷ ("SynthTaskQuery", synth_task_name)
    ∷ ("TaskOnNodesQuery", task_on_nodes_name)
    ∷ ("CollectTaskQuery", collect_task_name)
    ∷ ("UploadTaskQuery", upload_task_name)
    ∷ ("SlotIntegrityVerification", integrity_name)
    ∷ []

-- A case that needs one text.
abbrev pub with_text : String → QueryString → (RawData → Query) → Option Query
with_text key c new =
    let value = default_query key "" c in
    if value == "" then none else some (new ((key, text value) ∷ []))

-- A case that needs one number.
abbrev pub with_number : String → QueryString → (RawData → Query) → Option Query
with_number key c new =
    let value = default_query key "" c in
    if value == ""
    then none
    else elim (atoi (bytes_of value)) [ none ↦ none | some n ↦ some (new ((key, number n) ∷ [])) ]

-- The body of each case; `none` is the result false.
unfoldable pub build_case : QueryName → QueryString → Option Query
build_case task_tx_name c = with_text "txHash" c new_evidence_preserve_task_tx_query
build_case task_id_name c = with_text "taskID" c new_evidence_preserve_task_id_query
build_case epoch_tx_name c = with_text "txHash" c new_evidence_preserve_epoch_tx_query
build_case epoch_id_name c = with_number "epochID" c new_evidence_preserve_epoch_id_query
build_case latest_info_name c = some blockchain_latest_info
build_case block_hash_name c = with_text "blockHash" c new_blockchain_block_hash_query
build_case block_number_name c = with_number "blockNumber" c new_blockchain_block_number_query
build_case transaction_name c = with_text "txHash" c new_blockchain_transaction_query
build_case nodes_status_name c = some nodes_status
build_case date_synth_data_name c = some date_synth_data
build_case date_transaction_name c = some date_transaction
build_case synth_task_name c = some synth_task
build_case task_on_nodes_name c = with_text "taskID" c new_task_on_nodes_query
build_case collect_task_name c =
    let task_id = default_query "taskID" "" c in
    let size = default_query "size" "" c in
    if task_id == "" then none else if size == "" then none else elim (atoi (bytes_of size)) [
      | none ↦ none
      | some s ↦ some (new_collect_task_query (("taskID", text task_id) ∷ ("size", number s) ∷ []))
    ]
build_case upload_task_name c =
    let task_id = default_query "taskID" "" c in
    if task_id == ""
    then none
    else some (
        new_upload_task_query (
          ("taskID", text task_id)
          ∷ ("purpose", text (default_query "purpose" "" c))
          ∷ ("description", text (default_query "description" "" c))
          ∷ ("createBy", text (default_query "createBy" "" c))
          ∷ []))
build_case integrity_name c =
    let slot_hash = default_query "slotHash" "" c in
    if slot_hash == ""
    then none
    else some (
        new_slot_integrity_verification
          (("slotHash", text slot_hash) ∷ ("type", text (default_query "type" "merkle" c)) ∷ []))

-- BuildQueryFromGETRequest.
unfoldable pub build_query_from_get_request : QueryString → Option Query
unfolding build_case
build_query_from_get_request c =
    let query = default_query "query" "" c in
    if query == ""
    then none
    else elim (named switch_names query) [ none ↦ none | some name ↦ build_case name c ]

abbrev upload_json : HttpUploadTaskRequest → RawData
upload_json r =
    ("TaskID", text r.task_id)
    ∷ ("Purpose", text r.purpose)
    ∷ ("Description", text r.description)
    ∷ ("CreateBy", text r.create_by)
    ∷ []

abbrev type_number : StructType → ℤ
type_number merkle = pos 0
type_number verkle = pos 1

-- ToHttpJson of each kind of query; the request of an UploadTaskQuery, which is one value there, is flattened.
unfoldable pub to_http_json : Query → RawData
to_http_json (evidence_preserve_task_tx h) =
    ("query", text "EvidencePreserveTaskTxQuery") ∷ ("txHash", text h) ∷ []
to_http_json (evidence_preserve_task_id t) =
    ("query", text "EvidencePreserveTaskIDQuery") ∷ ("taskID", text t) ∷ []
to_http_json (evidence_preserve_epoch_tx h) =
    ("query", text "EvidencePreserveEpochTxQuery") ∷ ("txHash", text h) ∷ []
to_http_json (evidence_preserve_epoch_id e) =
    ("query", text "EvidencePreserveEpochIDQuery") ∷ ("epochID", number e) ∷ []
to_http_json blockchain_latest_info = ("query", text "BlockchainLatestInfoQuery") ∷ []
to_http_json (blockchain_block_hash h) =
    ("query", text "BlockchainBlockHashQuery") ∷ ("blockHash", text h) ∷ []
to_http_json (blockchain_block_number n) =
    ("query", text "BlockchainBlockNumberQuery") ∷ ("blockNumber", number n) ∷ []
to_http_json (blockchain_transaction h) =
    ("query", text "BlockchainTransactionQuery") ∷ ("txHash", text h) ∷ []
to_http_json nodes_status = ("query", text "NodesStatusQuery") ∷ []
to_http_json date_synth_data = ("query", text "DateSynthDataQuery") ∷ []
to_http_json date_transaction = ("query", text "DateTransactionQuery") ∷ []
to_http_json synth_task = ("query", text "SynthTaskQuery") ∷ []
to_http_json (task_on_nodes sign) = ("query", text "TaskOnNodesQuery") ∷ ("taskId", text sign) ∷ []
to_http_json (collect_task r) =
    ("query", text "CollectTaskQuery") ∷ ("taskID", text r.sign) ∷ ("size", number r.size) ∷ []
to_http_json (upload_task r) = ("query", text "UploadTaskQuery") ∷ upload_json r
to_http_json (slot_integrity_verification h type) =
    ("query", text "SlotIntegrityVerification")
    ∷ ("slotHash", text h)
    ∷ ("type", number (type_number type))
    ∷ []
