-- ===== src/Query/Refusal.antt =====
-- Which GET requests become a query.
use rappa_master.Base.Assoc.{lookup}
use rappa_master.Base.Bytes.{bytes_of}
use rappa_master.Base.{
  String, string_eq, Bool, true, false, not, ◌&&◌, Option, none, some, List, [], ◌∷◌, ◌≡◌, refl,
  sym, ◌∙◌, ap, if◌then◌else◌, ◌==◌, Bool-cases, Option-cases, inl, inr, All, arith,
}
use rappa_master.Query.Request.{
  QueryString, default_query, atoi, text, number, RawData, Query, text_of,
}
use rappa_master.Query.Build.{
  QueryName, named, switch_names, with_text, with_number, build_case, build_query_from_get_request,
  to_http_json, new_evidence_preserve_task_tx_query, new_evidence_preserve_task_id_query,
  new_evidence_preserve_epoch_tx_query, new_evidence_preserve_epoch_id_query,
  new_blockchain_block_hash_query, new_blockchain_block_number_query,
  new_blockchain_transaction_query, new_task_on_nodes_query, new_collect_task_query,
  new_upload_task_query, new_slot_integrity_verification, task_tx_name, task_id_name, epoch_tx_name,
  epoch_id_name, latest_info_name, block_hash_name, block_number_name, transaction_name,
  nodes_status_name, date_synth_data_name, date_transaction_name, synth_task_name,
  task_on_nodes_name, collect_task_name, upload_task_name, integrity_name,
}

-- What a request must give: a text that is not empty, or a decimal number of 64 bits.
pub data Need : Type 0 where
  text_needed number_needed : String → Need

-- By kind of query, as the table of the interface.
abbrev pub needs : QueryName → List Need
needs task_tx_name = text_needed "txHash" ∷ []
needs task_id_name = text_needed "taskID" ∷ []
needs epoch_tx_name = text_needed "txHash" ∷ []
needs epoch_id_name = number_needed "epochID" ∷ []
needs block_hash_name = text_needed "blockHash" ∷ []
needs block_number_name = number_needed "blockNumber" ∷ []
needs transaction_name = text_needed "txHash" ∷ []
needs task_on_nodes_name = text_needed "taskID" ∷ []
needs collect_task_name = text_needed "taskID" ∷ number_needed "size" ∷ []
needs upload_task_name = text_needed "taskID" ∷ []
needs integrity_name = text_needed "slotHash" ∷ []
needs _ = []

abbrev pub is_given : QueryString → Need → Bool
is_given c (text_needed key) = not (default_query key "" c == "")
is_given c (number_needed key) = elim (atoi (bytes_of (default_query key "" c))) [
  | none ↦ false
  | some _ ↦ true
]

abbrev pub all_given : QueryString → List Need → Bool
all_given c [] = true
all_given c (need ∷ rest) = is_given c need && all_given c rest

-- The request names a query and gives what that query needs.
abbrev pub is_accepted : QueryString → Bool
is_accepted c = elim (named switch_names (default_query "query" "" c)) [
  | none ↦ false
  | some name ↦ all_given c (needs name)
]

abbrev name_of : QueryName → String
name_of task_tx_name = "EvidencePreserveTaskTxQuery"
name_of task_id_name = "EvidencePreserveTaskIDQuery"
name_of epoch_tx_name = "EvidencePreserveEpochTxQuery"
name_of epoch_id_name = "EvidencePreserveEpochIDQuery"
name_of latest_info_name = "BlockchainLatestInfoQuery"
name_of block_hash_name = "BlockchainBlockHashQuery"
name_of block_number_name = "BlockchainBlockNumberQuery"
name_of transaction_name = "BlockchainTransactionQuery"
name_of nodes_status_name = "NodesStatusQuery"
name_of date_synth_data_name = "DateSynthDataQuery"
name_of date_transaction_name = "DateTransactionQuery"
name_of synth_task_name = "SynthTaskQuery"
name_of task_on_nodes_name = "TaskOnNodesQuery"
name_of collect_task_name = "CollectTaskQuery"
name_of upload_task_name = "UploadTaskQuery"
name_of integrity_name = "SlotIntegrityVerification"

named-name_of :
    (names : List (String × QueryName)) (query : String) (n : QueryName)
    → All (λ (name, m). name_of m ≡ name) names
    → named names query ≡ some n
    → name_of n ≡ query
named-name_of [] query n all h = absurd (ground arith)
named-name_of ((name, m) ∷ names) query n (e, all) h = elim (Bool-cases (query == name)) [
  | inl same ↦
      let k : m ≡ n = ground arith in
      ap name_of (sym k) ∙ e ∙ sym ((string_eq.same_iff query name).0 same)
  | inr other ↦ named-name_of names query n all (ground arith)
]

-- A query is built exactly when all is given, and then its JSON form has the name.
abbrev pub IsBuilt : (name : String) → (given : Bool) → Option Query → Type 0
IsBuilt name given none = given ≡ false
IsBuilt name given (some q) = (given ≡ true) × (text_of "query" (to_http_json q) ≡ some name)

with_text-IsBuilt :
    (key name : String) (c : QueryString) (new : RawData → Query)
    → ((raw : RawData) → text_of "query" (to_http_json (new raw)) ≡ some name)
    → IsBuilt name (all_given c (text_needed key ∷ [])) (with_text key c new)
with_text-IsBuilt key name c new h = elim (Bool-cases (default_query key "" c == "")) [
  | inl empty ↦ rw empty refl
  | inr given ↦ rw given (refl, h ((key, text (default_query key "" c)) ∷ []))
]

atoi_empty : (t : String) → t ≡ "" → atoi (bytes_of t) ≡ none
unfolding atoi bytes_of
atoi_empty t e = rw e refl

with_number-IsBuilt :
    (key name : String) (c : QueryString) (new : RawData → Query)
    → ((raw : RawData) → text_of "query" (to_http_json (new raw)) ≡ some name)
    → IsBuilt name (all_given c (number_needed key ∷ [])) (with_number key c new)
with_number-IsBuilt key name c new h = elim (Bool-cases (default_query key "" c == "")) [
  | inl empty ↦
      let e : default_query key "" c ≡ "" =
        (string_eq.same_iff (default_query key "" c) "").0 empty in
      let k : atoi (bytes_of (default_query key "" c)) ≡ none =
        atoi_empty (default_query key "" c) e in
      ground (arith, k)
  | inr given ↦ elim (Option-cases (atoi (bytes_of (default_query key "" c)))) [
    | inl bad ↦ rw (given, bad) (ground arith)
    | inr (n, good) ↦ rw (given, good) (ground arith, h ((key, number n) ∷ []))
  ]
]

build_case-IsBuilt :
    (n : QueryName) (c : QueryString) → IsBuilt (name_of n) (all_given c (needs n)) (build_case n c)
unfolding build_case to_http_json text_of lookup new_evidence_preserve_task_tx_query
    new_evidence_preserve_task_id_query new_evidence_preserve_epoch_tx_query
    new_evidence_preserve_epoch_id_query new_blockchain_block_hash_query
    new_blockchain_block_number_query new_blockchain_transaction_query new_task_on_nodes_query
    new_collect_task_query new_upload_task_query new_slot_integrity_verification
build_case-IsBuilt task_tx_name c =
    with_text-IsBuilt "txHash" (name_of task_tx_name) c new_evidence_preserve_task_tx_query
      (λ raw. refl)
build_case-IsBuilt task_id_name c =
    with_text-IsBuilt "taskID" (name_of task_id_name) c new_evidence_preserve_task_id_query
      (λ raw. refl)
build_case-IsBuilt epoch_tx_name c =
    with_text-IsBuilt "txHash" (name_of epoch_tx_name) c new_evidence_preserve_epoch_tx_query
      (λ raw. refl)
build_case-IsBuilt epoch_id_name c =
    with_number-IsBuilt "epochID" (name_of epoch_id_name) c new_evidence_preserve_epoch_id_query
      (λ raw. refl)
build_case-IsBuilt latest_info_name c = (refl, refl)
build_case-IsBuilt block_hash_name c =
    with_text-IsBuilt "blockHash" (name_of block_hash_name) c new_blockchain_block_hash_query
      (λ raw. refl)
build_case-IsBuilt block_number_name c =
    with_number-IsBuilt "blockNumber" (name_of block_number_name) c
      new_blockchain_block_number_query (λ raw. refl)
build_case-IsBuilt transaction_name c =
    with_text-IsBuilt "txHash" (name_of transaction_name) c new_blockchain_transaction_query
      (λ raw. refl)
build_case-IsBuilt nodes_status_name c = (refl, refl)
build_case-IsBuilt date_synth_data_name c = (refl, refl)
build_case-IsBuilt date_transaction_name c = (refl, refl)
build_case-IsBuilt synth_task_name c = (refl, refl)
build_case-IsBuilt task_on_nodes_name c =
    with_text-IsBuilt "taskID" (name_of task_on_nodes_name) c new_task_on_nodes_query (λ raw. refl)
build_case-IsBuilt collect_task_name c = elim (Bool-cases (default_query "taskID" "" c == "")) [
  | inl empty ↦ rw empty refl
  | inr given ↦ rw given (
      with_number-IsBuilt "size" "CollectTaskQuery" c
        (λ raw. new_collect_task_query (("taskID", text (default_query "taskID" "" c)) ∷ raw))
        (λ raw. refl))
]
build_case-IsBuilt upload_task_name c =
    with_text-IsBuilt "taskID" "UploadTaskQuery" c
      (λ raw. new_upload_task_query (
        ("taskID", text (default_query "taskID" "" c))
        ∷ ("purpose", text (default_query "purpose" "" c))
        ∷ ("description", text (default_query "description" "" c))
        ∷ ("createBy", text (default_query "createBy" "" c))
        ∷ []))
      (λ raw. refl)
build_case-IsBuilt integrity_name c =
    with_text-IsBuilt "slotHash" "SlotIntegrityVerification" c
      (λ raw. new_slot_integrity_verification (
        ("slotHash", text (default_query "slotHash" "" c))
        ∷ ("type", text (default_query "type" "merkle" c))
        ∷ []))
      (λ raw. refl)

-- Over any table of names, of which none is empty.
IsBuilt-switch :
    (names : List (String × QueryName)) (query : String) (c : QueryString)
    → All (λ (name, m). name_of m ≡ name) names
    → named names "" ≡ none
    → IsBuilt query
        (elim (named names query) [ none ↦ false | some n ↦ all_given c (needs n) ])
        (if query == ""
          then none
          else elim (named names query) [ none ↦ none | some n ↦ build_case n c ])
IsBuilt-switch names query c all blank = elim (Bool-cases (query == "")) [
  | inl empty ↦
      let k : named names query ≡ none = rw ((string_eq.same_iff query "").0 empty) blank in
      rw (empty, k) refl
  | inr given ↦ elim (Option-cases (named names query)) [
    | inl unknown ↦ rw (given, unknown) refl
    | inr (n, found) ↦
        rw (given, found, ← named-name_of names query n all found) (build_case-IsBuilt n c)
  ]
]

-- A GET request is refused exactly when it names none of the sixteen queries, or when a text that the
-- query needs is missing or empty, or when a number that it needs is missing or is no decimal number
-- of 64 bits. Otherwise it becomes a query, and its JSON form has the name that was asked for.
pub build_query_from_get_request-IsBuilt :
    (c : QueryString)
    → IsBuilt (default_query "query" "" c) (is_accepted c) (build_query_from_get_request c)
unfolding build_query_from_get_request
build_query_from_get_request-IsBuilt c =
    IsBuilt-switch switch_names (default_query "query" "" c) c
      (
        refl,
        (
          refl,
          (
            refl,
            (
              refl,
              (
                refl,
                (
                  refl,
                  (
                    refl,
                    (refl, (refl, (refl, (refl, (refl, (refl, (refl, (refl, (refl, tt))))))))),
                  ),
                ),
              ),
            ),
          ),
        ),
      )
      refl
