-- ===== src/Http.antt =====
-- Network/HTTP/url.go: what the HTTP server does with a request. gin is a parameter: it gives the query
-- string, or the fields of a JSON body. The oracle takes the query in one round of its own; a panic there
-- ends the program, a panic in a handler only the request.
pub mod Delivery
use rappa_master.Base.Assoc.{Assoc}
use rappa_master.Base.Bytes.{Bytes}
use rappa_master.Base.{
  ℕ, String, ℤ, pos, int_eq, Bool, true, false, Option, none, some, List, [], ◌∷◌, ◌⊎◌, ◌==◌,
  if◌then◌else◌,
}
use rappa_master.Paradigm.Model.{
  TaskHash, Params, SupportModelType, name_to_model_type, output_type,
}
use rappa_master.Paradigm.Slot.{processing}
use rappa_master.Collector.{new_collector}
use rappa_master.Task.{Task, new_task}
use rappa_master.Query.Response.{Response, success_response, error_response}
use rappa_master.Query.Request.{QueryString}
use rappa_master.Query.Build.{build_query_from_get_request}
use rappa_master.Query.Dispatch.{Reply, reader_reply, Sources, process_query}

-- What the front end gets.
pub data Answer (P : Type 0) : Type 0 where
  bad_request : Answer P
  json : Response (Reply P) → Answer P
  file : (reader : ℕ) → Answer P
  waits_forever handler_panics oracle_panics : Answer P

-- ToHttpJson, asserted to have a reader under "fileReader": only the response to a collect query has one.
unfoldable pub file_of : {P : Type 0} → Response (Reply P) → Answer P
file_of (success_response (reader_reply reader)) = file reader
file_of _ = handler_panics

module _ (sha256 : Bytes → Bytes) {V P : Type 0} (verkle_build : List Bytes → String ⊎ V)
    (verkle_proof : V → ℕ → Option P) where
  -- The query is sent to the oracle, and its response is awaited.
  unfoldable pub ask : QueryString → Sources → (Response (Reply P) → Answer P) → Answer P
  ask c s reply = elim (build_query_from_get_request c) [
    | none ↦ bad_request
    | some q ↦ elim (process_query sha256 verkle_build verkle_proof q s) [
      | none ↦ oracle_panics
      | some channel ↦ elim channel.responses [ [] ↦ waits_forever | r ∷ _ ↦ reply r ]
    ]
  ]

  -- HandleGET
  unfoldable pub handle_get : QueryString → Sources → Answer P
  unfolding ask
  handle_get c s = ask c s json

  -- HandleDownload
  unfoldable pub handle_download : QueryString → Sources → Answer P
  unfolding ask file_of
  handle_download c s = ask c s file_of

pub record HttpInitTaskRequest : Type 0 where
  pub name : String
  pub size : ℤ
  pub slot_size : ℤ
  pub model : String
  pub params : Params
  pub is_reliable : Bool

-- What becomes of a request for a new task: no valid JSON, a panic on an unknown model, or the task that
-- is sent on to the chain.
pub data Creation : Type 0 where
  refused unknown_model : Creation
  created : Task → Creation

-- The handler of INIT_TASK.
unfoldable pub init_task : (now : ℕ) → TaskHash → Option HttpInitTaskRequest → Creation
init_task now task_id none = refused
init_task now task_id (some r) = elim (name_to_model_type r.model) [
  | none ↦ unknown_model
  | some model ↦
      let slot_size = if r.slot_size == pos 0 then pos 10000 else r.slot_size in
      let task = new_task now task_id r.name model slot_size r.params r.size r.is_reliable in
      created (record task { collector = some (new_collector task.sign task.output) })
]
