-- ===== src/Coordinator/Heartbeat.antt =====
-- Coordinator/heartbeatImpl.go and commitImpl.go, and the reports of paradigm/monitor.go: a heartbeat to
-- all nodes, and a slot that a node commits. What comes of each call is a parameter, in the order in
-- which the calls end; so are the random bytes of an answer. Speeds are left out.
use rappa_master.Base.Assoc.{Assoc, lookup}
use rappa_master.Base.Bytes.{Bytes, bytes_of}
use rappa_master.Base.{
  String, string_eq, ◌<>◌, ℤ, pos, negsuc, wrap_i32, true, false, none, some, List, [], ◌∷◌,
}
use rappa_master.Paradigm.Model.{SlotHash, SlotCommitment}
use rappa_master.Paradigm.Commit.{SignedCommitSlotItem, new_signed_commit_slot, set_hash}
use rappa_master.Monitor.Status.{NodeHeartbeatReport}
use rappa_master.Handler.{Ballot, Response, process, new_vote_handler}
use rappa_master.Query.Request.{atoi}

pub record HeartbeatResponse : Type 0 where
  pub node_id : ℤ
  pub node_status : Assoc String String
  pub votes : List Ballot

-- What comes of the call of a node: no connection or an error of the call, with its text, or a response.
pub data Call : Type 0 where
  no_connection no_answer : (message : String) → Call
  answered : HeartbeatResponse → Call

unfoldable pub new_error_node_heartbeat_report : ℤ → String → NodeHeartbeatReport
new_error_node_heartbeat_report node_id error = record {
  node_id = node_id;
  cpu_usage = pos 0;
  disk_usage = pos 0;
  disk_storage = pos 0;
  is_error = true;
  err_message = error;
}

-- The text of an error of the type ExecutorError.
abbrev pub executor_error : String → String
executor_error message = "Error ExecutorError: " <> message

abbrev pub missing_key : String → String
missing_key key = executor_error ("Invalid Heartbeat Node Status, Error status key: " <> key)

abbrev pub bad_value : (what value : String) → String
bad_value what value =
    executor_error ("Invalid Heartbeat Node Status, Error " <> what <> " value: " <> value)

-- The numbers of a status whose texts are there.
unfoldable pub report_of_texts : ℤ → (cpu disk total : String) → NodeHeartbeatReport
unfolding new_error_node_heartbeat_report
report_of_texts node_id cpu disk total = elim (atoi (bytes_of cpu)) [
  | none ↦ new_error_node_heartbeat_report node_id (bad_value "cpu status" cpu)
  | some cpu_usage ↦ elim (atoi (bytes_of disk)) [
    | none ↦ new_error_node_heartbeat_report node_id (bad_value "disk usage" disk)
    | some disk_usage ↦ elim (atoi (bytes_of total)) [
      | none ↦ new_error_node_heartbeat_report node_id (bad_value "disk storage" total)
      | some disk_storage ↦ record {
        node_id = node_id;
        cpu_usage = cpu_usage;
        disk_usage = wrap_i32 disk_usage;
        disk_storage = wrap_i32 disk_storage;
        is_error = false;
        err_message = "";
      }
    ]
  ]
]

-- NewNodeHeartbeatReportFromHeartbeat
unfoldable pub new_node_heartbeat_report_from_heartbeat : HeartbeatResponse → NodeHeartbeatReport
unfolding new_error_node_heartbeat_report report_of_texts
new_node_heartbeat_report_from_heartbeat h = elim (lookup "cpu" h.node_status) [
  | none ↦ new_error_node_heartbeat_report h.node_id (missing_key "cpu")
  | some cpu ↦ elim (lookup "disk" h.node_status) [
    | none ↦ new_error_node_heartbeat_report h.node_id (missing_key "disk")
    | some disk ↦ elim (lookup "total" h.node_status) [
      | none ↦ new_error_node_heartbeat_report h.node_id (missing_key "total")
      | some total ↦ report_of_texts h.node_id cpu disk total
    ]
  ]
]

-- The goroutine of one node: what it sends to the monitor, and what it hands to the vote handler.
unfoldable pub report_of : ℤ → Call → NodeHeartbeatReport
unfolding new_error_node_heartbeat_report new_node_heartbeat_report_from_heartbeat
report_of n (no_connection message) =
    new_error_node_heartbeat_report (wrap_i32 n) (executor_error message)
report_of n (no_answer message) =
    new_error_node_heartbeat_report (wrap_i32 n) (executor_error message)
report_of n (answered h) = new_node_heartbeat_report_from_heartbeat h

unfoldable pub reports_of : List (ℤ × Call) → List NodeHeartbeatReport
reports_of [] = []
reports_of ((n, call) ∷ calls) = report_of n call ∷ reports_of calls

unfoldable pub responses_of : List (ℤ × Call) → List Response
responses_of [] = []
responses_of ((n, no_connection _) ∷ calls) = responses_of calls
responses_of ((n, no_answer _) ∷ calls) = responses_of calls
responses_of ((n, answered h) ∷ calls) = h.votes ∷ responses_of calls

-- sendHeartbeat: the reports to the monitor, and the slots that the vote handler sends on.
unfoldable pub send_heartbeat :
    (commits : Assoc SlotHash SlotCommitment)
    → List (ℤ × Call)
    → List NodeHeartbeatReport × List SignedCommitSlotItem
send_heartbeat commits calls =
    (reports_of calls, process (new_vote_handler commits) (responses_of calls))

pub record SlotCommitRequest : Type 0 where
  pub node_id : ℤ
  pub node_sign : String
  pub ca : String
  pub sign : String
  pub slot : ℤ
  pub size : ℤ
  pub commitment : SlotCommitment
  pub hash : SlotHash
  pub padding : List ℤ
  pub store : ℤ
  pub upload_size : ℤ

pub record SlotCommitResponse : Type 0 where
  pub seed : Bytes
  pub timeout : ℤ
  pub hash : SlotHash

-- NewNodeHeartbeatReportFromCommit: the numbers are not measured.
unfoldable pub new_node_heartbeat_report_from_commit : SlotCommitRequest → NodeHeartbeatReport
new_node_heartbeat_report_from_commit req = record {
  node_id = req.node_id;
  cpu_usage = negsuc 0;
  disk_usage = negsuc 0;
  disk_storage = negsuc 0;
  is_error = false;
  err_message = "";
}

-- CommitSlot: what goes to the epoch manager, what goes to the monitor, and the answer.
unfoldable pub commit_slot :
    (max_epoch_delay : ℤ) (seed : Bytes)
    → SlotCommitRequest
    → SignedCommitSlotItem × NodeHeartbeatReport × SlotCommitResponse
unfolding new_node_heartbeat_report_from_commit new_signed_commit_slot
commit_slot max_epoch_delay seed req =
    let signed =
      new_signed_commit_slot
        (record {
          nid = req.node_id;
          process = req.size;
          sign = req.sign;
          slot = req.slot;
          epoch = negsuc 0;
          padding = req.padding;
          store = req.store;
          commitment = req.commitment;
          upload_size = req.upload_size;
        })
        req.node_sign req.ca in
    (
      record signed { item = set_hash req.hash signed.item },
      new_node_heartbeat_report_from_commit req,
      record { seed = seed; timeout = wrap_i32 max_epoch_delay; hash = req.hash },
    )
