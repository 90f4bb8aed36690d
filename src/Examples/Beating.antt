-- ===== src/Examples/Beating.antt =====
-- A heartbeat to three nodes, and a slot that is committed.
use rappa_master.Base.Assoc.{lookup}
use rappa_master.Base.Bytes.{bytes_of}
use rappa_master.Base.{
  ◌≡◌, refl, String, string_eq, ℤ, wrap_i32, pos, Bool, true, false, some, List, [], ◌∷◌, map,
  get_elem?, arith,
}
use rappa_master.Paradigm.Model.{SlotHash, SlotCommitment}
use rappa_master.Monitor.Status.{
  process_info, process_heartbeat_response, update_node, update_usage, NodeStatus, heartbeat,
  process_infos, new_statuses, new_node_status,
}
use rappa_master.Query.Request.{atoi, read_digits}
use rappa_master.Coordinator.Heartbeat.{
  Call, no_connection, answered, new_node_heartbeat_report_from_heartbeat, report_of_texts,
  SlotCommitRequest, send_heartbeat, commit_slot, reports_of, report_of,
  new_error_node_heartbeat_report,
}
use rappa_master.Coordinator.Beats.{Shows, send_heartbeat-Shows}

abbrev well : Call
well = answered (record {
  node_id = pos 0;
  node_status = ("cpu", "20") ∷ ("disk", "-1") ∷ ("total", "+500") ∷ [];
  votes = record { hash = "slot"; node_id = pos 0; state = true; desp = "" } ∷ [];
})

-- The second node cannot be reached, the third sends no number.
abbrev calls : List (ℤ × Call)
calls =
    (pos 0, well)
    ∷ (pos 1, no_connection "down")
    ∷ (
      pos 2,
      answered (record {
        node_id = pos 2;
        node_status = ("cpu", "20") ∷ ("disk", "3%") ∷ ("total", "500") ∷ [];
        votes = [];
      }),
    )
    ∷ []

abbrev commits : List (SlotHash × SlotCommitment)
commits = ("slot", []) ∷ []

send_heartbeat-Shows_example :
    (nodes' : List NodeStatus) × (s' : NodeStatus) × (process_infos
        (map heartbeat (send_heartbeat commits calls).0)
        (new_statuses 0 3)
      ≡ some nodes')
    × (get_elem? nodes' 0 ≡ some s')
    × Shows well (new_node_status (pos 0)) s'
unfolding new_statuses
send_heartbeat-Shows_example =
    send_heartbeat-Shows commits calls (new_statuses 0 3) 0 well (new_node_status (pos 0))
      (omega arith)
      (
        ((omega arith, omega arith), refl),
        (((omega arith, omega arith), tt), (((omega arith, omega arith), refl), tt)),
      )
      refl refl

abbrev shown : (cpu total : ℤ) → Bool → String → ℤ → NodeStatus
shown cpu total is_error message node_id = record (new_node_status node_id) {
  average_cpu_usage = cpu;
  disk_storage = total;
  is_error = is_error;
  err_message = message;
}

after :
    process_infos (map heartbeat (send_heartbeat commits calls).0) (new_statuses 0 3)
    ≡ some (
        shown (pos 20) (pos 500) false "" (pos 0)
        ∷ shown (pos 0) (pos 0) true "Error ExecutorError: down" (pos 1)
        ∷ shown
            (pos 0)
            (pos 0)
            true
            "Error ExecutorError: Invalid Heartbeat Node Status, Error disk usage value: 3%"
            (pos 2)
        ∷ [])
unfolding send_heartbeat reports_of report_of new_node_heartbeat_report_from_heartbeat
    report_of_texts new_error_node_heartbeat_report process_infos process_info
    process_heartbeat_response update_node update_usage new_statuses lookup atoi bytes_of
    read_digits wrap_i32
after = refl

abbrev request : SlotCommitRequest
request = record {
  node_id = pos 2;
  node_sign = "signed";
  ca = "ca";
  sign = "task";
  slot = pos 1;
  size = pos 5;
  commitment = [];
  hash = "slot";
  padding = [];
  store = pos 1;
  upload_size = pos 100;
}

-- A commit of the third node, after which it shows no error any more.
recovered :
    process_infos (heartbeat (commit_slot (pos 3) [] request).1 ∷ []) (
      shown (pos 1) (pos 2) true "down" (pos 0)
      ∷ shown (pos 1) (pos 2) true "down" (pos 1)
      ∷ shown (pos 1) (pos 2) true "down" (pos 2)
      ∷ [])
    ≡ some (
        shown (pos 1) (pos 2) true "down" (pos 0)
        ∷ shown (pos 1) (pos 2) true "down" (pos 1)
        ∷ shown (pos 1) (pos 2) false "" (pos 2)
        ∷ [])
unfolding commit_slot process_infos process_info process_heartbeat_response update_node update_usage
recovered = refl
