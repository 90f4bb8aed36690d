-- ===== src/Coordinator/Reports.antt =====
-- What a report of a heartbeat says: the numbers that the node sent, or an error.
use rappa_master.Base.Assoc.{Assoc, lookup}
use rappa_master.Base.Bytes.{bytes_of}
use rappa_master.Base.{
  ◌≡◌, refl, sym, ap, subst, ◌∙◌, ◌⊎◌, inl, inr, String, string_eq, ℤ, wrap_i32, wrap_i32_self,
  IsI32, true, false, Option-cases, none, some,
}
use rappa_master.Monitor.Status.{NodeHeartbeatReport}
use rappa_master.Coordinator.Heartbeat.{
  HeartbeatResponse, Call, no_connection, no_answer, answered, missing_key, bad_value,
  new_error_node_heartbeat_report, report_of_texts, new_node_heartbeat_report_from_heartbeat,
  report_of,
}
use rappa_master.Query.Request.{atoi}

-- The text of a key is there, and is this number.
abbrev Reads : String → Assoc String String → ℤ → Type 0
Reads key m z = (t : String) × (lookup key m ≡ some t) × (atoi (bytes_of t) ≡ some z)

-- The node has answered with these three numbers.
abbrev pub Measures : Call → (cpu disk total : ℤ) → Type 0
Measures (no_connection _) cpu disk total = ⊥
Measures (no_answer _) cpu disk total = ⊥
Measures (answered h) cpu disk total =
    Reads "cpu" h.node_status cpu
    × Reads "disk" h.node_status disk
    × Reads "total" h.node_status total

abbrev pub IsGood : Call → NodeHeartbeatReport → Type 0
IsGood call r =
    (cpu : ℤ) × (disk : ℤ) × (total : ℤ) × Measures call cpu disk total
    × (r.is_error ≡ false)
    × (r.cpu_usage ≡ cpu)
    × (r.disk_usage ≡ wrap_i32 disk)
    × (r.disk_storage ≡ wrap_i32 total)

abbrev pub IsBad : Call → NodeHeartbeatReport → Type 0
IsBad call r = (r.is_error ≡ true) × ((cpu disk total : ℤ) → ¬ Measures call cpu disk total)

-- A text that is no number.
unread :
    (key : String) (m : Assoc String String) (t : String)
    → lookup key m ≡ some t
    → atoi (bytes_of t) ≡ none
    → (z : ℤ) → ¬ Reads key m z
unread key m t there bad z (t', there', good) =
    let same : t ≡ t' = cc (sym there ∙ there') in
    let bad' : none ≡ some z = sym bad ∙ ap (λ t. atoi (bytes_of t)) same ∙ good in cc bad'

missing : (key : String) (m : Assoc String String) → lookup key m ≡ none → (z : ℤ) → ¬ Reads key m z
missing key m gone z (t, there, good) = cc (sym gone ∙ there)

abbrev IsRead : HeartbeatResponse → Type 0
IsRead h =
    (r : NodeHeartbeatReport) × (new_node_heartbeat_report_from_heartbeat h ≡ r)
    × (r.node_id ≡ h.node_id)
    × (IsGood (answered h) r ⊎ IsBad (answered h) r)

refused :
    (h : HeartbeatResponse) (message : String)
    → new_node_heartbeat_report_from_heartbeat h ≡ new_error_node_heartbeat_report h.node_id message
    → ((cpu disk total : ℤ) → ¬ Measures (answered h) cpu disk total)
    → IsRead h
unfolding new_error_node_heartbeat_report
refused h message e not =
    (new_error_node_heartbeat_report h.node_id message, e, refl, inr (refl, not))

new_node_heartbeat_report_from_heartbeat-cases : (h : HeartbeatResponse) → IsRead h
unfolding new_node_heartbeat_report_from_heartbeat report_of_texts
new_node_heartbeat_report_from_heartbeat-cases h =
    let m = h.node_status in
    elim (Option-cases (lookup "cpu" m)) [
      | inl e ↦
          refused h (missing_key "cpu") (rw (new_node_heartbeat_report_from_heartbeat, e) refl)
            (λ cpu disk total r. missing "cpu" m e cpu r.0)
      | inr (cpu, e) ↦ elim (Option-cases (lookup "disk" m)) [
        | inl e1 ↦
            refused h (missing_key "disk")
              (rw (new_node_heartbeat_report_from_heartbeat, e, e1) refl)
              (λ cpu disk total r. missing "disk" m e1 disk r.1)
        | inr (disk, e1) ↦ elim (Option-cases (lookup "total" m)) [
          | inl e2 ↦
              refused h (missing_key "total")
                (rw (new_node_heartbeat_report_from_heartbeat, e, e1, e2) refl)
                (λ cpu disk total r. missing "total" m e2 total r.2)
          | inr (total, e2) ↦
              let whole : new_node_heartbeat_report_from_heartbeat h
                  ≡ report_of_texts h.node_id cpu disk total =
                rw (new_node_heartbeat_report_from_heartbeat, e, e1, e2) refl in
              elim (Option-cases (atoi (bytes_of cpu))) [
                | inl e3 ↦
                    refused h (bad_value "cpu status" cpu) (whole ∙ rw (report_of_texts, e3) refl)
                      (λ a b c r. unread "cpu" m cpu e e3 a r.0)
                | inr (a, e3) ↦ elim (Option-cases (atoi (bytes_of disk))) [
                  | inl e4 ↦
                      refused h (bad_value "disk usage" disk)
                        (whole ∙ rw (report_of_texts, e3, e4) refl)
                        (λ a b c r. unread "disk" m disk e1 e4 b r.1)
                  | inr (b, e4) ↦ elim (Option-cases (atoi (bytes_of total))) [
                    | inl e5 ↦
                        refused h (bad_value "disk storage" total)
                          (whole ∙ rw (report_of_texts, e3, e4, e5) refl)
                          (λ a b c r. unread "total" m total e2 e5 c r.2)
                    | inr (c, e5) ↦ (
                      record {
                        node_id = h.node_id;
                        cpu_usage = a;
                        disk_usage = wrap_i32 b;
                        disk_storage = wrap_i32 c;
                        is_error = false;
                        err_message = "";
                      },
                      whole ∙ rw (report_of_texts, e3, e4, e5) refl,
                      refl,
                      inl (
                        a,
                        b,
                        c,
                        ((cpu, e, e3), (disk, e1, e4), (total, e2, e5)),
                        refl,
                        refl,
                        refl,
                        refl,
                      ),
                    )
                  ]
                ]
              ]
        ]
      ]
    ]

-- A response says that it comes from the node that was called.
abbrev pub IsOwn : ℤ → Call → Type 0
IsOwn n (no_connection _) = Unit
IsOwn n (no_answer _) = Unit
IsOwn n (answered h) = h.node_id ≡ n

pub report_of-cases :
    (n : ℤ) (call : Call)
    → IsI32 n
    → IsOwn n call
    → ((report_of n call).node_id ≡ n)
      × (IsGood call (report_of n call) ⊎ IsBad call (report_of n call))
unfolding report_of new_error_node_heartbeat_report
report_of-cases n (no_connection message) fits own =
    (wrap_i32_self n fits, inr (refl, λ a b c no. no))
report_of-cases n (no_answer message) fits own = (wrap_i32_self n fits, inr (refl, λ a b c no. no))
report_of-cases n (answered h) fits own =
    let (r, e, id, cases) = new_node_heartbeat_report_from_heartbeat-cases h in
    (
      ap (λ r. r.node_id) e ∙ id ∙ own,
      subst (λ r. IsGood (answered h) r ⊎ IsBad (answered h) r) (sym e) cases,
    )
