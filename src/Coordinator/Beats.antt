-- ===== src/Coordinator/Beats.antt =====
-- What the monitor shows of a node after a heartbeat.
use rappa_master.Base.Assoc.{Assoc}
use rappa_master.Base.{
  ℕ, ◌^◌, ◌≤◌, ◌≡◌, refl, ap, subst, ◌∙◌, ◌⊎◌, inl, inr, String, string_eq, ℤ, pos, int_beq,
  wrap_i32, IsI32, true, false, Bool-cases, some, List, [], ◌∷◌, map, length, get_elem?, All, arith,
  if◌then◌else◌,
}
use rappa_master.Paradigm.Model.{SlotHash, SlotCommitment}
use rappa_master.Monitor.Status.{
  NodeHeartbeatReport, NodeStatus, heartbeat, process_infos, measured, update_usage,
}
use rappa_master.Monitor.Log.{
  report, apply, apply_all, entries_of, steps_of, IsWhole, InRange, apply_entries_lem,
  process_infos-apply_entries,
}
use rappa_master.Coordinator.Heartbeat.{Call, report_of, reports_of, send_heartbeat}
use rappa_master.Coordinator.Reports.{Measures, IsGood, IsBad, IsOwn, report_of-cases}

-- The calls of one node.
abbrev pub calls_of : ℤ → List (ℤ × Call) → List (ℤ × Call)
calls_of i [] = []
calls_of i ((n, call) ∷ calls) =
    let rest = calls_of i calls in if int_beq n i then (n, call) ∷ rest else rest

abbrev AllOwn : ℕ → List (ℤ × Call) → Type 0
AllOwn count calls = All (λ c. InRange count c.0 × IsOwn c.0 c.1) calls

InRange-IsI32 : (count : ℕ) (n : ℤ) → count ≤ 2 ^ 31 → InRange count n → IsI32 n
InRange-IsI32 count n small h = ground (arith, h.0, h.1)

heartbeats-IsWhole : (calls : List (ℤ × Call)) → All IsWhole (map heartbeat (reports_of calls))
unfolding reports_of
heartbeats-IsWhole [] = tt
heartbeats-IsWhole (c ∷ calls) = (tt, heartbeats-IsWhole calls)

entries-InRange :
    (count : ℕ) (calls : List (ℤ × Call))
    → count ≤ 2 ^ 31
    → AllOwn count calls
    → All (λ e. InRange count e.0) (entries_of (map heartbeat (reports_of calls)))
unfolding reports_of
entries-InRange count [] small own = tt
entries-InRange count ((n, call) ∷ calls) small ((bound, own), owns) = (
  rw (report_of-cases n call (InRange-IsI32 count n small bound) own).0 bound,
  entries-InRange count calls small owns,
)

steps_of-calls_of :
    (i count : ℕ) (calls : List (ℤ × Call))
    → count ≤ 2 ^ 31
    → AllOwn count calls
    → steps_of i (entries_of (map heartbeat (reports_of calls)))
      ≡ map (λ c. report (report_of c.0 c.1)) (calls_of (pos i) calls)
unfolding reports_of
steps_of-calls_of i count [] small own = refl
steps_of-calls_of i count ((n, call) ∷ calls) small ((bound, own), owns) =
    let id = (report_of-cases n call (InRange-IsI32 count n small bound) own).0 in
    let rest = steps_of-calls_of i count calls small owns in
    let steps = steps_of i (entries_of (map heartbeat (reports_of calls))) in
    let step = report (report_of n call) in
    ap (λ m. if int_beq m (pos i) then step ∷ steps else steps) id
    ∙ elim (Bool-cases (int_beq n (pos i))) [
      | inl same ↦ rw (same, rest) refl
      | inr ne ↦ rw (ne, rest) refl
    ]

calls_of-AllOwn :
    (i : ℤ) (count : ℕ) (calls : List (ℤ × Call))
    → AllOwn count calls
    → AllOwn count (calls_of i calls)
calls_of-AllOwn i count [] own = tt
calls_of-AllOwn i count ((n, call) ∷ calls) (own, owns) = elim (Bool-cases (int_beq n i)) [
  | inl same ↦ rw same (own, calls_of-AllOwn i count calls owns)
  | inr ne ↦ rw ne (calls_of-AllOwn i count calls owns)
]

-- What a node shows after its call: the three numbers, each unless it is negative, or an error.
abbrev pub Shows : Call → (before after : NodeStatus) → Type 0
Shows call s s' =
    ((cpu : ℤ) × (disk : ℤ) × (total : ℤ) × Measures call cpu disk total
      × (s' ≡ record s {
        average_cpu_usage = measured cpu s.average_cpu_usage;
        disk_usage = measured (wrap_i32 disk) s.disk_usage;
        disk_storage = measured (wrap_i32 total) s.disk_storage;
        is_error = false;
        err_message = "";
      }))
    ⊎ (((cpu disk total : ℤ) → ¬ Measures call cpu disk total)
        × (message : String) × (s' ≡ record s { is_error = true; err_message = message }))

apply-Shows :
    (call : Call) (r : NodeHeartbeatReport) (s : NodeStatus)
    → IsGood call r ⊎ IsBad call r
    → Shows call s (apply (report r) s)
unfolding update_usage
apply-Shows call r s (inl (cpu, disk, total, numbers, good, c, d, t)) =
    inl (cpu, disk, total, numbers, rw (good, c, d, t) refl)
apply-Shows call r s (inr (bad, not)) = inr (not, r.err_message, rw bad refl)

-- When a heartbeat has been sent to nodes that the monitor knows, of which there are at most 2^31, and
-- each response names the node that was called, the monitor takes the reports without a panic. A
-- node that was called once then shows the numbers that it sent, if it answered with a status that has
-- the processor's load, the used and the whole disk space, each as a decimal number of 64 bits: the
-- load as it is, the others as int32s, and instead of a negative one what it showed before. Otherwise
-- it shows an error. Nothing else of it changes.
pub send_heartbeat-Shows :
    (commits : Assoc SlotHash SlotCommitment) (calls : List (ℤ × Call)) (nodes : List NodeStatus)
    (i : ℕ) (call : Call) (s : NodeStatus)
    → length nodes ≤ 2 ^ 31
    → All (λ c. InRange (length nodes) c.0 × IsOwn c.0 c.1) calls
    → calls_of (pos i) calls ≡ (pos i, call) ∷ []
    → get_elem? nodes i ≡ some s
    → (nodes' : List NodeStatus) × (s' : NodeStatus) × (process_infos
          (map heartbeat (send_heartbeat commits calls).0)
          nodes
        ≡ some nodes')
      × (get_elem? nodes' i ≡ some s')
      × Shows call s s'
unfolding send_heartbeat
send_heartbeat-Shows commits calls nodes i call s small own once found =
    let infos = map heartbeat (reports_of calls) in
    let (nodes', made, at_node) =
      apply_entries_lem (entries_of infos) nodes (entries-InRange (length nodes) calls small own) in
    let steps =
      steps_of-calls_of i (length nodes) calls small own
      ∙ ap (map (λ c. report (report_of c.0 c.1))) once in
    let ((bound, mine), _) =
      subst (AllOwn (length nodes)) once (calls_of-AllOwn (pos i) (length nodes) calls own) in
    let fits = InRange-IsI32 (length nodes) (pos i) small bound in
    (
      nodes',
      apply (report (report_of (pos i) call)) s,
      process_infos-apply_entries infos nodes (heartbeats-IsWhole calls) ∙ made,
      at_node i s found ∙ ap (λ steps. some (apply_all steps s)) steps,
      apply-Shows call (report_of (pos i) call) s (report_of-cases (pos i) call fits mine).1,
    )
