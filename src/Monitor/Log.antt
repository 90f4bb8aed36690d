-- ===== src/Monitor/Log.antt =====
-- What the monitor shows of a node, told from the log of the changes that name the node.
use rappa_master.Base.{
  ℕ, ◌<◌, ◌≡◌, refl, ap, ◌∙◌, sym, inl, inr, string_eq, ℤ, pos, negsuc, int_beq, ◌≤ℤ◌, ◌<ℤ◌, Bool,
  true, false, Bool-cases, Option, none, some, List, [], ◌∷◌, ◌++◌, length, get_elem?, get_elem?-lt,
  get_elem?-set_self, get_elem?-set_ne, length-set, set, All, arith, if◌then◌else◌,
}
use rappa_master.Paradigm.Model.{SlotHash, SupportModelType, model_eq}
use rappa_master.Paradigm.Slot.{Slot}
use rappa_master.Paradigm.Commit.{JustifiedSlot}
use rappa_master.Monitor.Status.{
  NodeHeartbeatReport, NodeStatus, update_usage, set_error, update_pending_slot, update_finish_slot,
  update_node, is_failed, process_schedule, Info, heartbeat, schedule, task_process, process_info,
  process_infos, process_heartbeat_response,
}

-- A change of one node.
pub data Step : Type 0 where
  report : NodeHeartbeatReport → Step
  begin : SlotHash → Step
  finish : SlotHash → ℤ → SupportModelType → Step

abbrev pub apply : Step → NodeStatus → NodeStatus
apply (report r) s =
    if r.is_error
    then set_error r.err_message s
    else update_usage r.cpu_usage r.disk_usage r.disk_storage s
apply (begin h) s = update_pending_slot h s
apply (finish h process model) s = update_finish_slot h process model s

-- The changes that a message stands for, each with its node.
abbrev pub slot_entries : List Slot → List (ℤ × ℕ) → List (ℤ × Step)
slot_entries slots [] = []
slot_entries slots ((n, index) ∷ rest) = elim (get_elem? slots index) [
  | none ↦ slot_entries slots rest
  | some slot ↦ elim (is_failed slot.status) [
    | true ↦ slot_entries slots rest
    | false ↦ (n, begin slot.slot_id) ∷ slot_entries slots rest
  ]
]

abbrev pub entries : Info → List (ℤ × Step)
entries (heartbeat r) = (r.node_id, report r) ∷ []
entries (schedule s) = slot_entries s.slots s.node_id_map
entries (task_process tx model) = elim tx.justified_slot [
  | none ↦ []
  | some j ↦ (j.nid, finish tx.hash j.process model) ∷ []
]

abbrev pub entries_of : List Info → List (ℤ × Step)
entries_of [] = []
entries_of (info ∷ infos) = entries info ++ entries_of infos

-- A message that is whole: its map leads to slots that it holds, its item is no fake.
abbrev pub IsWhole : Info → Type 0
IsWhole (heartbeat r) = Unit
IsWhole (schedule s) = All (λ e. e.1 < length s.slots) s.node_id_map
IsWhole (task_process tx model) = (j : JustifiedSlot) × (tx.justified_slot ≡ some j)

abbrev pub InRange : ℕ → ℤ → Type 0
InRange n z = (pos 0 ≤ℤ z) × (z <ℤ pos n)

abbrev pub steps_of : ℕ → List (ℤ × Step) → List Step
steps_of i [] = []
steps_of i ((n, step) ∷ es) =
    let rest = steps_of i es in if int_beq n (pos i) then step ∷ rest else rest

abbrev pub apply_entries : List (ℤ × Step) → List NodeStatus → Option (List NodeStatus)
apply_entries [] nodes = some nodes
apply_entries ((n, step) ∷ es) nodes = elim (update_node (apply step) n nodes) [
  | none ↦ none
  | some nodes' ↦ apply_entries es nodes'
]

abbrev pub apply_all : List Step → NodeStatus → NodeStatus
apply_all [] s = s
apply_all (step ∷ steps) s = apply_all steps (apply step s)

abbrev and_then {ℓ κ} : {A : Type ℓ} {B : Type κ} → Option A → (A → Option B) → Option B
and_then r f = elim r [ none ↦ none | some a ↦ f a ]

and_then_same {ℓ κ} :
    {A : Type ℓ} {B : Type κ} {f g : A → Option B} (r : Option A)
    → ((a : A) → f a ≡ g a)
    → and_then r f ≡ and_then r g
and_then_same none same = refl
and_then_same (some a) same = same a

and_then_assoc {ℓ κ μ} :
    {A : Type ℓ} {B : Type κ} {C : Type μ} (r : Option A) (f : A → Option B) (g : B → Option C)
    → and_then (and_then r f) g ≡ and_then r (λ a. and_then (f a) g)
and_then_assoc none f g = refl
and_then_assoc (some a) f g = refl

and_then-some {ℓ} : {A : Type ℓ} (r : Option A) → and_then r some ≡ r
and_then-some none = refl
and_then-some (some a) = refl

process_schedule-apply_entries :
    (slots : List Slot) (m : List (ℤ × ℕ)) (nodes : List NodeStatus)
    → All (λ e. e.1 < length slots) m
    → process_schedule slots m nodes ≡ apply_entries (slot_entries slots m) nodes
unfolding process_schedule
process_schedule-apply_entries slots [] nodes h = refl
process_schedule-apply_entries slots ((n, index) ∷ rest) nodes (h, hs) =
    let (slot, found) = get_elem?-lt slots index h in
    rw (process_schedule, slot_entries, found)
      (elim (Bool-cases (is_failed slot.status)) [
        | inl fails ↦
            rw (process_schedule, slot_entries, fails)
              (process_schedule-apply_entries slots rest nodes hs)
        | inr works ↦
            rw (process_schedule, slot_entries, works)
              (and_then_same (update_node (update_pending_slot slot.slot_id) n nodes)
                (λ nodes'. process_schedule-apply_entries slots rest nodes' hs))
      ])

process_info-apply_entries :
    (info : Info) (nodes : List NodeStatus)
    → IsWhole info
    → process_info info nodes ≡ apply_entries (entries info) nodes
unfolding process_info process_heartbeat_response
process_info-apply_entries (heartbeat r) nodes h = elim (Bool-cases r.is_error) [
  | inl bad ↦ rw bad (sym (and_then-some (update_node (set_error r.err_message) r.node_id nodes)))
  | inr good ↦ rw good (
      sym (
        and_then-some
          (update_node (update_usage r.cpu_usage r.disk_usage r.disk_storage) r.node_id nodes)))
]
process_info-apply_entries (schedule s) nodes h =
    process_schedule-apply_entries s.slots s.node_id_map nodes h
process_info-apply_entries (task_process tx model) nodes (j, found) =
    rw found
      (sym (and_then-some (update_node (update_finish_slot tx.hash j.process model) j.nid nodes)))

apply_entries-append :
    (es fs : List (ℤ × Step)) (nodes : List NodeStatus)
    → apply_entries (es ++ fs) nodes
      ≡ elim (apply_entries es nodes) [ none ↦ none | some nodes' ↦ apply_entries fs nodes' ]
apply_entries-append [] fs nodes = refl
apply_entries-append ((n, step) ∷ es) fs nodes =
    let r = update_node (apply step) n nodes in
    and_then_same r (λ nodes'. apply_entries-append es fs nodes')
    ∙ sym (and_then_assoc r (λ nodes'. apply_entries es nodes') (λ nodes'. apply_entries fs nodes'))

pub process_infos-apply_entries :
    (infos : List Info) (nodes : List NodeStatus)
    → All IsWhole infos
    → process_infos infos nodes ≡ apply_entries (entries_of infos) nodes
unfolding process_infos
process_infos-apply_entries [] nodes h = refl
process_infos-apply_entries (info ∷ infos) nodes (h, hs) =
    rw
      (
        process_infos,
        entries_of,
        process_info-apply_entries info nodes h,
        apply_entries-append (entries info) (entries_of infos) nodes,
      )
      (and_then_same (apply_entries (entries info) nodes)
        (λ nodes'. process_infos-apply_entries infos nodes' hs))

apply_all_if :
    (b : Bool) (step : Step) (steps : List Step) (s : NodeStatus)
    → apply_all steps (if b then apply step s else s)
      ≡ apply_all (if b then step ∷ steps else steps) s
apply_all_if true step steps s = refl
apply_all_if false step steps s = refl

-- What a change of node `n` makes of the nodes.
set-apply :
    (step : Step) (n i : ℕ) (nodes : List NodeStatus) (a s : NodeStatus)
    → get_elem? nodes n ≡ some a
    → get_elem? nodes i ≡ some s
    → get_elem? (set nodes n (apply step a)) i
      ≡ some (if int_beq (pos n) (pos i) then apply step s else s)
set-apply step n i nodes a s found h = elim (Bool-cases (int_beq (pos n) (pos i))) [
  | inl same ↦
      let eq : n ≡ i = ground arith in
      let eq' : some a ≡ some s = sym found ∙ ap (get_elem? nodes) eq ∙ h in
      rw same (
        ap (get_elem? (set nodes n (apply step a))) (sym eq)
        ∙ get_elem?-set_self nodes n (apply step a) found
        ∙ ap (λ x. some (apply step x)) (cc eq'))
  | inr other ↦ rw other (get_elem?-set_ne nodes n i (apply step a) (ground arith) ∙ h)
]

-- A change of a node in range is made, and no other node changes.
update_node_lem :
    (step : Step) (n : ℤ) (nodes : List NodeStatus)
    → InRange (length nodes) n
    → (nodes' : List NodeStatus) × (update_node (apply step) n nodes ≡ some nodes')
      × (length nodes' ≡ length nodes)
      × ((i : ℕ) (s : NodeStatus)
          → get_elem? nodes i ≡ some s
          → get_elem? nodes' i ≡ some (if int_beq n (pos i) then apply step s else s))
unfolding update_node
update_node_lem step (negsuc n) nodes h = absurd (omega (arith, h.0))
update_node_lem step (pos n) nodes (_, h) =
    let bound : n < length nodes = omega (arith, h) in
    let a = (get_elem?-lt nodes n bound).0 in
    let found : get_elem? nodes n ≡ some a = (get_elem?-lt nodes n bound).1 in
    (
      set nodes n (apply step a),
      ap (λ r. elim r [ none ↦ none | some s ↦ some (set nodes n (apply step s)) ]) found,
      length-set nodes n (apply step a),
      λ i s known. set-apply step n i nodes a s found known,
    )

-- Changes of nodes in range are all made, each node by its own.
pub apply_entries_lem :
    (es : List (ℤ × Step)) (nodes : List NodeStatus)
    → All (λ e. InRange (length nodes) e.0) es
    → (nodes' : List NodeStatus) × (apply_entries es nodes ≡ some nodes')
      × ((i : ℕ) (s : NodeStatus)
          → get_elem? nodes i ≡ some s
          → get_elem? nodes' i ≡ some (apply_all (steps_of i es) s))
apply_entries_lem [] nodes h = (nodes, refl, λ i s known. known)
apply_entries_lem ((n, step) ∷ es) nodes (h, hs) =
    let (nodes1, made, same, at_node) = update_node_lem step n nodes h in
    let (nodes2, made2, at_node2) = apply_entries_lem es nodes1 (rw same hs) in
    (
      nodes2,
      ap (λ r. and_then r (apply_entries es)) made ∙ made2,
      λ i s known.
          at_node2 i (if int_beq n (pos i) then apply step s else s) (at_node i s known)
          ∙ ap some (apply_all_if (int_beq n (pos i)) step (steps_of i es) s),
    )
