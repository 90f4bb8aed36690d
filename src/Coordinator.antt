-- ===== src/Coordinator.antt =====
-- Coordinator/scheduleImpl.go: sendSchedule, which sends a schedule to its nodes and sorts out their
-- answers. The slots of a schedule are shared by pointers: a slot is its position in the schedule.
-- The network is a parameter: what comes of each call, in the order in which the calls end. The text
-- of an error is a parameter too. Heartbeat has the heartbeats and the commits of slots.
pub mod Answers
pub mod Restart
pub mod Heartbeat
pub mod Reports
pub mod Beats
use rappa_master.Base.Assoc.{Assoc, lookup}
use rappa_master.Base.{
  ℕ, ◌+◌, String, string_eq, ◌==◌, ℤ, pos, int_eq, int_beq, ltb_ℤ, wrap_i32, add_i32, sub_i32, Bool,
  true, false, ◌&&◌, not, Option, none, some, List, [], ◌∷◌, ◌++◌, length, get_elem?, set, nat_beq,
  ltb, if◌then◌else◌,
}
use rappa_master.Paradigm.Model.{TaskHash}
use rappa_master.Paradigm.Slot.{Slot, SynthTaskSchedule, set_error}
use rappa_master.Paradigm.Track.{UnprocessedTask}

-- What comes of the call of one node: no connection, an error of the call, or the node's answer.
pub data Answer : Type 0 where
  no_connection no_answer : Answer
  answer : (sign : TaskHash) → (node_id : ℤ) → (accept : Bool) → Answer

-- The node that was called, and what came of it.
abbrev pub Arrivals : Type 0
Arrivals = List (ℤ × Answer)

-- The checks of an answer.
unfoldable pub accepts : TaskHash → ℤ → Answer → Bool
accepts task n no_connection = false
accepts task n no_answer = false
accepts task n (answer sign node_id accept) = (sign == task) && int_beq node_id n && accept

-- schedule.NodeIDMap[n], which is 0 for a missing key.
unfoldable pub position_of : Assoc ℤ ℕ → ℤ → ℕ
position_of m n = elim (lookup n m) [ none ↦ 0 | some index ↦ index ]

-- A loop that changes the slot of each node; `none` is the panic on a position out of range.
unfoldable pub for_each :
    (ℤ → Answer → Slot → Slot) → Assoc ℤ ℕ → Arrivals → List Slot → Option (List Slot)
for_each f m [] slots = some slots
for_each f m ((n, a) ∷ rest) slots = elim (get_elem? slots (position_of m n)) [
  | none ↦ none
  | some s ↦ for_each f m rest (set slots (position_of m n) (f n a s))
]

-- The map is keyed by the numbers of the nodes, which fit an int32: int(item.NodeID) is the node again.
abbrev pub with_node : ℤ → Slot → Slot
with_node n s = record s { node_id = wrap_i32 n }

-- The results of sendSchedule. The wait group counts the addresses, the calls are those of the map.
pub data Outcome : Type 0 where
  params_refused : Outcome
  waits_forever : Outcome
  panics : Outcome
  restarted : UnprocessedTask → (un_scheduled : List ℕ) → Outcome
  scheduled : SynthTaskSchedule → (un_scheduled : List ℕ) → Outcome

-- The positions of the nodes whose call passes a test.
unfoldable pub positions : (ℤ → Answer → Bool) → Assoc ℤ ℕ → Arrivals → List ℕ
unfolding position_of
positions test m [] = []
positions test m ((n, a) ∷ rest) =
    let more = positions test m rest in if test n a then position_of m n ∷ more else more

-- acceptedSize, from the sizes of the slots at these positions.
unfoldable pub add_sizes : List Slot → List ℕ → ℤ → ℤ
add_sizes slots [] total = total
add_sizes slots (p ∷ ps) total = elim (get_elem? slots p) [
  | none ↦ add_sizes slots ps total
  | some s ↦ add_sizes slots ps (add_i32 total s.schedule_size)
]

abbrev pub unreachable : ℤ → Answer → Bool
unreachable n no_connection = true
unreachable n no_answer = false
unreachable n (answer _ _ _) = false

-- What follows the counting.
unfoldable pub conclude :
    SynthTaskSchedule → (accepted_size : ℤ) → (un_scheduled : List ℕ) → Outcome
conclude schedule accepted_size un_scheduled =
    let rest = sub_i32 schedule.size accepted_size in
    let remaining = if ltb_ℤ rest (pos 0) then pos 0 else rest in
    if int_beq remaining schedule.size
    then restarted
        (record {
          task_id = schedule.task_id;
          size = schedule.size;
          slot_size = schedule.slot_size;
          model = schedule.model;
          params = schedule.params;
        })
        un_scheduled
    else scheduled schedule un_scheduled

module _ (error_text : ℤ → Answer → String) where
  -- What the goroutine of a node does to its slot.
  unfoldable pub on_answer : TaskHash → ℤ → Answer → Slot → Slot
  unfolding accepts set_error
  on_answer task n a s =
      if accepts task n a
      then with_node n s
      else if unreachable n a
      then set_error (error_text n a) s
      else s

  -- What the loops over the two channels do to a slot.
  unfoldable pub on_success : TaskHash → ℤ → Answer → Slot → Slot
  unfolding accepts
  on_success task n a s = if accepts task n a then with_node n s else s

  unfoldable pub on_reject : TaskHash → ℤ → Answer → Slot → Slot
  unfolding accepts set_error
  on_reject task n a s = if accepts task n a then s else set_error (error_text n a) (with_node n s)

  -- The three loops, one after the other.
  unfoldable pub settle : TaskHash → Assoc ℤ ℕ → Arrivals → List Slot → Option (List Slot)
  unfolding for_each on_answer on_success on_reject
  settle task m arrivals slots = elim (for_each (on_answer task) m arrivals slots) [
    | none ↦ none
    | some slots1 ↦ elim (for_each (on_success task) m arrivals slots1) [
      | none ↦ none
      | some slots2 ↦ for_each (on_reject task) m arrivals slots2
    ]
  ]

  -- `addresses` is how many nodes the connection manager knows, `converts` whether the parameters of
  -- the task can be sent.
  unfoldable pub send_schedule :
      (addresses : ℕ) → (converts : Bool) → Arrivals → SynthTaskSchedule → Outcome
  unfolding positions add_sizes settle conclude accepts
  send_schedule addresses false arrivals schedule = params_refused
  send_schedule addresses true arrivals schedule =
      if ltb (length arrivals) addresses
      then waits_forever
      else if ltb addresses (length arrivals)
      then panics
      else elim (settle schedule.task_id schedule.node_id_map arrivals schedule.slots) [
        | none ↦ panics
        | some slots ↦
            let m = schedule.node_id_map in
            let won = positions (accepts schedule.task_id) m arrivals in
            let lost = positions (λ n a. not (accepts schedule.task_id n a)) m arrivals in
            conclude (record schedule { slots = slots }) (add_sizes slots won (pos 0))
              (positions unreachable m arrivals ++ lost)
      ]
