-- ===== src/Examples/Sending.antt =====
-- The coordinator.
use rappa_master.Base.Assoc.{lookup}
use rappa_master.Base.{
  ◌≡◌, refl, String, ℤ, pos, true, some, List, [], ◌∷◌, get_elem?, arith, int_eq, string_eq,
}
use rappa_master.Paradigm.Model.{ctgan}
use rappa_master.Paradigm.Slot.{Slot, new_slot, SynthTaskSchedule}
use rappa_master.Coordinator.{
  Answer, no_connection, answer, Arrivals, accepts, positions, position_of, send_schedule,
  scheduled,
}
use rappa_master.Coordinator.Answers.{settled}
use rappa_master.Coordinator.Restart.{send_schedule-settles}

abbrev two_slots : SynthTaskSchedule
two_slots = record {
  task_id = "task";
  schedule_id = pos 0;
  size = pos 9;
  slot_size = pos 5;
  model = ctgan;
  params = [];
  slots = new_slot "slot0" "task" (pos 0) (pos 5) ∷ new_slot "slot1" "task" (pos 0) (pos 4) ∷ [];
  node_id_map = (pos 0, 0) ∷ (pos 1, 1) ∷ [];
}

-- The second node cannot be reached, the first accepts its slot.
abbrev arrivals : Arrivals
arrivals = (pos 1, no_connection) ∷ (pos 0, answer "task" (pos 0) true) ∷ []

abbrev error_text : ℤ → Answer → String
error_text n a = "no connection"

send_schedule-settles_example :
    (slots : List Slot) × (get_elem? slots 1
      ≡ some (
          settled error_text "task"
            (pos 1)
            no_connection
            (new_slot "slot1" "task" (pos 0) (pos 4))))
    × (send_schedule error_text 2 true arrivals two_slots
        ≡ scheduled (record two_slots { slots = slots }) (1 ∷ 1 ∷ []))
unfolding position_of lookup positions accepts
send_schedule-settles_example =
    send_schedule-settles error_text two_slots arrivals 9 0 (pos 1) no_connection
      (new_slot "slot1" "task" (pos 0) (pos 4)) refl (omega arith) (omega arith)
      (omega arith, (omega arith, tt)) (((λ e. omega (arith, e)), tt), (tt, tt))
      (omega arith, (omega arith, tt)) (omega arith) refl refl
