-- ===== src/Examples/Querying.antt =====
-- Queries about a task.
use rappa_master.Base.Assoc.{lookup}
use rappa_master.Base.{
  ◌≡◌, refl, String, ℤ, pos, some, none, List, [], ◌∷◌, All, ℕ, ◌⊎◌, inl, Option, int_eq,
}
use rappa_master.Base.Bytes.{Bytes}
use rappa_master.Paradigm.Model.{text, ctgan}
use rappa_master.Paradigm.Commit.{finalized}
use rappa_master.Paradigm.Slot.{Slot, SynthTaskSchedule, finished, failed, new_slot}
use rappa_master.Task.{Task}
use rappa_master.Query.Evidence.{TaskResponse, process_of, generate_response}
use rappa_master.Query.Summary.{IsPaid, summary, of_epoch}
use rappa_master.Query.Timeline.{
  slots_of, infos_of, epochs_of, IsAscending, generate_response-IsAscending,
  generate_response-count,
}
use rappa_master.Query.Shown.{HasDataset}
use rappa_master.Query.Rounds.{occurs, listed}
use rappa_master.Query.Integrity
use rappa_master.Query.Certified.{IsAnswer, generate_response-Certifies}
use rappa_master.Examples.Data.{item_of}
use rappa_master.Examples.Records.{task}

-- Two finished slots of different epochs, and one that no node took.
abbrev pub done : (hash : String) → (node amount epoch : ℕ) → Slot
done hash node amount epoch = record (new_slot hash "task" (pos 0) (pos amount)) {
  node_id = pos node;
  status = finished;
  commit_slot = some (item_of finalized hash amount).item;
  epoch = pos epoch;
}

abbrev pub schedule : SynthTaskSchedule
schedule = record {
  task_id = "task";
  schedule_id = pos 0;
  size = pos 10;
  slot_size = pos 5;
  model = ctgan;
  params = [];
  slots =
      done "task_0_0" 0 4 8
      ∷ done "task_0_1" 1 5 3
      ∷ record (new_slot "task_0_2" "task" (pos 0) (pos 1)) { status = failed }
      ∷ [];
  node_id_map = [];
}

abbrev pub with_slots : Task
with_slots = record task { params = ("dataset", text "adult") ∷ []; schedules = schedule ∷ [] }

pub paid : All IsPaid (slots_of with_slots.schedules)
unfolding process_of
paid = ((pos 4, refl), ((pos 5, refl), (tt, tt)))

pub has_dataset : HasDataset with_slots
unfolding lookup
has_dataset (value, e) = cc e

generate_response-IsAscending_example :
    (r : TaskResponse) × (generate_response with_slots ≡ some r)
    × IsAscending (epochs_of r.timeline)
    × ((e : ℤ) → occurs e (epochs_of r.timeline) ≡ listed e (slots_of with_slots.schedules))
    × All (λ (e, d). d ≡ summary (of_epoch e (slots_of with_slots.schedules))) r.timeline
unfolding lookup
generate_response-IsAscending_example = generate_response-IsAscending with_slots paid

generate_response-count_example :
    (r : TaskResponse) × (generate_response with_slots ≡ some r)
    × (r.schedules ≡ infos_of with_slots.schedules)
    × (r.schedule_distribution ≡ (2, 1, 0))
unfolding lookup
generate_response-count_example = generate_response-count with_slots paid

-- A toy hash, and no Verkle trees.
abbrev pub sha256 : Bytes → Bytes
sha256 b = 1 ∷ b

abbrev pub no_tree : List Bytes → String ⊎ ℕ
no_tree leaves = inl "no tree"

abbrev pub no_proof : ℕ → ℕ → Option ℕ
no_proof tree i = none

generate_response-Certifies_example :
    IsAnswer sha256 no_tree no_proof "task_0_1" schedule.slots (some (7 ∷ []))
unfolding Integrity.commitment_of
generate_response-Certifies_example =
    generate_response-Certifies sha256 no_tree no_proof "task_0_1" schedule.slots
      ((7 ∷ [], refl), ((7 ∷ [], refl), (([], refl), tt)))
