-- ===== src/Query/EpochView.antt =====
-- Query/EvidencePreserveQuery.go, BasicEvidencePreserveEpochQuery, and the slots that GetEpochByID of
-- Database/epochImpl.go joins to an epoch: what is shown of an epoch.
use rappa_master.Base.Assoc.{Assoc, lookup, insert, upsert}
use rappa_master.Base.{
  ℕ, String, string_eq, ℤ, pos, add_i32, none, some, List, [], ◌∷◌, ◌++◌, length,
}
use rappa_master.Paradigm.Model.{TaskHash, SlotHash, SupportModelType, model_type_to_string}
use rappa_master.Paradigm.Slot.{Slot}
use rappa_master.Oracle.EpochTx.{DevEpoch, nb_slots}

-- epochProcess: a model's amount takes the place of the 0.
unfoldable pub process_by_name : Assoc SupportModelType ℤ → Assoc String ℤ → Assoc String ℤ
unfolding model_type_to_string
process_by_name [] m = m
process_by_name ((model, process) ∷ rest) m =
    process_by_name rest (insert (model_type_to_string model) process m)

-- GetEpochByID: the hashes of all three maps, in this order, and the slots found by the hashes.
abbrev pub hashes_in : Assoc SupportModelType (List SlotHash) → List SlotHash
hashes_in [] = []
hashes_in ((model, hashes) ∷ m) = hashes ++ hashes_in m

abbrev pub all_hashes : DevEpoch → List SlotHash
all_hashes e = hashes_in e.commits ++ hashes_in e.justifieds ++ hashes_in e.finalizes

unfoldable pub slot_map : List Slot → Assoc SlotHash Slot → Assoc SlotHash Slot
slot_map [] m = m
slot_map (slot ∷ slots) m = slot_map slots (insert slot.slot_id slot m)

-- A view of a slot: its JSON form with the name of the model.
abbrev pub SlotView : Type 0
SlotView = Slot × String

-- The loops over the slots of one model, and over the models.
unfoldable pub views_of : Assoc SlotHash Slot → String → List SlotHash → List SlotView
views_of m model [] = []
views_of m model (hash ∷ hashes) =
    let rest = views_of m model hashes in
    elim (lookup hash m) [ some slot ↦ (slot, model) ∷ rest | none ↦ rest ]

unfoldable pub slot_views :
    Assoc SlotHash Slot → Assoc SupportModelType (List SlotHash) → List SlotView
unfolding model_type_to_string
slot_views m [] = []
slot_views m ((model, hashes) ∷ rest) =
    views_of m (model_type_to_string model) hashes ++ slot_views m rest

-- taskProcessDistribution, from the views of the finalized slots: the model of the first slot of a task,
-- and the sizes added up from 0.
unfoldable pub task_process :
    List SlotView → Assoc TaskHash (String × ℤ) → Assoc TaskHash (String × ℤ)
task_process [] m = m
task_process ((slot, model) ∷ views) m = task_process views (
    upsert slot.task_id (λ (name, size). (name, add_i32 size slot.schedule_size))
      (model, add_i32 (pos 0) slot.schedule_size) m)

pub record EpochResponse : Type 0 where
  pub nb_invalid : ℕ
  pub nb_tasks : ℕ
  pub nb_commit : ℕ
  pub nb_justified : ℕ
  pub nb_finalized : ℕ
  pub process : Assoc String ℤ
  pub commit : List SlotView
  pub finalized : List SlotView
  pub invalid_slot : List Slot
  pub task_process_distribution : Assoc TaskHash (String × ℤ)

-- GenerateResponse.
unfoldable pub epoch_response : DevEpoch → Assoc SlotHash Slot → EpochResponse
unfolding process_by_name slot_views task_process
epoch_response e m = record {
  nb_invalid = length e.invalids;
  nb_tasks = length e.init_tasks;
  nb_commit = nb_slots e.commits;
  nb_justified = nb_slots e.justifieds;
  nb_finalized = nb_slots e.finalizes;
  process = process_by_name e.process (("ABM", pos 0) ∷ ("BAED", pos 0) ∷ ("FINKAN", pos 0) ∷ []);
  commit = slot_views m e.commits;
  finalized = slot_views m e.finalizes;
  invalid_slot = e.invalids;
  task_process_distribution = task_process (slot_views m e.finalizes) [];
}
