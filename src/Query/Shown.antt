-- ===== src/Query/Shown.antt =====
-- What must be there for a task, an epoch or a list of them to be shown without a panic.
use rappa_master.Base.Assoc.{lookup}
use rappa_master.Base.{
  ℕ, Option-cases, string_eq, String, Bool, true, Option, none, some, List, [], ◌∷◌, ◌⊎◌, inl, inr,
  ◌≡◌, refl, All,
}
use rappa_master.Task.{Task}
use rappa_master.Oracle.EpochTx.{DevEpoch}
use rappa_master.Query.Summary.{IsPaid}
use rappa_master.Collector.{Collector}
use rappa_master.Query.Evidence.{TaskResponse}
use rappa_master.Paradigm.Model.{text, other}
use rappa_master.Query.Tasks.{synth_task_response}
use rappa_master.Query.Timeline.{with_dataset, slots_of}
use rappa_master.Query.Latest.{
  LatestBlockchainInfo, LatestResponse, EpochSummary, epoch_summaries, latest_response,
}
use rappa_master.Query.Latest.{with_summaries, summary_of}

-- The dataset of a task is not given, or a text.
abbrev pub HasDataset : Task → Type 0
HasDataset task = ¬ ((value : ℕ) × (lookup "dataset" task.params ≡ some (other value)))

-- No finished slot of the task is without its commit, and its dataset can be shown.
abbrev pub IsShown : String ⊎ Task → Type 0
IsShown (inl message) = Unit
IsShown (inr task) = All IsPaid (slots_of task.schedules) × HasDataset task

-- The transaction of what is listed could be read.
abbrev pub HasTx {ℓ} : {A : Type ℓ} → A × Option String → Type 0
HasTx (a, none) = ⊥
HasTx (a, some tx_hash) = Unit

-- Of each task that is listed the transaction could be read, and Speed does not panic.
abbrev pub IsListed : (has_speed : Task → Bool) → String ⊎ List (Task × Option String) → Type 0
IsListed has_speed (inl message) = Unit
IsListed has_speed (inr tasks) = All (λ t. HasTx t × (has_speed t.0 ≡ true)) tasks

-- RecoverCollector does not panic on the task, if it is there.
abbrev pub IsRecovered : (Task → Option (String ⊎ Collector)) → String ⊎ Task → Type 0
IsRecovered recover (inl message) = Unit
IsRecovered recover (inr task) = (found : String ⊎ Collector) × (recover task ≡ some found)

pub with_dataset-some :
    (task : Task) (r : TaskResponse) → HasDataset task → with_dataset task r ≡ some r
with_dataset-some task r given = elim (Option-cases (lookup "dataset" task.params)) [
  | inl e ↦ rw (with_dataset, e) refl
  | inr (text dataset, e) ↦ rw (with_dataset, e) refl
  | inr (other value, e) ↦ absurd (given (value, e))
]

epoch_summaries-HasTx :
    (epochs : List (DevEpoch × Option String))
    → All HasTx epochs
    → (summaries : List EpochSummary) × (epoch_summaries epochs ≡ some summaries)
epoch_summaries-HasTx [] h = ([], refl)
epoch_summaries-HasTx ((e, none) ∷ epochs) (h, hs) = absurd h
epoch_summaries-HasTx ((e, some tx_hash) ∷ epochs) (h, hs) =
    let (summaries, made) = epoch_summaries-HasTx epochs hs in
    (summary_of e tx_hash ∷ summaries, rw (epoch_summaries, made) refl)

pub latest_response-HasTx :
    (info : LatestBlockchainInfo)
    → All HasTx info.latest_epoch
    → (r : LatestResponse) × (latest_response info ≡ some r)
unfolding latest_response
latest_response-HasTx info h =
    let (summaries, made) = epoch_summaries-HasTx info.latest_epoch h in
    (with_summaries info summaries, rw (latest_response, made) refl)

pub synth_task_response-IsListed :
    (has_speed : Task → Bool) (tasks : List (Task × Option String))
    → All (λ t. HasTx t × (has_speed t.0 ≡ true)) tasks
    → (shown : List (Task × String)) × (synth_task_response has_speed tasks ≡ some shown)
unfolding synth_task_response
synth_task_response-IsListed has_speed [] h = ([], refl)
synth_task_response-IsListed has_speed ((task, none) ∷ tasks) ((gone, _), hs) = absurd gone
synth_task_response-IsListed has_speed ((task, some tx_hash) ∷ tasks) ((_, speed), hs) =
    let (shown, made) = synth_task_response-IsListed has_speed tasks hs in
    ((task, tx_hash) ∷ shown, rw (synth_task_response, speed, made) refl)
