-- ===== src/Query/Latest.antt =====
-- Query/BlockchainQuery.go, BlockchainLatestInfoQuery: the latest transactions and epochs. The number of
-- blocks, which comes from a receipt, is left out. GetLatestEpochs leaves the receipt of an epoch nil if
-- its transaction cannot be read: an epoch comes with the hash of its transaction.
use rappa_master.Base.Assoc.{Assoc}
use rappa_master.Base.{ℕ, String, ℤ, Option, none, some, List, [], ◌∷◌, length}
use rappa_master.Paradigm.Model.{SupportModelType}
use rappa_master.Oracle.{RfType, DevReference, init_task_tx, slot_tx, epoch_tx}
use rappa_master.Oracle.EpochTx.{DevEpoch, nb_slots}
use rappa_master.Query.Nodes.{data_group, no_group}

-- The references and epochs, and the counts as int32s.
pub record LatestBlockchainInfo : Type 0 where
  pub latest_txs : List DevReference
  pub latest_epoch : List (DevEpoch × Option String)
  pub nb_finalized : ℤ
  pub synth_data : Assoc SupportModelType ℤ
  pub nb_epoch : ℤ
  pub nb_transaction : ℤ

pub record EpochSummary : Type 0 where
  pub epoch_id : ℤ
  pub nb_commit : ℕ
  pub nb_justified : ℕ
  pub nb_finalized : ℕ
  pub nb_invalid : ℕ
  pub tx_hash : String

abbrev pub summary_of : DevEpoch → (tx_hash : String) → EpochSummary
summary_of e tx_hash = record {
  epoch_id = e.epoch_id;
  nb_commit = nb_slots e.commits;
  nb_justified = nb_slots e.justifieds;
  nb_finalized = nb_slots e.finalizes;
  nb_invalid = length e.invalids;
  tx_hash = tx_hash;
}

abbrev pub tx_type : RfType → String
tx_type init_task_tx = "InitTask"
tx_type slot_tx = "TaskProcess"
tx_type epoch_tx = "EpochRecord"

-- The loops over the epochs and the transactions; `none` is the panic on a nil receipt.
abbrev pub epoch_summaries : List (DevEpoch × Option String) → Option (List EpochSummary)
epoch_summaries [] = some []
epoch_summaries ((e, none) ∷ epochs) = none
epoch_summaries ((e, some tx_hash) ∷ epochs) = elim (epoch_summaries epochs) [
  | none ↦ none
  | some summaries ↦ some (summary_of e tx_hash ∷ summaries)
]

abbrev pub typed : List DevReference → List (DevReference × String)
typed [] = []
typed (tx ∷ txs) = (tx, tx_type tx.rf) ∷ typed txs

pub record LatestResponse : Type 0 where
  pub nb_transaction : ℤ
  pub nb_epoch : ℤ
  pub nb_finalized : ℤ
  pub latest_epoch : List EpochSummary
  pub latest_tx : List (DevReference × String)
  pub synth_data : Assoc String ℤ

abbrev pub with_summaries : LatestBlockchainInfo → List EpochSummary → LatestResponse
with_summaries info summaries = record {
  nb_transaction = info.nb_transaction;
  nb_epoch = info.nb_epoch;
  nb_finalized = info.nb_finalized;
  latest_epoch = summaries;
  latest_tx = typed info.latest_txs;
  synth_data = data_group info.synth_data no_group;
}

unfoldable pub latest_response : LatestBlockchainInfo → Option LatestResponse
latest_response info = elim (epoch_summaries info.latest_epoch) [
  | none ↦ none
  | some summaries ↦ some (with_summaries info summaries)
]
