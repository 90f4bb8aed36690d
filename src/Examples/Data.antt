-- ===== src/Examples/Data.antt =====
-- Sample values.
use rappa_master.Base.{ℕ, String, pos, false, some, [], ◌∷◌}
use rappa_master.Paradigm.Model.{ctgan}
use rappa_master.Paradigm.Commit.{JustifiedSlot, SignedCommitSlotItem, CommitState, no_reason}
use rappa_master.Paradigm.Track.{UnprocessedTask, SynthTaskTrackItem}

abbrev pub slot_of : (amount : ℕ) → JustifiedSlot
slot_of amount = record {
  nid = pos 1;
  process = pos amount;
  sign = "task";
  slot = pos 0;
  epoch = pos 0;
  padding = [];
  store = pos 1;
  commitment = 7 ∷ [];
  upload_size = pos 0;
}

abbrev pub item_of : CommitState → String → (amount : ℕ) → SignedCommitSlotItem
item_of state hash amount = record {
  item = record {
    justified_slot = some (slot_of amount);
    state = state;
    hash = hash;
    invalid_type = no_reason;
  };
  signature = "signature";
  ca = "ca";
}

abbrev pub task : UnprocessedTask
task = record { task_id = "task"; size = pos 10; slot_size = pos 5; model = ctgan; params = [] }

abbrev pub track_of : UnprocessedTask → SynthTaskTrackItem
track_of t = record { unprocessed_task = t; total = t.size; history = pos 0; is_reliable = false }
