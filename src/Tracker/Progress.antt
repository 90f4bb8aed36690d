-- ===== src/Tracker/Progress.antt =====
-- The arithmetic of a tracked task (paradigm/track.go): what its commits leave to do.
use rappa_master.Base.{ℕ, ◌+◌, ◌-◌, ◌≡◌, pos, Option, none, some, List, [], ◌∷◌}
use rappa_master.Paradigm.Commit.{SignedCommitSlotItem, JustifiedSlot, finalized}
use rappa_master.Paradigm.Track.{SynthTaskTrackItem, process, commit}

-- A finalized item that commits an amount of work that is not negative.
pub record Work : Type 0 where
  pub item : SignedCommitSlotItem
  pub slot : JustifiedSlot
  pub amount : ℕ
  pub is_final : item.state ≡ finalized
  pub holds : item.justified_slot ≡ some slot
  pub commits : slot.process ≡ pos amount

abbrev pub amount_of : List Work → ℕ
amount_of [] = 0
amount_of (w ∷ ws) = w.amount + amount_of ws

pub commit_all : List SignedCommitSlotItem → SynthTaskTrackItem → Option SynthTaskTrackItem
commit_all [] t = some t
commit_all (item ∷ items) t = elim (commit item t) [ none ↦ none | some t' ↦ commit_all items t' ]

-- `done` of `all` is done.
abbrev pub AtProgress : ℕ → ℕ → SynthTaskTrackItem → Type 0
AtProgress all done t = (t.history ≡ pos done) × (t.size ≡ pos (all - done))
