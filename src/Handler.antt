-- ===== src/Handler.antt =====
-- handler/voteHandler.go: the handler counts the votes of all responses to one heartbeat, and then
-- sends on the slots that pass. A response is the list of its votes; the range over the map of
-- instances takes the order of the list.
pub mod Count
use rappa_master.Base.Assoc.{Assoc, lookup, insert}
use rappa_master.Base.{
  String, string_eq, ℤ, Bool, true, false, Option, none, some, List, [], ◌∷◌, if◌then◌else◌,
}
use rappa_master.Paradigm.Model.{SlotHash, SlotCommitment}
use rappa_master.Paradigm.Commit.{
  SignedCommitSlotItem, new_fake_commit_slot_item, new_signed_commit_slot_from,
}
use rappa_master.Paradigm.Vote.{SlotVote, accept, reject, check, new_slot_vote}

-- service.Vote, and the Votes of a service.HeartbeatResponse.
pub record Ballot : Type 0 where
  pub hash : SlotHash
  pub node_id : ℤ
  pub state : Bool
  pub desp : String

abbrev pub Response : Type 0
Response = List Ballot

unfoldable pub apply_vote : Ballot → SlotVote → SlotVote
unfolding accept reject
apply_vote b v = if b.state then accept b.node_id v else reject b.node_id b.desp v

-- The body of the inner loop: a vote for a hash that is not up for a vote is skipped.
unfoldable pub count_vote : Assoc SlotHash SlotVote → Ballot → Assoc SlotHash SlotVote
unfolding apply_vote
count_vote instances b = elim (lookup b.hash instances) [
  | none ↦ instances
  | some v ↦ insert b.hash (apply_vote b v) instances
]

unfoldable pub count_votes : Assoc SlotHash SlotVote → List Ballot → Assoc SlotHash SlotVote
unfolding count_vote
count_votes instances [] = instances
count_votes instances (b ∷ votes) = count_votes (count_vote instances b) votes

unfoldable pub count_responses : Assoc SlotHash SlotVote → List Response → Assoc SlotHash SlotVote
unfolding count_votes
count_responses instances [] = instances
count_responses instances (r ∷ responses) = count_responses (count_votes instances r) responses

-- The loop over the instances, with what it sends to `accepts`.
unfoldable pub accepted : Assoc SlotHash SlotVote → List SignedCommitSlotItem
unfolding check new_fake_commit_slot_item
accepted [] = []
accepted ((_, v) ∷ instances) =
    let rest = accepted instances in
    if check v
    then new_signed_commit_slot_from (new_fake_commit_slot_item v.hash) "0xEcnu" "Ecnu" ∷ rest
    else rest

unfoldable pub process : Assoc SlotHash SlotVote → List Response → List SignedCommitSlotItem
unfolding count_responses accepted
process instances responses = accepted (count_responses instances responses)

-- NewVoteHandler: one instance for each slot that the heartbeat reports as committed.
unfoldable pub new_vote_handler : Assoc SlotHash SlotCommitment → Assoc SlotHash SlotVote
unfolding new_slot_vote
new_vote_handler [] = []
new_vote_handler ((h, c) ∷ commits) = (h, new_slot_vote h c) ∷ new_vote_handler commits
