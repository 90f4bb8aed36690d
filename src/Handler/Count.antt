-- ===== src/Handler/Count.antt =====
-- What the counting loops of VoteHandler.Process compute: for each slot, the number of the votes on
-- it and of those in favour.
use rappa_master.Base.Assoc.{lookup, insert, Assoc, IsFresh, IsDistinct}
use rappa_master.Base.{
  ℕ, ◌+◌, ◌*◌, ◌≡◌, refl, sym, subst, ◌∙◌, inl, inr, string_eq, List, [], ◌∷◌, ◌++◌, arith, leb,
  Bool-cases, if◌then◌else◌, ◌==◌,
}
use text.Mathlib.TextEquality.{eq_iff}
use rappa_master.Paradigm.Model.{SlotHash, SlotCommitment}
use rappa_master.Paradigm.Commit.{
  SignedCommitSlotItem, new_fake_commit_slot_item, new_signed_commit_slot_from,
}
use rappa_master.Paradigm.Vote.{SlotVote, new_slot_vote}
use rappa_master.Handler.{
  Ballot, Response, apply_vote, count_vote, count_votes, count_responses, accepted, process,
  new_vote_handler,
}

-- The votes on a slot, and those in favour.
abbrev pub cast : SlotHash → List Ballot → ℕ
cast h [] = 0
cast h (b ∷ bs) = (if h == b.hash then 1 else 0) + cast h bs

abbrev pub ayes : SlotHash → List Ballot → ℕ
ayes h [] = 0
ayes h (b ∷ bs) = (if h == b.hash then (if b.state then 1 else 0) else 0) + ayes h bs

abbrev pub ballots : List Response → List Ballot
ballots [] = []
ballots (r ∷ rs) = r ++ ballots rs

-- One ballot, by a pass over all instances.
abbrev bump_one : Ballot → SlotHash → SlotVote → SlotVote
bump_one b h v = if h == b.hash then apply_vote b v else v

bump : Ballot → Assoc SlotHash SlotVote → Assoc SlotHash SlotVote
bump b [] = []
bump b ((h, v) ∷ m) = (h, bump_one b h v) ∷ bump b m

bump_fresh : (b : Ballot) (m : Assoc SlotHash SlotVote) → IsFresh b.hash m → bump b m ≡ m
unfolding bump
bump_fresh b [] f = refl
bump_fresh b ((h, v) ∷ m) f = rw (f.0, bump_fresh b m f.1)

bump-IsFresh :
    (b : Ballot) (k : SlotHash) (m : Assoc SlotHash SlotVote) → IsFresh k m → IsFresh k (bump b m)
unfolding bump
bump-IsFresh b k [] f = tt
bump-IsFresh b k ((h, v) ∷ m) f = (f.0, bump-IsFresh b k m f.1)

bump-IsDistinct : (b : Ballot) (m : Assoc SlotHash SlotVote) → IsDistinct m → IsDistinct (bump b m)
unfolding bump
bump-IsDistinct b [] d = tt
bump-IsDistinct b ((h, v) ∷ m) d = (bump-IsFresh b h m d.0, bump-IsDistinct b m d.1)

count_vote-eq-bump :
    (b : Ballot) (m : Assoc SlotHash SlotVote) → IsDistinct m → count_vote m b ≡ bump b m
unfolding count_vote bump lookup insert
count_vote-eq-bump b [] d = refl
count_vote-eq-bump b ((h, v) ∷ m) d = elim (Bool-cases (h == b.hash)) [
  | inl same ↦
      let e = (eq_iff h b.hash).0 same in
      let f = bump_fresh b m (subst (λ k. IsFresh k m) e d.0) in ground (arith, e, f)
  | inr other ↦ ground (arith, count_vote-eq-bump b m d.1)
]

-- The votes on one slot, counted in turn.
tally : SlotHash → List Ballot → SlotVote → SlotVote
tally h [] v = v
tally h (b ∷ bs) v = tally h bs (bump_one b h v)

tally_all : List Ballot → Assoc SlotHash SlotVote → Assoc SlotHash SlotVote
unfolding tally
tally_all bs [] = []
tally_all bs ((h, v) ∷ m) = (h, tally h bs v) ∷ tally_all bs m

tally_all-nil : (m : Assoc SlotHash SlotVote) → tally_all [] m ≡ m
unfolding tally_all
tally_all-nil [] = refl
tally_all-nil ((h, v) ∷ m) = rw (tally_all-nil m)

tally_all-cons :
    (b : Ballot) (bs : List Ballot) (m : Assoc SlotHash SlotVote)
    → tally_all bs (bump b m) ≡ tally_all (b ∷ bs) m
unfolding tally_all bump
tally_all-cons b bs [] = refl
tally_all-cons b bs ((h, v) ∷ m) = rw (tally_all-cons b bs m)

count_votes-eq-tally_all :
    (bs : List Ballot) (m : Assoc SlotHash SlotVote)
    → IsDistinct m
    → count_votes m bs ≡ tally_all bs m
unfolding count_votes
count_votes-eq-tally_all [] m d = sym (tally_all-nil m)
count_votes-eq-tally_all (b ∷ bs) m d =
    rw (count_vote-eq-bump b m d)
      (count_votes-eq-tally_all bs (bump b m) (bump-IsDistinct b m d) ∙ tally_all-cons b bs m)

count_votes-append :
    (bs cs : List Ballot) (m : Assoc SlotHash SlotVote)
    → count_votes m (bs ++ cs) ≡ count_votes (count_votes m bs) cs
unfolding count_votes
count_votes-append [] cs m = refl
count_votes-append (b ∷ bs) cs m = count_votes-append bs cs (count_vote m b)

count_responses-eq-count_votes :
    (rs : List Response) (m : Assoc SlotHash SlotVote)
    → count_responses m rs ≡ count_votes m (ballots rs)
unfolding count_responses
count_responses-eq-count_votes [] m = refl
count_responses-eq-count_votes (r ∷ rs) m =
    count_responses-eq-count_votes rs (count_votes m r) ∙ sym (count_votes-append r (ballots rs) m)

-- The counters of an instance after its votes.
tally_counts :
    (h : SlotHash) (bs : List Ballot) (v : SlotVote)
    → ((tally h bs v).vote ≡ v.vote + ayes h bs)
      × ((tally h bs v).total ≡ v.total + cast h bs)
      × ((tally h bs v).hash ≡ v.hash)
unfolding tally apply_vote
tally_counts h [] v = (omega arith, omega arith, refl)
tally_counts h (b ∷ bs) v = ground (arith, tally_counts h bs (bump_one b h v))

-- The item that goes back to the epoch manager for a slot that passes.
abbrev pub passed_item : SlotHash → SignedCommitSlotItem
passed_item h = new_signed_commit_slot_from (new_fake_commit_slot_item h) "0xEcnu" "Ecnu"

-- The specification: a slot of the heartbeat passes if at least half of the votes on it approve.
abbrev pub passing : List Ballot → Assoc SlotHash SlotCommitment → List SignedCommitSlotItem
passing bs [] = []
passing bs ((h, c) ∷ commits) =
    let rest = passing bs commits in
    if leb (cast h bs) (2 * ayes h bs) then passed_item h ∷ rest else rest

accepted-tally_all :
    (bs : List Ballot) (commits : Assoc SlotHash SlotCommitment)
    → accepted (tally_all bs (new_vote_handler commits)) ≡ passing bs commits
unfolding accepted tally_all new_vote_handler
accepted-tally_all bs [] = refl
accepted-tally_all bs ((h, c) ∷ commits) =
    ground (arith, tally_counts h bs (new_slot_vote h c), accepted-tally_all bs commits)

new_vote_handler-IsFresh :
    (k : SlotHash) (commits : Assoc SlotHash SlotCommitment)
    → IsFresh k commits
    → IsFresh k (new_vote_handler commits)
unfolding new_vote_handler
new_vote_handler-IsFresh k [] f = tt
new_vote_handler-IsFresh k ((h, c) ∷ commits) f = (f.0, new_vote_handler-IsFresh k commits f.1)

new_vote_handler-IsDistinct :
    (commits : Assoc SlotHash SlotCommitment)
    → IsDistinct commits
    → IsDistinct (new_vote_handler commits)
unfolding new_vote_handler
new_vote_handler-IsDistinct [] d = tt
new_vote_handler-IsDistinct ((h, c) ∷ commits) d =
    (new_vote_handler-IsFresh h commits d.0, new_vote_handler-IsDistinct commits d.1)

-- For a heartbeat whose committed slots are distinct, and any responses, the handler sends to the
-- epoch manager exactly the slots on which at least half of all votes cast approve, each once, in
-- the order of the heartbeat; votes on other slots have no effect.
pub process-new_vote_handler :
    (commits : Assoc SlotHash SlotCommitment) (responses : List Response)
    → IsDistinct commits
    → process (new_vote_handler commits) responses ≡ passing (ballots responses) commits
unfolding process
process-new_vote_handler commits responses d =
    rw
      (
        count_responses-eq-count_votes responses (new_vote_handler commits),
        count_votes-eq-tally_all (ballots responses) (new_vote_handler commits)
            (new_vote_handler-IsDistinct commits d),
      )
      (accepted-tally_all (ballots responses) commits)
