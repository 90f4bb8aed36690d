-- ===== src/Examples/Votes.antt =====
-- Votes on slots.
use rappa_master.Base.Assoc.{Assoc}
use rappa_master.Base.{ℕ, refl, ◌≡◌, Bool, string_eq, pos, true, false, List, [], ◌∷◌}
use rappa_master.Paradigm.Model.{SlotHash, SlotCommitment}
use rappa_master.Handler.{Ballot, Response, process, new_vote_handler}
use rappa_master.Handler.Count.{passing, ballots, passed_item, process-new_vote_handler}

abbrev commits : Assoc SlotHash SlotCommitment
commits = ("a", 1 ∷ []) ∷ ("b", 2 ∷ []) ∷ []

abbrev vote_on : SlotHash → (node : ℕ) → Bool → Ballot
vote_on h n yes_no = record { hash = h; node_id = pos n; state = yes_no; desp = "" }

abbrev responses : List Response
responses =
    (vote_on "a" 1 true ∷ vote_on "b" 1 false ∷ [])
    ∷ (vote_on "a" 2 false ∷ vote_on "b" 2 false ∷ vote_on "c" 2 true ∷ [])
    ∷ []

process-new_vote_handler_example :
    process (new_vote_handler commits) responses ≡ passing (ballots responses) commits
process-new_vote_handler_example = process-new_vote_handler commits responses ((refl, tt), (tt, tt))

-- A tie passes.
one_passes : passing (ballots responses) commits ≡ passed_item "a" ∷ []
one_passes = refl
