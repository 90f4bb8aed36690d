-- ===== src/Paradigm/Vote.antt =====
-- paradigm/vote.go: the votes of the nodes on one slot. The two counters are ints that count
-- messages, and stay far below 2^63.
use rappa_master.Base.Assoc.{Assoc, insert}
use rappa_master.Base.{ℕ, ◌+◌, ◌*◌, String, ℤ, int_eq, Bool, leb, []}
use rappa_master.Paradigm.Model.{SlotHash, SlotCommitment}

pub record SlotVote : Type 0 where
  pub hash : SlotHash
  pub commitment : SlotCommitment
  pub total : ℕ
  pub vote : ℕ
  pub message : Assoc ℤ String

unfoldable pub accept : ℤ → SlotVote → SlotVote
accept id v = record v {
  vote = v.vote + 1;
  total = v.total + 1;
  message = insert id "OK" v.message;
}

unfoldable pub reject : ℤ → String → SlotVote → SlotVote
reject id desp v = record v { total = v.total + 1; message = insert id desp v.message }

unfoldable pub check : SlotVote → Bool
check v = leb v.total (2 * v.vote)

unfoldable pub new_slot_vote : SlotHash → SlotCommitment → SlotVote
new_slot_vote hash commitment = record {
  hash = hash;
  commitment = commitment;
  total = 0;
  vote = 0;
  message = [];
}
