-- ===== src/Tracker/Finality.antt =====
-- When the tracker reports a slot as finalized.
use rappa_master.Base.Assoc.{lookup, insert, lookup-insert}
use rappa_master.Base.{
  ℕ, zero, suc, ◌+◌, ◌≡◌, refl, ap, ◌∙◌, string_eq, true, Option, none, some, List, [], ◌∷◌, ◌++◌,
  arith, length, get_elem?, set, get_elem?-set_self, get_elem?-append_length, ==_refl,
}
use rappa_master.Paradigm.Model.{SlotHash}
use rappa_master.Paradigm.Commit.{SignedCommitSlotItem, JustifiedSlot, set_finalize}
use rappa_master.Paradigm.Track
use rappa_master.Paradigm.Track.{
  SynthTaskTrackItem, PendingCommitSlotTrack, UnprocessedTask, check, is_finish, next,
  new_pending_commit_slot_track,
}
use rappa_master.Tracker.{
  Tracker, Sent, commit_slot, expire, slot_at, update_slot, won_vote, check_is_reliable,
  check_finalized, set_flag, with_item,
}

abbrev pub replicate : ℕ → Sent → List Sent
replicate zero m = []
replicate (suc n) m = m ∷ replicate n m

-- The vote on a slot is won again and again.
pub win_times : ℕ → SlotHash → Tracker → Option (Tracker × List Sent)
win_times zero h t = some (t, [])
win_times (suc n) h t = elim (won_vote h t) [
  | none ↦ none
  | some (t', sent) ↦ elim (win_times n h t') [
    | none ↦ none
    | some (t'', more) ↦ some (t'', sent ++ more)
  ]
]

-- At `a` lies the slot `h`, with its proof, and with `item` as its finalized commit slot.
pub record IsProven (t : Tracker) (h : SlotHash) (a : ℕ) (item : SignedCommitSlotItem)
    : Type 0 where
  pub at : lookup h t.pending_commit_slot ≡ some a
  pub slot : PendingCommitSlotTrack
  pub found : get_elem? t.heap a ≡ some slot
  pub named : slot.hash ≡ h
  pub unmarked : slot.is_finalized ≡ 0
  pub proven : slot.has_verified_proof ≡ true
  pub final : (with_item set_finalize slot).signed_item ≡ item

set_flag_unmarked :
    (flag : PendingCommitSlotTrack → PendingCommitSlotTrack) (t : Tracker) (h : SlotHash) (a : ℕ)
    (p : PendingCommitSlotTrack)
    → lookup h t.pending_commit_slot ≡ some a
    → get_elem? t.heap a ≡ some p
    → p.is_finalized ≡ 0
    → set_flag flag h t ≡ check_finalized a (flag p) (record t { heap = set t.heap a (flag p) })
unfolding set_flag
set_flag_unmarked flag t h a p at found unmarked = ground arith

check_finalized_ready :
    (t : Tracker) (a : ℕ) (p : PendingCommitSlotTrack)
    → lookup p.hash t.pending_commit_slot ≡ some a
    → get_elem? t.heap a ≡ some p
    → check p ≡ true
    → let q = with_item set_finalize p in
      check_finalized a p t
      ≡ some (record t { heap = set t.heap a q }, commit_slot q.signed_item ∷ [])
unfolding check_finalized
check_finalized_ready t a p at found ready = ground arith

won_vote-IsProven :
    (t : Tracker) (h : SlotHash) (a : ℕ) (item : SignedCommitSlotItem)
    → IsProven t h a item
    → (t' : Tracker) × (won_vote h t ≡ some (t', commit_slot item ∷ [])) × IsProven t' h a item
unfolding won_vote check set_finalize
won_vote-IsProven t h a item i =
    let q = Track.won_vote i.slot in
    let q' = with_item set_finalize q in
    let u = record t { heap = set t.heap a q } in
    let at : lookup q.hash t.pending_commit_slot ≡ some a = rw i.named i.at in
    let found = get_elem?-set_self t.heap a q i.found in
    (
      record t { heap = set (set t.heap a q) a q' },
      set_flag_unmarked Track.won_vote t h a i.slot i.at i.found i.unmarked
          ∙ check_finalized_ready u a q at found (rw i.proven)
          ∙ ap (λ x. some (record u { heap = set u.heap a q' }, commit_slot x ∷ [])) i.final,
      record {
        at = i.at;
        slot = q';
        found = get_elem?-set_self (set t.heap a q) a q' (get_elem?-set_self t.heap a q i.found);
        named = i.named;
        unmarked = i.unmarked;
        proven = i.proven;
        final = i.final;
      },
    )

win_times-IsProven :
    (n : ℕ) (t : Tracker) (h : SlotHash) (a : ℕ) (item : SignedCommitSlotItem)
    → IsProven t h a item
    → (t' : Tracker) × (win_times n h t ≡ some (t', replicate n (commit_slot item)))
      × IsProven t' h a item
unfolding win_times
win_times-IsProven zero t h a item i = (t, refl, i)
win_times-IsProven (suc n) t h a item i =
    let (t1, first, i1) = won_vote-IsProven t h a item i in
    let (t2, rest, i2) = win_times-IsProven n t1 h a item i1 in (t2, ground arith, i2)

abbrev pub finalized_item : SignedCommitSlotItem → SignedCommitSlotItem
finalized_item item = record item { item = set_finalize item.item }

submitted-IsProven :
    (now : ℕ) (item : SignedCommitSlotItem) (j : JustifiedSlot) (t : Tracker)
    → item.justified_slot ≡ some j
    → check_is_reliable j.sign t ≡ true
    → (t' : Tracker) × (sent : List Sent) × (update_slot now item t ≡ some (t', sent))
      × IsProven t' item.hash (length t.heap) (finalized_item item)
unfolding update_slot
submitted-IsProven now item j t e reliable =
    let a = length t.heap in
    let p = new_pending_commit_slot_track item (check_is_reliable j.sign t) in
    (
      record t {
        pending_commit_slot = insert item.hash a t.pending_commit_slot;
        heap = t.heap ++ p ∷ [];
      },
      expire (slot_at (now + 60) item.hash a) ∷ [],
      ground arith,
      record {
        at = rw (lookup-insert item.hash item.hash a t.pending_commit_slot, ==_refl item.hash);
        slot = p;
        found = get_elem?-append_length t.heap p;
        named = refl;
        unmarked = refl;
        proven = reliable;
        final = refl;
      },
    )

-- A slot that a node commits for a reliable task is reported as finalized by the first vote that it
-- wins, with no proof received, and again by each further vote: n wins send the finalized slot n
-- times. The mark against a second report is set on a copy of the struct, and is lost.
pub update_slot-win_times :
    (now : ℕ) (item : SignedCommitSlotItem) (j : JustifiedSlot) (t : Tracker) (n : ℕ)
    → item.justified_slot ≡ some j
    → check_is_reliable j.sign t ≡ true
    → (t' t'' : Tracker) × (sent : List Sent) × (update_slot now item t ≡ some (t', sent))
      × (win_times n item.hash t' ≡ some (t'', replicate n (commit_slot (finalized_item item))))
update_slot-win_times now item j t n e reliable =
    let (t1, sent, runs, proven) = submitted-IsProven now item j t e reliable in
    let (t2, wins, _) =
      win_times-IsProven n t1 item.hash (length t.heap) (finalized_item item) proven in
    (t1, t2, sent, runs, wins)
