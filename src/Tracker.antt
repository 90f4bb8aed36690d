-- ===== src/Tracker.antt =====
-- Tracker/tracker.go: the tracker follows the tasks, and the committed slots that wait for votes and
-- proofs. The structs that the map and the expiry queue both point to lie on a heap: an address is a
-- position in `heap`. A method returns the tracker and the messages it sends on channels, in order;
-- `none` is a panic. Times are seconds.
pub mod Progress
pub mod Sound
pub mod Expiry
pub mod World
pub mod Finality
pub mod Unproven
use rappa_master.Base.Assoc.{Assoc, lookup, insert, delete, contains}
use rappa_master.Base.{
  ℕ, ◌+◌, String, string_eq, ℤ, Bool, true, false, not, Option, none, some, List, [], ◌∷◌, ◌++◌,
  length, get_elem?, set, nat_beq, if◌then◌else◌,
}
use rappa_master.Paradigm.Model.{TaskHash, SlotHash, SupportModelType, ctgan, baed, finkan, abm}
use rappa_master.Paradigm.Commit.{
  SignedCommitSlotItem, CommitSlotItem, expire_slot, set_invalid, set_finalize,
}
use rappa_master.Paradigm.Track
use rappa_master.Paradigm.Track.{
  UnprocessedTask, SynthTaskTrackItem, PendingCommitSlotTrack, new_pending_commit_slot_track,
  is_finish, next, check,
}

-- paradigm/expire.go: what waits for its time, with an ExpireSlot's PendingSlot as an address.
pub data ExpireItem : Type 0 where
  task_at : (expire_time : ℕ) → TaskHash → ExpireItem
  slot_at : (expire_time : ℕ) → SlotHash → (pending_slot : ℕ) → ExpireItem

pub data Sent : Type 0 where
  unprocessed : UnprocessedTask → Sent
  commit_slot : SignedCommitSlotItem → Sent
  expire : ExpireItem → Sent

pub record Tracker : Type 0 where
  pub task_tracks : Assoc TaskHash SynthTaskTrackItem
  pub pending_commit_slot : Assoc SlotHash ℕ
  pub heap : List PendingCommitSlotTrack

unfoldable pub new_tracker : Tracker
new_tracker = record { task_tracks = []; pending_commit_slot = []; heap = [] }

unfoldable pub init_task : SynthTaskTrackItem → Tracker → Tracker × List Sent
init_task track t = (
  record t { task_tracks = insert track.task_id track t.task_tracks },
  unprocessed (next track) ∷ [],
)

abbrev pub time_limit : SupportModelType → ℕ
time_limit finkan = 40
time_limit baed = 40
time_limit ctgan = 40
time_limit abm = 120

unfoldable pub update_task : (now : ℕ) → TaskHash → Tracker → Option (Tracker × List Sent)
update_task now sign t = elim (lookup sign t.task_tracks) [
  | none ↦ none
  | some track ↦ some (t, expire (task_at (now + time_limit track.model) sign) ∷ [])
]

-- Commit, with false for an error.
unfoldable pub commit : SignedCommitSlotItem → Tracker → Option (Tracker × Bool)
unfolding Track.commit
commit slot t = elim slot.justified_slot [
  | none ↦ none
  | some j ↦ elim (lookup j.sign t.task_tracks) [
    | none ↦ some (t, false)
    | some track ↦ elim (Track.commit slot track) [
      | none ↦ some (t, false)
      | some track' ↦ some (record t { task_tracks = insert j.sign track' t.task_tracks }, true)
    ]
  ]
]

unfoldable pub check_is_reliable : TaskHash → Tracker → Bool
check_is_reliable sign t = elim (lookup sign t.task_tracks) [
  | none ↦ false
  | some track ↦ track.is_reliable
]

unfoldable pub check_task_is_finish : TaskHash → Tracker → Bool
unfolding is_finish
check_task_is_finish sign t = elim (lookup sign t.task_tracks) [
  | none ↦ false
  | some track ↦ is_finish track
]

-- UpdateSlot: the map and the expiry item get the address of the same new struct.
unfoldable pub update_slot :
    (now : ℕ) → SignedCommitSlotItem → Tracker → Option (Tracker × List Sent)
unfolding new_pending_commit_slot_track
update_slot now item t = elim item.justified_slot [
  | none ↦ none
  | some j ↦
      let p = new_pending_commit_slot_track item (check_is_reliable j.sign t) in
      let a = length t.heap in
      some (
        record t {
          pending_commit_slot = insert item.hash a t.pending_commit_slot;
          heap = t.heap ++ p ∷ [];
        },
        expire (slot_at (now + 60) item.hash a) ∷ [],
      )
]

-- The struct at an address with its commit slot changed.
abbrev pub with_item :
    (CommitSlotItem → CommitSlotItem) → PendingCommitSlotTrack → PendingCommitSlotTrack
with_item f p = record p { signed_item = record p.signed_item { item = f p.item } }

-- CheckFinalized gets the struct by value, so that setting IsFinalized on it changes only the copy;
-- the commit slot is behind a pointer that the copy shares with the struct at `a`.
unfoldable pub check_finalized :
    (a : ℕ) → PendingCommitSlotTrack → Tracker → Option (Tracker × List Sent)
unfolding set_finalize
check_finalized a slot t = elim (lookup slot.hash t.pending_commit_slot) [
  | none ↦ none
  | some b ↦ elim (get_elem? t.heap b) [
    | none ↦ none
    | some q ↦
        let slot' = with_item set_finalize slot in
        if check q
        then some (record t { heap = set t.heap a slot' }, commit_slot slot'.signed_item ∷ [])
        else some (t, [])
  ]
]

-- WonVote and ReceiveProof differ in the flag that they set.
unfoldable pub set_flag :
    (PendingCommitSlotTrack → PendingCommitSlotTrack)
    → SlotHash
    → Tracker
    → Option (Tracker × List Sent)
set_flag flag hash t = elim (lookup hash t.pending_commit_slot) [
  | none ↦ some (t, [])
  | some a ↦ elim (get_elem? t.heap a) [
    | none ↦ none
    | some p ↦
        if nat_beq p.is_finalized 1
        then some (t, [])
        else check_finalized a (flag p) (record t { heap = set t.heap a (flag p) })
  ]
]

unfoldable pub won_vote : SlotHash → Tracker → Option (Tracker × List Sent)
unfolding set_flag
won_vote = set_flag Track.won_vote

unfoldable pub receive_proof : SlotHash → Tracker → Option (Tracker × List Sent)
unfolding set_flag
receive_proof = set_flag Track.receive_proof

-- The body of the loop of CollectExpire.
unfoldable pub collect_expire : ExpireItem → Tracker → Option (Tracker × List Sent)
unfolding set_invalid
collect_expire (task_at _ task_id) t = elim (lookup task_id t.task_tracks) [
  | none ↦ none
  | some track ↦ some (t, if is_finish track then [] else unprocessed (next track) ∷ [])
]
collect_expire (slot_at _ hash a) t =
    let pending = delete hash t.pending_commit_slot in
    elim (get_elem? t.heap a) [
      | none ↦ none
      | some p ↦
          let p' = with_item (set_invalid expire_slot) p in
          if not (check p)
          then some (
            record t { pending_commit_slot = pending; heap = set t.heap a p' },
            commit_slot p'.signed_item ∷ [],
          )
          else some (record t { pending_commit_slot = pending }, [])
    ]
