-- ===== src/Tracker/Unproven.antt =====
-- The tasks that are not marked as reliable: the flag that the tracker reads as a proof received is
-- set for reliable tasks, and a received proof is the only other way to set it.
use rappa_master.Base.Assoc.{lookup, insert, delete, lookup-insert}
use rappa_master.Base.{
  ℕ, ◌+◌, ◌≡◌, ◌≢◌, refl, sym, subst, ◌∙◌, inl, inr, string_eq, Bool, true, false, Option, none,
  some, List, [], ◌∷◌, ◌++◌, arith, length, get_elem?, set, remove_at, All, All-append, All-set,
  All-get_elem?, Bool-cases, Option-cases, nat_beq, if◌then◌else◌,
}
use rappa_master.Paradigm.Model.{SlotHash, TaskHash}
use rappa_master.Paradigm.Commit.{
  SignedCommitSlotItem, invalid, finalized, set_invalid, expire_slot,
}
use rappa_master.Paradigm.Track
use rappa_master.Paradigm.Track.{
  SynthTaskTrackItem, PendingCommitSlotTrack, UnprocessedTask, check, is_finish, next,
  new_pending_commit_slot_track,
}
use rappa_master.Tracker.{
  Tracker, Sent, unprocessed, commit_slot, expire, ExpireItem, task_at, slot_at, new_tracker,
  init_task, time_limit, update_task, update_slot, won_vote, commit, collect_expire,
  check_is_reliable, check_finalized, set_flag, with_item,
}
use rappa_master.Tracker.World.{
  World, Call, inits, schedules, submits, wins, proves, commits, expires, step, deliver, silent,
  initial,
}

abbrev IsBare : PendingCommitSlotTrack → Type 0
IsBare p = p.has_verified_proof ≡ false

record Unproven (t : Tracker) : Type 0 where
  bare : All IsBare t.heap
  unreliable : (s : TaskHash) → check_is_reliable s t ≡ false

abbrev pub NotFinal : Sent → Type 0
NotFinal (commit_slot item) = item.state ≢ finalized
NotFinal (unprocessed _) = Unit
NotFinal (expire _) = Unit

abbrev IsQuiet : Option (Tracker × List Sent) → Type 0
IsQuiet none = Unit
IsQuiet (some (t, sent)) = Unproven t × All NotFinal sent

IsQuiet-by : {r r' : Option (Tracker × List Sent)} → r ≡ r' → IsQuiet r' → IsQuiet r
IsQuiet-by e q = subst IsQuiet (sym e) q

same_tasks :
    (t t' : Tracker)
    → t'.task_tracks ≡ t.task_tracks
    → Unproven t
    → All IsBare t'.heap
    → Unproven t'
unfolding check_is_reliable
same_tasks t t' e u bare = record { bare = bare; unreliable = λ s. rw e (u.unreliable s) }

update_slot-IsQuiet :
    (now : ℕ) (item : SignedCommitSlotItem) (t : Tracker)
    → Unproven t
    → IsQuiet (update_slot now item t)
unfolding update_slot
update_slot-IsQuiet now item t u = elim (Option-cases item.justified_slot) [
  | inl nil ↦ let e : update_slot now item t ≡ none = ground arith in IsQuiet-by e tt
  | inr (j, e) ↦
      let p = new_pending_commit_slot_track item (check_is_reliable j.sign t) in
      let a = length t.heap in
      let t' = record t {
        pending_commit_slot = insert item.hash a t.pending_commit_slot;
        heap = t.heap ++ p ∷ [];
      } in
      let runs : update_slot now item t ≡ some (t', expire (slot_at (now + 60) item.hash a) ∷ []) =
        ground arith in
      IsQuiet-by runs (
        same_tasks t t' refl u (All-append IsBare t.heap (p ∷ []) u.bare (u.unreliable j.sign, tt)),
        (tt, tt),
      )
]

check_finalized-IsQuiet :
    (a : ℕ) (p : PendingCommitSlotTrack) (t : Tracker)
    → Unproven t
    → IsQuiet (check_finalized a p t)
unfolding check_finalized check
check_finalized-IsQuiet a p t u = elim (Option-cases (lookup p.hash t.pending_commit_slot)) [
  | inl nil ↦ let e : check_finalized a p t ≡ none = ground arith in IsQuiet-by e tt
  | inr (b, at) ↦ elim (Option-cases (get_elem? t.heap b)) [
    | inl nil ↦ let e : check_finalized a p t ≡ none = ground arith in IsQuiet-by e tt
    | inr (q, found) ↦
        let no_proof = All-get_elem? IsBare t.heap b u.bare found in
        let e : check_finalized a p t ≡ some (t, []) = ground arith in IsQuiet-by e (u, tt)
  ]
]

won_vote-IsQuiet : (hash : SlotHash) (t : Tracker) → Unproven t → IsQuiet (won_vote hash t)
unfolding won_vote set_flag
won_vote-IsQuiet hash t u = elim (Option-cases (lookup hash t.pending_commit_slot)) [
  | inl nil ↦ let e : won_vote hash t ≡ some (t, []) = ground arith in IsQuiet-by e (u, tt)
  | inr (a, at) ↦ elim (Option-cases (get_elem? t.heap a)) [
    | inl nil ↦ let e : won_vote hash t ≡ none = ground arith in IsQuiet-by e tt
    | inr (p, found) ↦
        let q = Track.won_vote p in
        let t' = record t { heap = set t.heap a q } in
        let no_proof = All-get_elem? IsBare t.heap a u.bare found in
        let u' = same_tasks t t' refl u (All-set IsBare t.heap a q u.bare no_proof) in
        elim (Bool-cases (nat_beq p.is_finalized 1)) [
          | inl ended ↦
              let e : won_vote hash t ≡ some (t, []) = ground arith in IsQuiet-by e (u, tt)
          | inr open_slot ↦
              let e : won_vote hash t ≡ check_finalized a q t' = ground arith in
              IsQuiet-by e (check_finalized-IsQuiet a q t' u')
        ]
  ]
]

invalid≢finalized : ¬ (invalid ≡ finalized)
invalid≢finalized e = cc

reissue_quiet :
    (b : Bool) (u : UnprocessedTask) → All NotFinal (if b then [] else unprocessed u ∷ [])
reissue_quiet true u = tt
reissue_quiet false u = (tt, tt)

collect_expire-IsQuiet :
    (item : ExpireItem) (t : Tracker) → Unproven t → IsQuiet (collect_expire item t)
unfolding collect_expire
collect_expire-IsQuiet (task_at time sign) t u = elim (Option-cases (lookup sign t.task_tracks)) [
  | inl nil ↦ let e : collect_expire (task_at time sign) t ≡ none = ground arith in IsQuiet-by e tt
  | inr (track, found) ↦
      let e : collect_expire (task_at time sign) t
          ≡ some (t, if is_finish track then [] else unprocessed (next track) ∷ []) =
        ground arith in
      IsQuiet-by e (u, reissue_quiet (is_finish track) (next track))
]
collect_expire-IsQuiet (slot_at time hash a) t u = elim (Option-cases (get_elem? t.heap a)) [
  | inl nil ↦
      let e : collect_expire (slot_at time hash a) t ≡ none = ground arith in IsQuiet-by e tt
  | inr (p, found) ↦
      let q = with_item (set_invalid expire_slot) p in
      let t' = record t { pending_commit_slot = delete hash t.pending_commit_slot } in
      let t'' = record t' { heap = set t.heap a q } in
      let no_proof = All-get_elem? IsBare t.heap a u.bare found in
      elim (Bool-cases (check p)) [
        | inl ready ↦
            let e : collect_expire (slot_at time hash a) t ≡ some (t', []) = ground arith in
            IsQuiet-by e (same_tasks t t' refl u u.bare, tt)
        | inr waiting ↦
            let e : collect_expire (slot_at time hash a) t
                ≡ some (t'', commit_slot q.signed_item ∷ []) =
              ground arith in
            IsQuiet-by e (
              same_tasks t t'' refl u (All-set IsBare t.heap a q u.bare no_proof),
              (invalid≢finalized, tt),
            )
      ]
]

check_is_reliable-insert :
    (sign : TaskHash) (track : SynthTaskTrackItem) (t : Tracker)
    → track.is_reliable ≡ false
    → Unproven t
    → Unproven (record t { task_tracks = insert sign track t.task_tracks })
unfolding check_is_reliable
check_is_reliable-insert sign track t e u = record {
  bare = u.bare;
  unreliable = λ s. ground (arith, u.unreliable s, lookup-insert sign s track t.task_tracks);
}

init_task-IsQuiet :
    (track : SynthTaskTrackItem) (t : Tracker)
    → track.is_reliable ≡ false
    → Unproven t
    → IsQuiet (some (init_task track t))
unfolding init_task
init_task-IsQuiet track t e u = (check_is_reliable-insert track.task_id track t e u, (tt, tt))

update_task-IsQuiet :
    (now : ℕ) (sign : TaskHash) (t : Tracker) → Unproven t → IsQuiet (update_task now sign t)
unfolding update_task
update_task-IsQuiet now sign t u = elim (Option-cases (lookup sign t.task_tracks)) [
  | inl nil ↦ let e : update_task now sign t ≡ none = ground arith in IsQuiet-by e tt
  | inr (track, found) ↦
      let e : update_task now sign t
          ≡ some (t, expire (task_at (now + time_limit track.model) sign) ∷ []) =
        ground arith in
      IsQuiet-by e (u, (tt, tt))
]

commit_keeps_reliable :
    (item : SignedCommitSlotItem) (t t' : SynthTaskTrackItem)
    → Track.commit item t ≡ some t'
    → t'.is_reliable ≡ t.is_reliable
unfolding Track.commit
commit_keeps_reliable item t t' e = ground arith

commit-IsQuiet :
    (item : SignedCommitSlotItem) (t : Tracker) → Unproven t → IsQuiet (silent (commit item t))
unfolding commit check_is_reliable
commit-IsQuiet item t u = elim (Option-cases item.justified_slot) [
  | inl nil ↦ let e : silent (commit item t) ≡ none = ground arith in IsQuiet-by e tt
  | inr (j, slot) ↦ elim (Option-cases (lookup j.sign t.task_tracks)) [
    | inl nil ↦ let e : silent (commit item t) ≡ some (t, []) = ground arith in IsQuiet-by e (u, tt)
    | inr (track, found) ↦ elim (Option-cases (Track.commit item track)) [
      | inl nil ↦
          let e : silent (commit item t) ≡ some (t, []) = ground arith in IsQuiet-by e (u, tt)
      | inr (track', done) ↦
          let t' = record t { task_tracks = insert j.sign track' t.task_tracks } in
          let e : silent (commit item t) ≡ some (t', []) = ground arith in
          let kept : track'.is_reliable ≡ false =
            commit_keeps_reliable item track track' done ∙ ground (arith, u.unreliable j.sign) in
          IsQuiet-by e (check_is_reliable-insert j.sign track' t kept u, tt)
    ]
  ]
]

abbrev IsQuietStep : Option (World × List Sent) → Type 0
IsQuietStep none = Unit
IsQuietStep (some (w, sent)) = Unproven w.tracker × All NotFinal sent

deliver-IsQuiet :
    (waiting : List ExpireItem) (r : Option (Tracker × List Sent))
    → IsQuiet r
    → IsQuietStep (deliver waiting r)
deliver-IsQuiet waiting none q = tt
deliver-IsQuiet waiting (some (t, sent)) q = q

expires-IsQuiet : (i : ℕ) (w : World) → Unproven w.tracker → IsQuietStep (step (expires i) w)
unfolding step
expires-IsQuiet i w u = elim (Option-cases (get_elem? w.waiting i)) [
  | inl nothing ↦ let e : step (expires i) w ≡ none = ground arith in subst IsQuietStep (sym e) tt
  | inr (item, found) ↦
      let e : step (expires i) w ≡ deliver (remove_at w.waiting i) (collect_expire item w.tracker) =
        ground arith in
      subst IsQuietStep (sym e) (
        deliver-IsQuiet (remove_at w.waiting i) (collect_expire item w.tracker)
          (collect_expire-IsQuiet item w.tracker u))
]

-- The calls of a program that marks no task as reliable and that receives no proof.
abbrev pub IsPlain : Call → Type 0
IsPlain (inits track) = track.is_reliable ≡ false
IsPlain (proves hash) = ⊥
IsPlain _ = Unit

step-IsQuiet : (c : Call) (w : World) → IsPlain c → Unproven w.tracker → IsQuietStep (step c w)
unfolding step
step-IsQuiet (inits track) w e u =
    deliver-IsQuiet w.waiting (some (init_task track w.tracker))
      (init_task-IsQuiet track w.tracker e u)
step-IsQuiet (schedules now sign) w _ u =
    deliver-IsQuiet w.waiting (update_task now sign w.tracker)
      (update_task-IsQuiet now sign w.tracker u)
step-IsQuiet (submits now item) w _ u =
    deliver-IsQuiet w.waiting (update_slot now item w.tracker)
      (update_slot-IsQuiet now item w.tracker u)
step-IsQuiet (wins hash) w _ u =
    deliver-IsQuiet w.waiting (won_vote hash w.tracker) (won_vote-IsQuiet hash w.tracker u)
step-IsQuiet (proves hash) w never u = absurd never
step-IsQuiet (commits item) w _ u =
    deliver-IsQuiet w.waiting (silent (commit item w.tracker)) (commit-IsQuiet item w.tracker u)
step-IsQuiet (expires i) w _ u = expires-IsQuiet i w u

-- The worlds reached from the start by plain calls, with all the messages sent on the way.
pub data Unaided : World → List Sent → Type 0 where
  begin : Unaided initial []
  call :
      {w w' : World} {sent new : List Sent} (c : Call)
      → Unaided w sent
      → IsPlain c
      → step c w ≡ some (w', new)
      → Unaided w' (sent ++ new)

initial-Unproven : Unproven initial.tracker
unfolding new_tracker check_is_reliable lookup
initial-Unproven = record { bare = tt; unreliable = λ s. refl }

Unaided-IsQuiet :
    {w : World} {sent : List Sent} → Unaided w sent → Unproven w.tracker × All NotFinal sent
Unaided-IsQuiet begin = (initial-Unproven, tt)
Unaided-IsQuiet (call {w = w} {w' = w'} {sent = sent} {new = new} c r plain e) =
    let (u, quiet) = Unaided-IsQuiet r in
    let (u', quiet') = subst IsQuietStep e (step-IsQuiet c w plain u) in
    (u', All-append NotFinal sent new quiet quiet')

-- While no task is marked as reliable and ReceiveProof is not called, no message of the tracker
-- reports a finalized slot, whatever votes are won and whatever expires, in any order.
pub Unaided-NotFinal : {w : World} {sent : List Sent} → Unaided w sent → All NotFinal sent
Unaided-NotFinal r = (Unaided-IsQuiet r).1
