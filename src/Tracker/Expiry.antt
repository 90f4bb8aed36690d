-- ===== src/Tracker/Expiry.antt =====
-- The tracker's remaining calls: expiry (CollectExpire), UpdateTask and InitTask.
use rappa_master.Base.Assoc.{Assoc, delete, lookup-delete, contains, lookup, insert, lookup-insert}
use rappa_master.Base.{
  Bool, true, false, Option-cases, get_elem?-lt, if◌then◌else◌, ℕ, ◌+◌, All, ◌≡◌, refl, inl, inr,
  string_eq, true, some, [], ◌∷◌, arith, length-set, set, Bool-cases,
}
use rappa_master.Paradigm.Model.{SlotHash, TaskHash}
use rappa_master.Paradigm.Commit.{set_invalid, expire_slot}
use rappa_master.Paradigm.Track.{UnprocessedTask, SynthTaskTrackItem, is_finish, next, check}
use rappa_master.Tracker.{
  collect_expire, update_task, init_task, task_at, slot_at, time_limit, Tracker, unprocessed,
  commit_slot, expire, ExpireItem, with_item,
}
use rappa_master.Tracker.Sound.{IsSound, IsKnown, IsKnownSent, Returns, IsSound-written}

reissue_known :
    (t : Tracker) (u : UnprocessedTask) (b : Bool)
    → All (IsKnownSent t) (if b then [] else unprocessed u ∷ [])
reissue_known t u true = tt
reissue_known t u false = (tt, tt)

IsSound-deleted :
    (hash : SlotHash) (t : Tracker)
    → IsSound t
    → IsSound (record t { pending_commit_slot = delete hash t.pending_commit_slot })
IsSound-deleted hash t s h a look =
    let law = lookup-delete hash h t.pending_commit_slot in s h a (ground arith)

pub collect_expire-Returns :
    (item : ExpireItem) (t : Tracker)
    → IsKnown t item
    → IsSound t
    → Returns t (collect_expire item t)
unfolding collect_expire
collect_expire-Returns (task_at _ sign) t k s = elim (Option-cases (lookup sign t.task_tracks)) [
  | inl missing ↦ absurd (ground arith)
  | inr (track, found) ↦ record {
    after = t;
    sent = if is_finish track then [] else unprocessed (next track) ∷ [];
    runs = ground arith;
    sound = s;
    grows = omega arith;
    keeps = λ _ h. h;
    known = reissue_known t (next track) (is_finish track);
  }
]
collect_expire-Returns (slot_at _ hash a) t k s =
    let (p, found) = get_elem?-lt t.heap a k in
    let q = with_item (set_invalid expire_slot) p in
    let u = record t { pending_commit_slot = delete hash t.pending_commit_slot } in
    elim (Bool-cases (check p)) [
      | inl ready ↦ record {
        after = u;
        sent = [];
        runs = ground arith;
        sound = IsSound-deleted hash t s;
        grows = omega arith;
        keeps = λ _ h. h;
        known = tt;
      }
      | inr waiting ↦ record {
        after = record u { heap = set t.heap a q };
        sent = commit_slot q.signed_item ∷ [];
        runs = ground arith;
        sound = IsSound-written u a p q found refl (IsSound-deleted hash t s);
        grows = omega (arith, length-set t.heap a q);
        keeps = λ _ h. h;
        known = (tt, tt);
      }
    ]

pub update_task-Returns :
    (now : ℕ) (sign : TaskHash) (t : Tracker)
    → contains sign t.task_tracks ≡ true
    → IsSound t
    → Returns t (update_task now sign t)
unfolding update_task
update_task-Returns now sign t k s = elim (Option-cases (lookup sign t.task_tracks)) [
  | inl missing ↦ absurd (ground arith)
  | inr (track, found) ↦ record {
    after = t;
    sent = expire (task_at (now + time_limit track.model) sign) ∷ [];
    runs = ground arith;
    sound = s;
    grows = omega arith;
    keeps = λ _ h. h;
    known = (k, tt);
  }
]

pub contains-insert :
    (k j : TaskHash) (v : SynthTaskTrackItem) (m : Assoc TaskHash SynthTaskTrackItem)
    → contains j m ≡ true
    → contains j (insert k v m) ≡ true
contains-insert k j v m h = ground (arith, lookup-insert k j v m)

pub init_task-Returns :
    (track : SynthTaskTrackItem) (t : Tracker) → IsSound t → Returns t (some (init_task track t))
unfolding init_task
init_task-Returns track t s = record {
  after = record t { task_tracks = insert track.task_id track t.task_tracks };
  sent = unprocessed (next track) ∷ [];
  runs = refl;
  sound = s;
  grows = omega arith;
  keeps = λ j h. contains-insert track.task_id j track t.task_tracks h;
  known = (tt, tt);
}
