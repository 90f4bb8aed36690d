-- ===== src/Tracker/World.antt =====
-- The tracker with the expiry items on their way, under calls in any order: its own loop calls
-- InitTask and UpdateTask, the epoch manager UpdateSlot, WonVote and Commit, and CollectExpire takes
-- the items. An item may expire at any time after it was sent. Each call is one step: the data races
-- between these goroutines are not modelled.
use rappa_master.Base.Assoc.{contains, lookup, lookup-nil, insert}
use rappa_master.Base.{
  ℕ, ◌<◌, ◌≡◌, ◌≢◌, refl, subst, inl, inr, string_eq, Bool, true, Option, none, some, List, [], ◌∷◌,
  ◌++◌, arith, length, get_elem?, get_elem?-lt, remove_at, All, All-append, All-map, All-get_elem?,
  All-remove_at, Option-cases,
}
use rappa_master.Paradigm.Model.{TaskHash, SlotHash}
use rappa_master.Paradigm.Commit.{SignedCommitSlotItem, JustifiedSlot}
use rappa_master.Paradigm.Track
use rappa_master.Paradigm.Track.{SynthTaskTrackItem}
use rappa_master.Tracker.{
  Tracker, Sent, unprocessed, commit_slot, expire, ExpireItem, task_at, slot_at, new_tracker,
  init_task, update_task, update_slot, won_vote, receive_proof, commit, collect_expire,
}
use rappa_master.Tracker.Sound.{
  IsSound, IsKnown, IsKnownSent, Returns, stays, update_slot-Returns, set_flag-Returns,
}
use rappa_master.Tracker.Expiry.{
  collect_expire-Returns, update_task-Returns, init_task-Returns, contains-insert,
}

pub data Call : Type 0 where
  inits : SynthTaskTrackItem → Call
  schedules : (now : ℕ) → TaskHash → Call
  submits : (now : ℕ) → SignedCommitSlotItem → Call
  wins : SlotHash → Call
  proves : SlotHash → Call
  commits : SignedCommitSlotItem → Call
  expires : (position : ℕ) → Call

pub record World : Type 0 where
  pub tracker : Tracker
  pub waiting : List ExpireItem

abbrev pub issued : List Sent → List ExpireItem
issued [] = []
issued (expire item ∷ sent) = item ∷ issued sent
issued (_ ∷ sent) = issued sent

abbrev pub deliver : List ExpireItem → Option (Tracker × List Sent) → Option (World × List Sent)
deliver waiting none = none
deliver waiting (some (t, sent)) =
    some (record { tracker = t; waiting = waiting ++ issued sent }, sent)

abbrev pub silent : Option (Tracker × Bool) → Option (Tracker × List Sent)
silent none = none
silent (some (t, _)) = some (t, [])

unfoldable pub step : Call → World → Option (World × List Sent)
step (inits track) w = deliver w.waiting (some (init_task track w.tracker))
step (schedules now sign) w = deliver w.waiting (update_task now sign w.tracker)
step (submits now item) w = deliver w.waiting (update_slot now item w.tracker)
step (wins hash) w = deliver w.waiting (won_vote hash w.tracker)
step (proves hash) w = deliver w.waiting (receive_proof hash w.tracker)
step (commits item) w = deliver w.waiting (silent (commit item w.tracker))
step (expires i) w = elim (get_elem? w.waiting i) [
  | none ↦ none
  | some item ↦ deliver (remove_at w.waiting i) (collect_expire item w.tracker)
]

abbrev pub HasSlot : SignedCommitSlotItem → Type 0
HasSlot item = (j : JustifiedSlot) × (item.justified_slot ≡ some j)

-- What the callers see to: a task is scheduled after it was announced, the items that nodes commit
-- and that the tracker finalized carry a slot, and only what waits expires.
abbrev pub IsEnabled : World → Call → Type 0
IsEnabled w (schedules now sign) = contains sign w.tracker.task_tracks ≡ true
IsEnabled w (submits now item) = HasSlot item
IsEnabled w (commits item) = HasSlot item
IsEnabled w (expires i) = i < length w.waiting
IsEnabled w _ = Unit

pub record IsValid (w : World) : Type 0 where
  pub sound : IsSound w.tracker
  pub known : All (IsKnown w.tracker) w.waiting

-- An item that was known stays known.
IsKnown-keeps :
    {t : Tracker} {r : Option (Tracker × List Sent)} (ret : Returns t r) (item : ExpireItem)
    → IsKnown t item
    → IsKnown ret.after item
IsKnown-keeps ret (task_at _ sign) k = ret.keeps sign k
IsKnown-keeps ret (slot_at _ _ a) k = omega (arith, ret.grows)

issued-IsKnown :
    (t : Tracker) (sent : List Sent) → All (IsKnownSent t) sent → All (IsKnown t) (issued sent)
issued-IsKnown t [] k = tt
issued-IsKnown t (unprocessed _ ∷ sent) k = issued-IsKnown t sent k.1
issued-IsKnown t (commit_slot _ ∷ sent) k = issued-IsKnown t sent k.1
issued-IsKnown t (expire item ∷ sent) k = (k.0, issued-IsKnown t sent k.1)

abbrev pub Succeeds : Option (World × List Sent) → Type 0
Succeeds r = (w : World) × (sent : List Sent) × (r ≡ some (w, sent)) × IsValid w

deliver-Succeeds :
    (t : Tracker) (waiting : List ExpireItem) {r : Option (Tracker × List Sent)}
    → Returns t r
    → All (IsKnown t) waiting
    → Succeeds (deliver waiting r)
deliver-Succeeds t waiting ret k = (
  record { tracker = ret.after; waiting = waiting ++ issued ret.sent },
  ret.sent,
  rw ret.runs,
  record {
    sound = ret.sound;
    known =
        All-append (IsKnown ret.after) waiting (issued ret.sent)
          (All-map (IsKnown-keeps ret) waiting k) (issued-IsKnown ret.after ret.sent ret.known);
  },
)

commit_found :
    (item : SignedCommitSlotItem) (j : JustifiedSlot) (t : Tracker) (track : SynthTaskTrackItem)
    → item.justified_slot ≡ some j
    → lookup j.sign t.task_tracks ≡ some track
    → IsSound t
    → Returns t (silent (commit item t))
unfolding commit
commit_found item j t track e found s = elim (Option-cases (Track.commit item track)) [
  | inl failed ↦ stays t (ground arith) s
  | inr (track', done) ↦ record {
    after = record t { task_tracks = insert j.sign track' t.task_tracks };
    sent = [];
    runs = ground arith;
    sound = s;
    grows = omega arith;
    keeps = λ k h. contains-insert j.sign k track' t.task_tracks h;
    known = tt;
  }
]

pub commit-Returns :
    (item : SignedCommitSlotItem) (t : Tracker)
    → HasSlot item
    → IsSound t
    → Returns t (silent (commit item t))
unfolding commit
commit-Returns item t (j, e) s = elim (Option-cases (lookup j.sign t.task_tracks)) [
  | inl missing ↦ stays t (ground arith) s
  | inr (track, found) ↦ commit_found item j t track e found s
]

step_expires :
    (i : ℕ) (w : World) (item : ExpireItem)
    → get_elem? w.waiting i ≡ some item
    → step (expires i) w ≡ deliver (remove_at w.waiting i) (collect_expire item w.tracker)
unfolding step
step_expires i w item found = ground arith

expires-Succeeds :
    (i : ℕ) (w : World) → IsValid w → i < length w.waiting → Succeeds (step (expires i) w)
expires-Succeeds i w v inside =
    let (item, found) = get_elem?-lt w.waiting i inside in
    let known = All-get_elem? (IsKnown w.tracker) w.waiting i v.known found in
    rw (step_expires i w item found) (
      deliver-Succeeds w.tracker (remove_at w.waiting i)
        (collect_expire-Returns item w.tracker known v.sound)
        (All-remove_at (IsKnown w.tracker) w.waiting i v.known))

-- In a valid world every call that its callers may make returns, and the world stays valid: no call
-- meets a nil struct or a task that is not there.
pub step-Succeeds : (c : Call) (w : World) → IsValid w → IsEnabled w c → Succeeds (step c w)
unfolding step won_vote receive_proof
step-Succeeds (inits track) w v _ =
    deliver-Succeeds w.tracker w.waiting (init_task-Returns track w.tracker v.sound) v.known
step-Succeeds (schedules now sign) w v k =
    deliver-Succeeds w.tracker w.waiting (update_task-Returns now sign w.tracker k v.sound) v.known
step-Succeeds (submits now item) w v (j, e) =
    deliver-Succeeds w.tracker w.waiting (update_slot-Returns now item j w.tracker e v.sound)
      v.known
step-Succeeds (wins hash) w v _ =
    deliver-Succeeds w.tracker w.waiting
      (set_flag-Returns Track.won_vote (λ p. refl) hash w.tracker v.sound) v.known
step-Succeeds (proves hash) w v _ =
    deliver-Succeeds w.tracker w.waiting
      (set_flag-Returns Track.receive_proof (λ p. refl) hash w.tracker v.sound) v.known
step-Succeeds (commits item) w v h =
    deliver-Succeeds w.tracker w.waiting (commit-Returns item w.tracker h v.sound) v.known
step-Succeeds (expires i) w v inside = expires-Succeeds i w v inside

abbrev pub initial : World
unfolding new_tracker
initial = record { tracker = new_tracker; waiting = [] }

-- The worlds that calls from the start lead to, with all the messages sent on the way.
pub data Reach : World → List Sent → Type 0 where
  begin : Reach initial []
  call :
      {w w' : World} {sent new : List Sent} (c : Call)
      → Reach w sent
      → IsEnabled w c
      → step c w ≡ some (w', new)
      → Reach w' (sent ++ new)

nothing_pending : (h : SlotHash) (a : ℕ) → ¬ (lookup h initial.tracker.pending_commit_slot ≡ some a)
unfolding new_tracker
nothing_pending h a look = cc (lookup-nil {V = ℕ} h)

pub initial-IsValid : IsValid initial
unfolding new_tracker
initial-IsValid = record { sound = λ h a look. absurd (nothing_pending h a look); known = tt }

pub Reach-IsValid : {w : World} {sent : List Sent} → Reach w sent → IsValid w
Reach-IsValid begin = initial-IsValid
Reach-IsValid (call {w = w} {w' = w'} c r enabled e) =
    let (after, new, runs, valid) = step-Succeeds c w (Reach-IsValid r) enabled in
    let same : after ≡ w' = cc in subst IsValid same valid

-- The tracker never panics: in every world that is reached from the start by calls in any order, each
-- call that may be made next returns.
pub Reach-returns :
    {w : World} {sent : List Sent} → Reach w sent → (c : Call) → IsEnabled w c → step c w ≢ none
Reach-returns {w} r c enabled panics =
    let (after, new, runs, valid) = step-Succeeds c w (Reach-IsValid r) enabled in cc
