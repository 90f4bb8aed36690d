-- ===== src/Tracker/Sound.antt =====
-- The addresses that the tracker keeps lead to structs of the right slot.
use rappa_master.Base.Assoc.{contains, lookup, insert, lookup-insert}
use rappa_master.Base.{
  true, Option-cases, nat_beq, ℕ, ◌+◌, ◌<◌, All, ◌≤◌, ◌≡◌, refl, ◌∙◌, inl, inr, string_eq, true,
  Option, some, List, [], ◌∷◌, ◌++◌, arith, length, length-append, length-set, get_elem?, set,
  get_elem?-append, get_elem?-append_length, get_elem?-set_self, get_elem?-set_ne, Bool-cases, ◌==◌,
}
use native.Mathlib.Decide.{ℕ_discrete}
use text.Mathlib.TextEquality.{eq_iff}
use rappa_master.Paradigm.Model.{SlotHash, TaskHash}
use rappa_master.Paradigm.Commit.{SignedCommitSlotItem, JustifiedSlot, set_finalize}
use rappa_master.Paradigm.Track.{PendingCommitSlotTrack, new_pending_commit_slot_track, check}
use rappa_master.Tracker.{
  set_flag, task_at, slot_at, Tracker, Sent, unprocessed, commit_slot, expire, check_is_reliable,
  ExpireItem, update_slot, check_finalized, with_item,
}

abbrev pub Points : List PendingCommitSlotTrack → SlotHash → ℕ → Type 0
Points heap h a = (p : PendingCommitSlotTrack) × (get_elem? heap a ≡ some p) × (p.hash ≡ h)

-- Every address of the map is that of a struct with the key's hash.
abbrev pub IsSound : Tracker → Type 0
IsSound t = (h : SlotHash) (a : ℕ) → lookup h t.pending_commit_slot ≡ some a → Points t.heap h a

-- A write that keeps the hash keeps the pointers.
Points-set :
    (heap : List PendingCommitSlotTrack) (b : ℕ) (p q : PendingCommitSlotTrack)
    → get_elem? heap b ≡ some p
    → q.hash ≡ p.hash
    → (h : SlotHash) (a : ℕ) → Points heap h a
    → Points (set heap b q) h a
Points-set heap b p q e same h a (r, found, named) = elim (ℕ_discrete b a) [
  | yes here ↦
      let g : get_elem? heap b ≡ some r = rw here found in
      (q, rw (← here) (get_elem?-set_self heap b q e), ground arith)
  | no there ↦ (r, get_elem?-set_ne heap b a q there ∙ found, named)
]

-- An expiry item whose task or struct the tracker has.
abbrev pub IsKnown : Tracker → ExpireItem → Type 0
IsKnown t (task_at _ sign) = contains sign t.task_tracks ≡ true
IsKnown t (slot_at _ _ a) = a < length t.heap

abbrev pub IsKnownSent : Tracker → Sent → Type 0
IsKnownSent t (unprocessed _) = Unit
IsKnownSent t (commit_slot _) = Unit
IsKnownSent t (expire item) = IsKnown t item

-- A call that does not panic: it keeps the tracker sound, forgets no task and no struct, and sends
-- only expiry items that the tracker knows.
pub record Returns (t : Tracker) (r : Option (Tracker × List Sent)) : Type 0 where
  pub after : Tracker
  pub sent : List Sent
  pub runs : r ≡ some (after, sent)
  pub sound : IsSound after
  pub grows : length t.heap ≤ length after.heap
  pub keeps : (s : TaskHash) → contains s t.task_tracks ≡ true → contains s after.task_tracks ≡ true
  pub known : All (IsKnownSent after) sent

pub stays :
    (t : Tracker) {r : Option (Tracker × List Sent)} → r ≡ some (t, []) → IsSound t → Returns t r
stays t e s = record {
  after = t;
  sent = [];
  runs = e;
  sound = s;
  grows = omega arith;
  keeps = λ _ h. h;
  known = tt;
}

IsSound-extended :
    (p : PendingCommitSlotTrack) (t : Tracker)
    → IsSound t
    → IsSound (record t {
      pending_commit_slot = insert p.hash (length t.heap) t.pending_commit_slot;
      heap = t.heap ++ p ∷ [];
    })
IsSound-extended p t s h a look =
    let law = lookup-insert p.hash h (length t.heap) t.pending_commit_slot in
    elim (Bool-cases (p.hash == h)) [
      | inl same ↦
          let e : length t.heap ≡ a = ground arith in
          (p, rw (← e) (get_elem?-append_length t.heap p), (eq_iff p.hash h).0 same)
      | inr other ↦
          let (r, found, named) = s h a (ground arith) in
          (r, get_elem?-append t.heap (p ∷ []) a found, named)
    ]

pub update_slot-Returns :
    (now : ℕ) (item : SignedCommitSlotItem) (j : JustifiedSlot) (t : Tracker)
    → item.justified_slot ≡ some j
    → IsSound t
    → Returns t (update_slot now item t)
unfolding update_slot
update_slot-Returns now item j t e s =
    let p = new_pending_commit_slot_track item (check_is_reliable j.sign t) in
    record {
      after = record t {
        pending_commit_slot = insert item.hash (length t.heap) t.pending_commit_slot;
        heap = t.heap ++ p ∷ [];
      };
      sent = expire (slot_at (now + 60) item.hash (length t.heap)) ∷ [];
      runs = ground arith;
      sound = IsSound-extended p t s;
      grows = omega (arith, length-append t.heap (p ∷ []));
      keeps = λ _ h. h;
      known = (omega (arith, length-append t.heap (p ∷ [])), tt);
    }

-- What check_finalized does to a struct keeps its hash.
pub IsSound-written :
    (t : Tracker) (a : ℕ) (p q : PendingCommitSlotTrack)
    → get_elem? t.heap a ≡ some p
    → q.hash ≡ p.hash
    → IsSound t
    → IsSound (record t { heap = set t.heap a q })
IsSound-written t a p q e same s h b look = Points-set t.heap a p q e same h b (s h b look)

check_finalized-Returns :
    (t : Tracker) (a : ℕ) (p : PendingCommitSlotTrack)
    → get_elem? t.heap a ≡ some p
    → lookup p.hash t.pending_commit_slot ≡ some a
    → IsSound t
    → Returns t (check_finalized a p t)
unfolding check_finalized
check_finalized-Returns t a p e look s =
    let q = with_item set_finalize p in
    elim (Bool-cases (check p)) [
      | inl ready ↦ record {
        after = record t { heap = set t.heap a q };
        sent = commit_slot q.signed_item ∷ [];
        runs = ground arith;
        sound = IsSound-written t a p q e refl s;
        grows = omega (arith, length-set t.heap a q);
        keeps = λ _ h. h;
        known = (tt, tt);
      }
      | inr waiting ↦ stays t (ground arith) s
    ]

module _ (flag : PendingCommitSlotTrack → PendingCommitSlotTrack)
    (same : (p : PendingCommitSlotTrack) → (flag p).hash ≡ p.hash) where
  set_flag-known :
      (hash : SlotHash) (t : Tracker) (a : ℕ)
      → lookup hash t.pending_commit_slot ≡ some a
      → IsSound t
      → Returns t (set_flag flag hash t)
  unfolding set_flag
  set_flag-known hash t a look s =
      let (p, found, named) = s hash a look in
      let q = flag p in
      let u = record t { heap = set t.heap a q } in
      elim (Bool-cases (nat_beq p.is_finalized 1)) [
        | inl ended ↦ stays t (ground arith) s
        | inr open_slot ↦
            let at : lookup q.hash t.pending_commit_slot ≡ some a = rw (same p, named) look in
            let r =
              check_finalized-Returns u a q (get_elem?-set_self t.heap a q found) at
                (IsSound-written t a p q found (same p) s) in
            record {
              after = r.after;
              sent = r.sent;
              runs = ground (arith, r.runs);
              sound = r.sound;
              grows = omega (arith, r.grows, length-set t.heap a q);
              keeps = r.keeps;
              known = r.known;
            }
      ]

  pub set_flag-Returns :
      (hash : SlotHash) (t : Tracker) → IsSound t → Returns t (set_flag flag hash t)
  unfolding set_flag
  set_flag-Returns hash t s = elim (Option-cases (lookup hash t.pending_commit_slot)) [
    | inl missing ↦ stays t (ground arith) s
    | inr (a, look) ↦ set_flag-known hash t a look s
  ]
