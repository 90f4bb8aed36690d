-- ===== src/Eliminator/Delivery.antt =====
-- What an eliminator gives out, and when.
use mathlib.Core.List.{Perm, perm_middle, perm_append_comm}
use mathlib.Core.List.Perm
use rappa_master.Base.{
  ℕ, ◌≤◌, ◌≡◌, refl, ap, inl, inr, true, Option, none, some, List, [], ◌∷◌, ◌++◌, append_assoc,
  arith, length, All, All-map, All-append, leb, Bool-cases,
}
use rappa_master.Tracker.{ExpireItem}
use rappa_master.Eliminator.{ExpireHeap, expire_time, is_expire, push, push_new, turn, run}

abbrev pub given : Option ExpireItem → List ExpireItem
given none = []
given (some item) = item ∷ []

-- The items that the rounds take in.
abbrev pub received : List (ℕ × Option ExpireItem) → List ExpireItem
received [] = []
received ((_, input) ∷ turns) = given input ++ received turns

push-Perm : (item : ExpireItem) (heap : ExpireHeap) → Perm (push item heap) (item ∷ heap)
unfolding push
push-Perm item [] = Perm.refl (item ∷ [])
push-Perm item (x ∷ heap) = elim (Bool-cases (leb (expire_time x) (expire_time item))) [
  | inl early ↦ rw early (Perm.trans (Perm.cons x (push-Perm item heap)) (Perm.swap item x heap))
  | inr late ↦ rw late (Perm.refl (item ∷ x ∷ heap))
]

push_new-Perm :
    (input : Option ExpireItem) (heap : ExpireHeap)
    → Perm (push_new input heap) (given input ++ heap)
push_new-Perm none heap = Perm.refl heap
push_new-Perm (some item) heap = push-Perm item heap

turn-Perm :
    (now : ℕ) (input : Option ExpireItem) (heap : ExpireHeap)
    → let (heap', sent) = turn now input heap in Perm (sent ++ heap') (given input ++ heap)
unfolding turn
turn-Perm now input [] = push_new-Perm input []
turn-Perm now input (item ∷ heap) = elim (Bool-cases (is_expire now item)) [
  | inl due ↦ rw due (
      Perm.trans (Perm.cons item (push_new-Perm input heap))
        (Perm.symm (perm_middle (given input) heap)))
  | inr early ↦ rw early (
      Perm.trans (push_new-Perm input (push item heap))
        (Perm.append_left (given input) (push-Perm item heap)))
]

-- What holds of all items in the heap and of the new one holds of all that a round leaves and sends.
push-All {κ} :
    (P : ExpireItem → Type κ) (item : ExpireItem) (heap : ExpireHeap)
    → P item
    → All P heap
    → All P (push item heap)
unfolding push
push-All P item [] h hs = (h, tt)
push-All P item (x ∷ heap) h (k, hs) = elim (Bool-cases (leb (expire_time x) (expire_time item))) [
  | inl early ↦ rw early (k, push-All P item heap h hs)
  | inr late ↦ rw late (h, (k, hs))
]

turn-due :
    (now : ℕ) (input : Option ExpireItem) (heap : ExpireHeap)
    → All (λ i. expire_time i ≤ now) (turn now input heap).1
unfolding turn is_expire
turn-due now input [] = tt
turn-due now input (item ∷ heap) = elim (Bool-cases (is_expire now item)) [
  | inl due ↦ rw due (ground arith, tt)
  | inr early ↦ rw early tt
]

Perm-shuffle {ℓ} :
    {A : Type ℓ} (s m h g r h0 h1 : List A)
    → Perm (m ++ h) (r ++ h1)
    → Perm (s ++ h1) (g ++ h0)
    → Perm ((s ++ m) ++ h) ((g ++ r) ++ h0)
Perm-shuffle s m h g r h0 h1 p q =
    let a : Perm ((s ++ m) ++ h) ((s ++ r) ++ h1) =
      rw (append_assoc s m h, append_assoc s r h1) (Perm.append_left s p) in
    let b : Perm ((s ++ r) ++ h1) ((r ++ s) ++ h1) = Perm.append_right h1 (perm_append_comm s r) in
    let c : Perm ((r ++ s) ++ h1) ((r ++ g) ++ h0) =
      rw (append_assoc r s h1, append_assoc r g h0) (Perm.append_left r q) in
    let d : Perm ((r ++ g) ++ h0) ((g ++ r) ++ h0) = Perm.append_right h0 (perm_append_comm r g) in
    Perm.trans a (Perm.trans b (Perm.trans c d))

-- In any rounds up to a time, nothing is lost or made up: what was sent and what is left are the
-- items of the heap and those taken in; and nothing is sent that expires after that time.
pub run-Perm :
    (turns : List (ℕ × Option ExpireItem)) (heap : ExpireHeap) (until : ℕ)
    → All (λ t. t.0 ≤ until) turns
    → let (heap', sent) = run turns heap in
      Perm (sent ++ heap') (received turns ++ heap) × All (λ i. expire_time i ≤ until) sent
unfolding run
run-Perm [] heap until h = (Perm.refl heap, tt)
run-Perm ((now, input) ∷ turns) heap until (early, h) =
    let heap1 = (turn now input heap).0 in
    let sent = (turn now input heap).1 in
    let heap2 = (run turns heap1).0 in
    let more = (run turns heap1).1 in
    let (same, due) = run-Perm turns heap1 until h in
    let first = turn-Perm now input heap in
    (
      Perm-shuffle sent more heap2 (given input) (received turns) heap heap1 same first,
      All-append (λ i. expire_time i ≤ until) sent more
          (All-map (λ i k. omega (arith, k, early)) sent (turn-due now input heap)) due,
    )

-- The items in order of time.
abbrev pub InOrder : ExpireHeap → Type 0
InOrder [] = Unit
InOrder (x ∷ heap) = All (λ y. expire_time x ≤ expire_time y) heap × InOrder heap

push-InOrder : (item : ExpireItem) (heap : ExpireHeap) → InOrder heap → InOrder (push item heap)
unfolding push
push-InOrder item [] o = (tt, tt)
push-InOrder item (x ∷ heap) (h, o) = elim (Bool-cases (leb (expire_time x) (expire_time item))) [
  | inl early ↦ rw early (
    push-All (λ y. expire_time x ≤ expire_time y) item heap (ground arith) h,
    push-InOrder item heap o,
  )
  | inr late ↦
      let le : expire_time item ≤ expire_time x = ground arith in
      let below =
        All-map {P = λ y. expire_time x ≤ expire_time y} {Q = λ y. expire_time item ≤ expire_time y}
          (λ y k. omega (arith, k, le)) heap h in
      rw late ((le, below), (h, o))
]

push_new-InOrder :
    (input : Option ExpireItem) (heap : ExpireHeap) → InOrder heap → InOrder (push_new input heap)
push_new-InOrder none heap o = o
push_new-InOrder (some item) heap o = push-InOrder item heap o

turn-InOrder :
    (now : ℕ) (input : Option ExpireItem) (heap : ExpireHeap)
    → InOrder heap
    → InOrder (turn now input heap).0
unfolding turn
turn-InOrder now input [] o = push_new-InOrder input [] tt
turn-InOrder now input (item ∷ heap) (h, o) = elim (Bool-cases (is_expire now item)) [
  | inl due ↦ rw due (push_new-InOrder input heap o)
  | inr early ↦ rw early (push_new-InOrder input (push item heap) (push-InOrder item heap o))
]

run-InOrder :
    (turns : List (ℕ × Option ExpireItem)) (heap : ExpireHeap)
    → InOrder heap
    → InOrder (run turns heap).0
unfolding run
run-InOrder [] heap o = o
run-InOrder ((now, input) ∷ turns) heap o =
    run-InOrder turns (turn now input heap).0 (turn-InOrder now input heap o)

-- Rounds that take nothing in.
abbrev pub idle : List ℕ → List (ℕ × Option ExpireItem)
idle [] = []
idle (now ∷ nows) = (now, none) ∷ idle nows

drain :
    (nows : List ℕ) (heap : ExpireHeap)
    → length heap ≤ length nows
    → All (λ now. All (λ i. expire_time i ≤ now) heap) nows
    → run (idle nows) heap ≡ ([], heap)
unfolding run turn is_expire
drain [] [] few late = refl
drain [] (x ∷ heap) few late = absurd (omega arith)
drain (now ∷ nows) [] few late = drain nows [] (omega arith) late.1
drain (now ∷ nows) (x ∷ heap) few (h, late) =
    let due : is_expire now x ≡ true = ground arith in
    let rest = drain nows heap (omega (arith, few)) (
      All-map {P = λ n. All (λ i. expire_time i ≤ n) (x ∷ heap)}
        {Q = λ n. All (λ i. expire_time i ≤ n) heap} (λ n k. k.1) nows late) in
    rw due (ap (λ p. (p.0, x ∷ p.1)) rest)

-- Whatever an eliminator took in before, from the empty heap: rounds that take nothing in, as many as
-- the heap has items and at times when all of these have expired, give out the whole heap, in order
-- of time.
pub run_drained :
    (turns : List (ℕ × Option ExpireItem)) (nows : List ℕ)
    → length (run turns []).0 ≤ length nows
    → All (λ now. All (λ i. expire_time i ≤ now) (run turns []).0) nows
    → let heap = (run turns []).0 in (run (idle nows) heap ≡ ([], heap)) × InOrder heap
run_drained turns nows few late = (drain nows (run turns []).0 few late, run-InOrder turns [] tt)
