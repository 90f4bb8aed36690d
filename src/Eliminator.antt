-- ===== src/Eliminator.antt =====
-- Tracker/Eliminators.go and paradigm/expire.go: an eliminator takes expiry items in, and gives each
-- out when its time has come. The heap of container/heap is the list of its items in order of time:
-- Push puts an item in its place, Pop takes the first. Times are seconds.
pub mod Delivery
use rappa_master.Base.{
  ℕ, Bool, Option, none, some, List, [], ◌∷◌, ◌++◌, leb, ltb, not, if◌then◌else◌,
}
use rappa_master.Tracker.{ExpireItem, task_at, slot_at}

unfoldable pub expire_time : ExpireItem → ℕ
expire_time (task_at time _) = time
expire_time (slot_at time _ _) = time

-- !time.Now().Before(e.expireTime)
unfoldable pub is_expire : (now : ℕ) → ExpireItem → Bool
is_expire now item = not (ltb now (expire_time item))

abbrev pub ExpireHeap : Type 0
ExpireHeap = List ExpireItem

unfoldable pub push : ExpireItem → ExpireHeap → ExpireHeap
push item [] = item ∷ []
push item (x ∷ heap) =
    let rest = push item heap in
    if leb (expire_time x) (expire_time item) then x ∷ rest else item ∷ x ∷ heap

-- What a receive on the input channel finds.
abbrev pub push_new : Option ExpireItem → ExpireHeap → ExpireHeap
push_new none heap = heap
push_new (some item) heap = push item heap

-- One round of the loop of Start: the heap, and what is sent out.
unfoldable pub turn : (now : ℕ) → Option ExpireItem → ExpireHeap → ExpireHeap × List ExpireItem
turn now input [] = (push_new input [], [])
turn now input (item ∷ heap) =
    if is_expire now item
    then (push_new input heap, item ∷ [])
    else (push_new input (push item heap), [])

-- Rounds, each with its time and its input.
unfoldable pub run : List (ℕ × Option ExpireItem) → ExpireHeap → ExpireHeap × List ExpireItem
run [] heap = (heap, [])
run ((now, input) ∷ turns) heap =
    let (heap', sent) = turn now input heap in
    let (heap'', more) = run turns heap' in (heap'', sent ++ more)
