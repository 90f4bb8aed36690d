-- ===== src/Examples/Expiring.antt =====
-- The eliminator.
use mathlib.Core.List.{Perm}
use rappa_master.Base.{ℕ, ◌≤◌, ◌≡◌, Option, some, List, [], ◌∷◌, ◌++◌, arith, All}
use rappa_master.Tracker.{ExpireItem, task_at, slot_at}
use rappa_master.Eliminator.{expire_time, is_expire, push, turn, run}
use rappa_master.Eliminator.Delivery.{received, InOrder, idle, run-Perm, run_drained}

abbrev turns : List (ℕ × Option ExpireItem)
turns = (0, some (task_at 5 "task")) ∷ (1, some (slot_at 3 "slot" 0)) ∷ []

run-Perm_example :
    Perm ((run turns []).1 ++ (run turns []).0) (received turns ++ [])
    × All (λ i. expire_time i ≤ 1) (run turns []).1
run-Perm_example = run-Perm turns [] 1 (omega arith, (omega arith, tt))

run_drained_example :
    (run (idle (9 ∷ 9 ∷ [])) (slot_at 3 "slot" 0 ∷ task_at 5 "task" ∷ [])
      ≡ ([], slot_at 3 "slot" 0 ∷ task_at 5 "task" ∷ []))
    × InOrder (slot_at 3 "slot" 0 ∷ task_at 5 "task" ∷ [])
unfolding run turn push is_expire expire_time
run_drained_example =
    run_drained turns (9 ∷ 9 ∷ []) (omega arith)
      ((omega arith, (omega arith, tt)), ((omega arith, (omega arith, tt)), tt))
