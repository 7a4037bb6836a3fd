-- ===== src/Orchestrator/Pool/Weights.antt =====
-- What a pool's tasks weigh, by a weight of their actions, and how a step changes it: to count the
-- containers that tasks hold and the tasks that create one.
use himmelblau.Common.{
  ℕ, ◌+◌, ◌≤◌, ◌≡◌, Option, none, some, List, ◌∷◌, ◌++◌, arith, sum_by, sum_by-append,
}
use himmelblau.Orchestrator.{ContainerInstance}
use himmelblau.Orchestrator.Pool.{
  Action, Task, ping_spare, hand_over, destroy, maintain, replenish_spare, finish_replenish, notify,
  shutdown, wait_replenish, notified, take_late,
}

abbrev pub total : (Action → ℕ) → List Task → ℕ
total f = sum_by (sum_by f)

-- A task among `ts` runs the action `a`, goes on with `todo`, and spawned `spawned`.
module _ (ts before after : List Task) (a : Action) (rest : Task)
    (at : ts ≡ before ++ ((a ∷ rest) ∷ after)) (f : Action → ℕ) where
  split : total f ts ≡ total f before + (f a + sum_by f rest) + total f after
  split = rw at omega (arith, sum_by-append (sum_by f) before ((a ∷ rest) ∷ after))

  pub total-le : f a ≤ total f ts
  total-le = omega (arith, split)

  pub total-run :
      (todo : Task) (spawned : List Task)
      → total f (before ++ ((todo ++ rest) ∷ after) ++ spawned) + f a
        ≡ total f ts + sum_by f todo + total f spawned
  total-run todo spawned = omega (
    arith,
    split,
    sum_by-append (sum_by f) (before ++ ((todo ++ rest) ∷ after)) spawned,
    sum_by-append (sum_by f) before ((todo ++ rest) ∷ after),
    sum_by-append f todo rest,
  )

-- The weight of the container that an action carries.
abbrev pub opt : (ContainerInstance → ℕ) → Option ContainerInstance → ℕ
opt g none = 0
opt g (some c) = g c

abbrev pub held : (ContainerInstance → ℕ) → Action → ℕ
held g (ping_spare session_id c) = g c
held g (hand_over c) = g c
held g (destroy c) = g c
held g (finish_replenish result) = opt g result
held g _ = 0

-- The tasks that create a spare, up to the section in which they leave it.
abbrev pub replenishing : Action → ℕ
replenishing (replenish_spare warm_id) = 1
replenishing (finish_replenish result) = 1
replenishing _ = 0

-- The wait for such a task.
abbrev pub waiting : Action → ℕ
waiting notified = 1
waiting _ = 0

abbrev pub notifying : Action → ℕ
notifying notify = 1
notifying _ = 0

-- The part of `shutdown` that reads the flag.
abbrev pub polling : Action → ℕ
polling wait_replenish = 1
polling _ = 0

-- The last part of `shutdown`.
abbrev pub late : Action → ℕ
late take_late = 1
late _ = 0

-- `run_maintenance`, before that.
abbrev pub opening : Action → ℕ
opening maintain = 1
opening shutdown = 1
opening _ = 0
