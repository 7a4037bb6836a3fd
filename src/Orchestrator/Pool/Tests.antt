-- ===== src/Orchestrator/Pool/Tests.antt =====
-- Runs of the pool, and the theorems on them.
use himmelblau.Common.{
  ◌+◌, ◌<◌, ◌≡◌, ◌⊎◌, refl, Bool, true, false, none, some, List, [], ◌∷◌, ◌++◌, if◌then◌else◌,
  arith,
}
use himmelblau.Orchestrator.{ContainerInstance}
use himmelblau.Orchestrator.Pool.{
  Action, Task, Pool, Answer, Notify, run_action, maintain, ensure_spare, replenish_spare,
  finish_replenish, notify, shutdown, wait_replenish, notified, take_late, destroy, started, run,
  Reach, here, next,
}
use himmelblau.Orchestrator.Pool.Weights.{total, replenishing, notifying}
use himmelblau.Orchestrator.Pool.Conserved.{Conserved, Reach-Conserved}
use himmelblau.Orchestrator.Pool.Shutdown.{Drained, shutdown-Drained, wait-woken}

-- A `Notify` that is one permit, as tokio's is.
abbrev permit : Notify Bool
permit = record {
  notify_one = λ p. true;
  notified = λ p. if p then some false else none;
  permit_kept = λ p. (false, refl);
}

abbrev warm : ContainerInstance
warm = record { id = "c1"; name = "himmelblau-warm-1" }

abbrev yes : Answer
yes = record { ping_container = true; create_session_container = some warm; shutdown_rx = true }

abbrev begun : Pool Bool
begun = started false

-- The pool after the action `a` of the task between `before` and `after`.
module _ {p : Pool Bool} (r : Reach permit begun p) where
  turn :
      (before after : List Task) (a : Action) (rest : Task)
      → p.tasks ≡ before ++ ((a ∷ rest) ∷ after)
      → Reach permit begun (
          let o = run_action permit yes a p.world in
          record { world = o.world; tasks = before ++ ((o.next ++ rest) ∷ after) ++ o.spawned })
  turn before after a rest at = next r (run yes before after a rest at refl)

-- The pool while the shutdown waits for the task that creates a spare.
abbrev waits : Pool Bool
waits = record {
  world = record {
    state = record {
      spare = none;
      replenish_in_progress = true;
      next_warm_id = 1;
      shutting_down = true;
    };
    permits = false;
    created = warm ∷ [];
    handed = [];
    destroyed = [];
  };
  tasks = (notified ∷ []) ∷ (finish_replenish (some warm) ∷ []) ∷ [];
}

Reach-waits : Reach permit begun waits
unfolding run_action
Reach-waits =
    let spawned = turn here [] [] ensure_spare (maintain ∷ []) refl in
    let created = turn spawned ((maintain ∷ []) ∷ []) [] (replenish_spare 1) [] refl in
    let creating = (finish_replenish (some warm) ∷ []) ∷ [] in
    let stopped = turn created [] creating maintain [] refl in
    let begun_shutdown = turn stopped [] creating shutdown [] refl in
    turn begun_shutdown [] creating wait_replenish [] refl

-- The pool when the shutdown is about to end.
abbrev ends : Pool Bool
ends = record waits {
  world = record waits.world { state = record waits.world.state { replenish_in_progress = false } };
  tasks = (take_late ∷ []) ∷ (destroy warm ∷ []) ∷ [];
}

waits-ends : Reach permit begun ends
unfolding run_action
waits-ends =
    let finished =
      turn Reach-waits ((notified ∷ []) ∷ []) [] (finish_replenish (some warm)) [] refl in
    let told = turn finished ((notified ∷ []) ∷ []) [] notify (destroy warm ∷ []) refl in
    let woken = turn told [] ((destroy warm ∷ []) ∷ []) notified [] refl in
    turn woken [] ((destroy warm ∷ []) ∷ []) wait_replenish [] refl

-- The shutdown ends while a container is still to be destroyed, by a task that nothing waits for.
ends_early : Reach permit begun (record ends { tasks = [] ∷ (destroy warm ∷ []) ∷ [] })
unfolding run_action
ends_early = turn waits-ends [] ((destroy warm ∷ []) ∷ []) take_late [] refl

Reach-Conserved_example : Conserved permit (λ c. 1) waits
Reach-Conserved_example = Reach-Conserved permit (λ c. 1) false waits Reach-waits

shutdown-Drained_example : Drained permit ends × (total replenishing ends.tasks ≡ 0)
shutdown-Drained_example = shutdown-Drained permit false ends ends waits-ends (omega arith) here

wait-woken_example :
    (0 < total replenishing waits.tasks + total notifying waits.tasks)
    ⊎ ((q : Bool) × (permit.notified waits.world.permits ≡ some q))
wait-woken_example = wait-woken permit false waits Reach-waits (omega arith)
