-- ===== src/Orchestrator/Pool/Conserved.antt =====
-- No container of the pool is lost, and none is in two places.
use himmelblau.Common.{ℕ, ◌+◌, ◌≡◌, refl, none, some, arith, sum_by, Option-cases}
use himmelblau.Orchestrator.{ContainerInstance}
use himmelblau.Orchestrator.Pool.{
  Action, World, Outcome, Pool, Answer, Notify, run_action, acquire_container, ping_spare,
  hand_over, create, destroy, maintain, check_or_replenish_spare, ping_checked, take_stale,
  ensure_spare, replenish_spare, finish_replenish, notify, shutdown, wait_replenish, notified,
  take_late, started, Step, call, run, Reach, here, next,
}
use himmelblau.Orchestrator.Pool.Weights.{total, total-run, opt, held}

module _ {P : Type 0} (N : Notify P) (g : ContainerInstance → ℕ) where
  -- What the world holds and the outside was given, by the weights `g`.
  abbrev placed : World P → ℕ
  placed w = opt g w.state.spare + sum_by g w.handed + sum_by g w.destroyed

  -- What an action creates, it places or passes on.
  abbrev Conserves : Action → World P → Outcome P → Type 0
  Conserves a w o =
      sum_by g o.world.created + placed w + held g a
      ≡ sum_by g w.created + placed o.world + sum_by (held g) o.next + total (held g) o.spawned

  run_action-Conserves :
      (ans : Answer) (a : Action) (w : World P) → Conserves a w (run_action N ans a w)
  unfolding run_action
  run_action-Conserves ans (acquire_container session_id) w =
      ground (arith, Option-cases w.state.spare)
  run_action-Conserves ans (ping_spare session_id c) w = ground arith
  run_action-Conserves ans (hand_over c) w = ground arith
  run_action-Conserves ans (create session_id) w =
      ground (arith, Option-cases ans.create_session_container)
  run_action-Conserves ans (destroy c) w = ground arith
  run_action-Conserves ans maintain w = ground arith
  run_action-Conserves ans check_or_replenish_spare w = ground (arith, Option-cases w.state.spare)
  run_action-Conserves ans (ping_checked c) w = ground arith
  run_action-Conserves ans (take_stale c) w = ground (arith, Option-cases w.state.spare)
  run_action-Conserves ans ensure_spare w = ground arith
  run_action-Conserves ans (replenish_spare warm_id) w =
      ground (arith, Option-cases ans.create_session_container)
  run_action-Conserves ans (finish_replenish none) w = ground arith
  run_action-Conserves ans (finish_replenish (some c)) w = ground arith
  run_action-Conserves ans notify w = ground arith
  run_action-Conserves ans shutdown w = ground (arith, Option-cases w.state.spare)
  run_action-Conserves ans wait_replenish w = ground arith
  run_action-Conserves ans notified w = ground (arith, Option-cases (N.notified w.permits))
  run_action-Conserves ans take_late w = ground (arith, Option-cases w.state.spare)

  abbrev pub Conserved : Pool P → Type 0
  Conserved p = sum_by g p.world.created ≡ placed p.world + total (held g) p.tasks

  Step-Conserved : {p q : Pool P} → Step N p q → Conserved p → Conserved q
  Step-Conserved {p} {q} (call session_id e) h = rw e omega (arith, h)
  Step-Conserved {p} {q} (run ans before after a rest at e) h =
      let o = run_action N ans a p.world in
      rw e omega (
        arith,
        h,
        run_action-Conserves ans a p.world,
        total-run p.tasks before after a rest at (held g) o.next o.spawned,
      )

  Reach-keeps : {p q : Pool P} → Reach N p q → Conserved p → Conserved q
  Reach-keeps here h = h
  Reach-keeps (next r s) h = Step-Conserved s (Reach-keeps r h)

-- Whatever tasks ran and however podman answered: each container that podman created is the spare,
-- in the hands of one task, with a caller, or given to podman to be destroyed, and it is in one of
-- these places only. It is said of every way to weigh containers.
pub Reach-Conserved :
    {P : Type 0} (N : Notify P) (g : ContainerInstance → ℕ) (permits : P) (p : Pool P)
    → Reach N (started permits) p
    → Conserved N g p
Reach-Conserved N g permits p r = Reach-keeps N g r refl
