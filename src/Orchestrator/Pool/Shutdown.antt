-- ===== src/Orchestrator/Pool/Shutdown.antt =====
-- What the shutdown of the pool leaves, and that it waits for no notification in vain
-- (src/orchestrator/src/container_pool.rs).
use himmelblau.Common.{◌+◌, ◌≡◌, true, false, none, some, arith, Option-cases, inl, inr, ◌<◌, ◌⊎◌}
use himmelblau.Orchestrator.Pool.{
  Action, World, Pool, Answer, Notify, run_action, acquire_container, ping_spare, hand_over, create,
  destroy, maintain, check_or_replenish_spare, ping_checked, take_stale, ensure_spare,
  replenish_spare, finish_replenish, notify, shutdown, wait_replenish, notified, take_late, started,
  Step, call, run, Reach, here, next,
}
use himmelblau.Orchestrator.Pool.Weights.{total, replenishing, waiting, notifying, late}
use himmelblau.Orchestrator.Pool.Sound.{bit, SoundPool, Reach-Sound, Reach-trans}

module _ {P : Type 0} (N : Notify P) where
  -- Nothing of the pool's is left but what tasks that run already hold.
  abbrev pub Drained : Pool P → Type 0
  Drained p =
      (p.world.state.shutting_down ≡ true)
      × (p.world.state.spare ≡ none)
      × (p.world.state.replenish_in_progress ≡ false)

  abbrev DrainedState : World P → Type 0
  DrainedState w =
      (w.state.shutting_down ≡ true)
      × (w.state.spare ≡ none)
      × (w.state.replenish_in_progress ≡ false)

  run_action-Drained :
      (ans : Answer) (a : Action) (w : World P)
      → DrainedState w
      → DrainedState (run_action N ans a w).world
  unfolding run_action
  run_action-Drained ans (acquire_container session_id) w d = ground arith
  run_action-Drained ans (ping_spare session_id x) w d = ground arith
  run_action-Drained ans (hand_over x) w d = ground arith
  run_action-Drained ans (create session_id) w d =
      ground (arith, Option-cases ans.create_session_container)
  run_action-Drained ans (destroy x) w d = ground arith
  run_action-Drained ans maintain w d = ground arith
  run_action-Drained ans check_or_replenish_spare w d = ground arith
  run_action-Drained ans (ping_checked x) w d = ground arith
  run_action-Drained ans (take_stale x) w d = ground arith
  run_action-Drained ans ensure_spare w d = ground arith
  run_action-Drained ans (replenish_spare warm_id) w d =
      ground (arith, Option-cases ans.create_session_container)
  run_action-Drained ans (finish_replenish none) w d = ground arith
  run_action-Drained ans (finish_replenish (some x)) w d = ground arith
  run_action-Drained ans notify w d = ground arith
  run_action-Drained ans shutdown w d = ground arith
  run_action-Drained ans wait_replenish w d = ground arith
  run_action-Drained ans notified w d = ground (arith, Option-cases (N.notified w.permits))
  run_action-Drained ans take_late w d = ground arith

  Step-Drained : {p q : Pool P} → Step N p q → Drained p → Drained q
  Step-Drained {p} {q} (call session_id e) d = rw e d
  Step-Drained {p} {q} (run ans before after a rest at e) d =
      rw e (run_action-Drained ans a p.world d)

  Reach-stays : {p q : Pool P} → Reach N p q → Drained p → Drained q
  Reach-stays here d = d
  Reach-stays (next r s) d = Step-Drained s (Reach-stays r d)

  Sound-Drained : (p : Pool P) → SoundPool N p → 0 < total late p.tasks → Drained p
  Sound-Drained p s l = ground arith

-- However the tasks interleave, the tasks that create a spare are as many as the flag
-- `replenish_in_progress` says: one or none.
pub Reach-one :
    {P : Type 0} (N : Notify P) (permits : P) (p : Pool P)
    → Reach N (started permits) p
    → total replenishing p.tasks ≡ bit p.world.state.replenish_in_progress
Reach-one N permits p r = (Reach-Sound N permits p r).0

-- From the last part of the shutdown on, whatever happens, the pool has no spare and no task that
-- creates one, and never gets one again.
pub shutdown-Drained :
    {P : Type 0} (N : Notify P) (permits : P) (p q : Pool P)
    → Reach N (started permits) p
    → 0 < total late p.tasks
    → Reach N p q
    → Drained N q × (total replenishing q.tasks ≡ 0)
shutdown-Drained N permits p q r l later =
    let d = Reach-stays N later (Sound-Drained N p (Reach-Sound N permits p r) l) in
    let s = Reach-Sound N permits q (Reach-trans N r later) in (d, ground arith)

-- While the shutdown waits, a task that will wake it is under way, or a permit to go on is there:
-- the wait misses no notification.
pub wait-woken :
    {P : Type 0} (N : Notify P) (permits : P) (p : Pool P)
    → Reach N (started permits) p
    → 0 < total waiting p.tasks
    → (0 < total replenishing p.tasks + total notifying p.tasks)
      ⊎ ((q : P) × (N.notified p.world.permits ≡ some q))
wait-woken N permits p r w =
    let s = Reach-Sound N permits p r in
    elim (Option-cases (N.notified p.world.permits)) [ inl e ↦ inl (ground arith) | inr e ↦ inr e ]
