-- ===== src/Orchestrator/Pool.antt =====
-- The pool of containers (src/orchestrator/src/container_pool.rs), as the actions that its tasks
-- run one at a time. An action is what stands between two awaits: one section under the lock, or
-- one call of podman or of tokio. A task is the list of the actions it has left.
use Prim.Native.String.{String}
use himmelblau.Common.{
  ℕ, ◌+◌, ◌-◌, ◌^◌, ◌≡◌, Bool, true, false, ◌||◌, Option, none, some, is_some, List, [], ◌∷◌, ◌++◌,
  if◌then◌else◌, ltb, str_eq,
}
use himmelblau.Orchestrator.{ContainerInstance}
mod Weights
mod Conserved
mod Sound
mod Shutdown
mod Tests

pub record ContainerPoolState : Type 0 where
  pub spare : Option ContainerInstance
  pub replenish_in_progress : Bool
  pub next_warm_id : ℕ
  pub shutting_down : Bool

-- `ContainerPool::new`.
abbrev pub new : ContainerPoolState
new = record {
  spare = none;
  replenish_in_progress = false;
  next_warm_id = 0;
  shutting_down = false;
}

-- `saturating_add` on u64.
abbrev pub saturating_add : ℕ → ℕ → ℕ
saturating_add a b = if ltb (a + b) (2 ^ 64) then a + b else 2 ^ 64 - 1

-- tokio's `Notify`. What the pool relies on is that a permit that was given can be taken.
pub record Notify (P : Type 0) : Type 0 where
  pub notify_one : P → P
  pub notified : P → Option P
  pub permit_kept : (p : P) → (q : P) × (notified (notify_one p) ≡ some q)

-- What the outside answers to an action: to a ping, to a request for a container, and to a wait
-- for the shutdown signal or the next tick.
pub record Answer : Type 0 where
  pub ping_container : Bool
  pub create_session_container : Option ContainerInstance
  pub shutdown_rx : Bool

pub data Action : Type 0 where
  acquire_container : String → Action
  ping_spare : String → ContainerInstance → Action
  hand_over : ContainerInstance → Action
  create : String → Action
  destroy : ContainerInstance → Action
  maintain : Action
  check_or_replenish_spare : Action
  ping_checked : ContainerInstance → Action
  take_stale : ContainerInstance → Action
  ensure_spare : Action
  replenish_spare : ℕ → Action
  finish_replenish : Option ContainerInstance → Action
  notify : Action
  shutdown : Action
  wait_replenish : Action
  notified : Action
  take_late : Action

abbrev pub Task : Type 0
Task = List Action

-- The pool, the permits of its `Notify`, and what happened to containers so far: those that podman
-- created, those a caller got, and those that podman was told to destroy.
pub record World (P : Type 0) : Type 0 where
  pub state : ContainerPoolState
  pub permits : P
  pub created : List ContainerInstance
  pub handed : List ContainerInstance
  pub destroyed : List ContainerInstance

-- What an action leaves: the world, what its task does next, and the tasks it spawned.
pub record Outcome (P : Type 0) : Type 0 where
  pub world : World P
  pub next : Task
  pub spawned : List Task

abbrev pub destroy_all : Option ContainerInstance → Task
destroy_all none = []
destroy_all (some c) = destroy c ∷ []

-- The test of `check_or_replenish_spare` that the spare is still the container it pinged.
abbrev pub same_id : Option ContainerInstance → ContainerInstance → Bool
same_id none c = false
same_id (some spare) c = str_eq spare.id c.id

abbrev pub acquire_start : String → Option ContainerInstance → Task
acquire_start session_id none = ensure_spare ∷ create session_id ∷ []
acquire_start session_id (some c) = ping_spare session_id c ∷ []

abbrev pub after_create : Option ContainerInstance → Task
after_create none = []
after_create (some c) = hand_over c ∷ []

abbrev pub check_start : Option ContainerInstance → Task
check_start none = ensure_spare ∷ []
check_start (some c) = ping_checked c ∷ []

module _ {P : Type 0} where
  abbrev pub set_state : World P → ContainerPoolState → World P
  set_state w s = record w { state = s }

  abbrev pub continue : World P → Task → Outcome P
  continue w next = record { world = w; next = next; spawned = [] }

  abbrev pub add_created : World P → Option ContainerInstance → World P
  add_created w none = w
  add_created w (some c) = record w { created = c ∷ w.created }

  -- `state.spare.take()`.
  abbrev pub take_spare : World P → World P
  take_spare w = set_state w (record w.state { spare = none })

  -- The section of `ensure_spare`, which spawns the task that creates a spare.
  abbrev pub ensure : World P → Outcome P
  ensure w =
      let s = w.state in
      let warm_id = saturating_add s.next_warm_id 1 in
      if s.shutting_down || is_some s.spare || s.replenish_in_progress
      then continue w []
      else record {
        world = set_state w (record s { replenish_in_progress = true; next_warm_id = warm_id });
        next = [];
        spawned = (replenish_spare warm_id ∷ []) ∷ [];
      }

  -- The section of `replenish_spare`.
  abbrev pub replenished : World P → Option ContainerInstance → Outcome P
  replenished w none =
      continue (set_state w (record w.state { replenish_in_progress = false })) (notify ∷ [])
  replenished w (some c) =
      let s = record w.state { replenish_in_progress = false } in
      if s.shutting_down || is_some s.spare
      then continue (set_state w s) (notify ∷ destroy c ∷ [])
      else continue (set_state w (record s { spare = some c })) (notify ∷ [])

  abbrev pub wait : World P → Option P → Outcome P
  wait w none = continue w (notified ∷ [])
  wait w (some q) = continue (record w { permits = q }) (wait_replenish ∷ [])

  unfoldable pub run_action : Notify P → Answer → Action → World P → Outcome P
  run_action N ans (acquire_container session_id) w =
      continue (take_spare w) (acquire_start session_id w.state.spare)
  run_action N ans (ping_spare session_id c) w =
      if ans.ping_container
      then continue w (ensure_spare ∷ hand_over c ∷ [])
      else continue w (destroy c ∷ ensure_spare ∷ create session_id ∷ [])
  run_action N ans (hand_over c) w = continue (record w { handed = c ∷ w.handed }) []
  run_action N ans (create session_id) w =
      continue (add_created w ans.create_session_container)
        (after_create ans.create_session_container)
  run_action N ans (destroy c) w = continue (record w { destroyed = c ∷ w.destroyed }) []
  run_action N ans maintain w =
      if ans.shutdown_rx
      then continue w (shutdown ∷ [])
      else continue w (check_or_replenish_spare ∷ maintain ∷ [])
  run_action N ans check_or_replenish_spare w = continue w (check_start w.state.spare)
  run_action N ans (ping_checked c) w =
      if ans.ping_container then continue w [] else continue w (take_stale c ∷ [])
  run_action N ans (take_stale c) w =
      if same_id w.state.spare c
      then continue (take_spare w) (destroy_all w.state.spare ++ (ensure_spare ∷ []))
      else continue w (ensure_spare ∷ [])
  run_action N ans ensure_spare w = ensure w
  run_action N ans (replenish_spare warm_id) w =
      continue (add_created w ans.create_session_container)
        (finish_replenish ans.create_session_container ∷ [])
  run_action N ans (finish_replenish result) w = replenished w result
  run_action N ans notify w = continue (record w { permits = N.notify_one w.permits }) []
  run_action N ans shutdown w =
      continue (set_state w (record w.state { shutting_down = true; spare = none }))
        (destroy_all w.state.spare ++ (wait_replenish ∷ []))
  run_action N ans wait_replenish w =
      if w.state.replenish_in_progress
      then continue w (notified ∷ [])
      else continue w (take_late ∷ [])
  run_action N ans notified w = wait w (N.notified w.permits)
  run_action N ans take_late w = continue (take_spare w) (destroy_all w.state.spare)

-- The tasks of the pool, with the world they share.
pub record Pool (P : Type 0) : Type 0 where
  pub world : World P
  pub tasks : List Task

-- The pool as it starts, with the task that maintains it.
abbrev pub started : {P : Type 0} → P → Pool P
started permits = record {
  world = record { state = new; permits = permits; created = []; handed = []; destroyed = [] };
  tasks = (ensure_spare ∷ maintain ∷ []) ∷ [];
}

module _ {P : Type 0} (N : Notify P) where
  -- A session asks for a container, or some task runs its next action.
  pub data Step (p : Pool P) (q : Pool P) : Type 0 where
    call :
        (session_id : String)
        → q ≡ record p { tasks = (acquire_container session_id ∷ []) ∷ p.tasks }
        → Step p q
    run :
        (ans : Answer) (before after : List Task) (a : Action) (rest : Task)
        → p.tasks ≡ before ++ ((a ∷ rest) ∷ after)
        → q ≡ (
            let o = run_action N ans a p.world in
            record { world = o.world; tasks = before ++ ((o.next ++ rest) ∷ after) ++ o.spawned })
        → Step p q

  pub data Reach (s : Pool P) : Pool P → Type 0 where
    here : Reach s s
    next : {t u : Pool P} → Reach s t → Step t u → Reach s u
