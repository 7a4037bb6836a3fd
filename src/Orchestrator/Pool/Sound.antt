-- ===== src/Orchestrator/Pool/Sound.antt =====
-- What holds of a pool whatever its tasks did: one task at a time creates a spare, there is none
-- once the shutdown began, and no wait is forgotten.
use himmelblau.Common.{
  ℕ, ◌+◌, ◌≤◌, ◌≡◌, sym, subst, Bool, true, false, none, some, is_some, List, arith, sum_by,
  Option-cases,
}
use himmelblau.Orchestrator.Pool.{
  Action, Task, World, Pool, Answer, Notify, run_action, acquire_container, ping_spare, hand_over,
  create, destroy, maintain, check_or_replenish_spare, ping_checked, take_stale, ensure_spare,
  replenish_spare, finish_replenish, notify, shutdown, wait_replenish, notified, take_late, started,
  Step, call, run, Reach, here, next,
}
use himmelblau.Orchestrator.Pool.Weights.{
  total, total-run, total-le, replenishing, waiting, notifying, polling, late, opening,
}

abbrev pub bit : Bool → ℕ
bit false = 0
bit true = 1

-- How many of a pool's tasks are at each kind of action.
pub record Counts : Type 0 where
  replenish : ℕ
  wait : ℕ
  notify : ℕ
  poll : ℕ
  last : ℕ
  before : ℕ

-- The counts before and after an action that goes on with `todo` and spawned `spawned`.
abbrev Moves : Action → Task → List Task → Counts → Counts → Type 0
Moves a todo spawned k l =
    (l.replenish + replenishing a
      ≡ k.replenish + sum_by replenishing todo + total replenishing spawned)
    × (l.wait + waiting a ≡ k.wait + sum_by waiting todo + total waiting spawned)
    × (l.notify + notifying a ≡ k.notify + sum_by notifying todo + total notifying spawned)
    × (l.poll + polling a ≡ k.poll + sum_by polling todo + total polling spawned)
    × (l.last + late a ≡ k.last + sum_by late todo + total late spawned)
    × (l.before + opening a ≡ k.before + sum_by opening todo + total opening spawned)

-- The counts are those of tasks that have `a` among them.
abbrev Counted : Action → Counts → Type 0
Counted a k =
    (replenishing a ≤ k.replenish)
    × (waiting a ≤ k.wait)
    × (notifying a ≤ k.notify)
    × (polling a ≤ k.poll)
    × (late a ≤ k.last)
    × (opening a ≤ k.before)

module _ {P : Type 0} (N : Notify P) where
  abbrev pub permitted : World P → ℕ
  permitted w = bit (is_some (N.notified w.permits))

  -- The flag counts the tasks that create a spare. Once the shutdown began there is no spare, and
  -- none is made any more from its last part on. A task that waits will be woken.
  abbrev pub Sound : World P → Counts → Type 0
  Sound w k =
      (k.replenish ≡ bit w.state.replenish_in_progress)
      × (w.state.shutting_down ≡ true → w.state.spare ≡ none)
      × (k.poll + k.wait + k.last ≤ bit w.state.shutting_down)
      × (k.last + k.replenish ≤ 1)
      × (k.poll + k.wait + k.last + k.before ≤ 1)
      × (k.wait ≤ k.replenish + k.notify + permitted w)

  run_action-Sound :
      (ans : Answer) (a : Action) (w : World P) (k l : Counts)
      → Sound w k
      → Counted a k
      → (let o = run_action N ans a w in Moves a o.next o.spawned k l → Sound o.world l)
  unfolding run_action
  run_action-Sound ans (acquire_container session_id) w k l s c m =
      ground (arith, Option-cases w.state.spare)
  run_action-Sound ans (ping_spare session_id x) w k l s c m = ground arith
  run_action-Sound ans (hand_over x) w k l s c m = ground arith
  run_action-Sound ans (create session_id) w k l s c m =
      ground (arith, Option-cases ans.create_session_container)
  run_action-Sound ans (destroy x) w k l s c m = ground arith
  run_action-Sound ans maintain w k l s c m = ground arith
  run_action-Sound ans check_or_replenish_spare w k l s c m =
      ground (arith, Option-cases w.state.spare)
  run_action-Sound ans (ping_checked x) w k l s c m = ground arith
  run_action-Sound ans (take_stale x) w k l s c m = ground (arith, Option-cases w.state.spare)
  run_action-Sound ans ensure_spare w k l s c m = ground (arith, Option-cases w.state.spare)
  run_action-Sound ans (replenish_spare warm_id) w k l s c m =
      ground (arith, Option-cases ans.create_session_container)
  run_action-Sound ans (finish_replenish none) w k l s c m = ground arith
  run_action-Sound ans (finish_replenish (some x)) w k l s c m =
      ground (arith, Option-cases w.state.spare)
  run_action-Sound ans notify w k l s c m = ground (arith, N.permit_kept w.permits)
  run_action-Sound ans shutdown w k l s c m = ground (arith, Option-cases w.state.spare)
  run_action-Sound ans wait_replenish w k l s c m = ground arith
  run_action-Sound ans notified w k l s c m = ground (arith, Option-cases (N.notified w.permits))
  run_action-Sound ans take_late w k l s c m = ground (arith, Option-cases w.state.spare)

  abbrev counts : List Task → Counts
  counts ts = record {
    replenish = total replenishing ts;
    wait = total waiting ts;
    notify = total notifying ts;
    poll = total polling ts;
    last = total late ts;
    before = total opening ts;
  }

  abbrev pub SoundPool : Pool P → Type 0
  SoundPool p = Sound p.world (counts p.tasks)

  Step-Sound : {p q : Pool P} → Step N p q → SoundPool p → SoundPool q
  Step-Sound {p} {q} (call session_id e) h = rw e ground (arith, h)
  Step-Sound {p} {q} (run ans before after a rest at e) h =
      let o = run_action N ans a p.world in
      let least = λ (f : Action → ℕ). total-le p.tasks before after a rest at f in
      let moved = λ (f : Action → ℕ). total-run p.tasks before after a rest at f o.next o.spawned in
      subst SoundPool (sym e) (
        run_action-Sound ans a p.world (counts p.tasks) _ h
          (
            least replenishing,
            least waiting,
            least notifying,
            least polling,
            least late,
            least opening,
          )
          (
            moved replenishing,
            moved waiting,
            moved notifying,
            moved polling,
            moved late,
            moved opening,
          ))

  pub Reach-trans : {p q t : Pool P} → Reach N p q → Reach N q t → Reach N p t
  Reach-trans r here = r
  Reach-trans r (next m s) = next (Reach-trans r m) s

  Reach-keeps : {p q : Pool P} → Reach N p q → SoundPool p → SoundPool q
  Reach-keeps here h = h
  Reach-keeps (next r s) h = Step-Sound s (Reach-keeps r h)

  pub Reach-Sound : (permits : P) (p : Pool P) → Reach N (started permits) p → SoundPool p
  Reach-Sound permits p r = Reach-keeps r ground arith
