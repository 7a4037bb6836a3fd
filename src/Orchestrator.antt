-- ===== src/Orchestrator.antt =====
-- The orchestrator of the containers in which sessions log in (src/orchestrator): the container
-- (src/orchestrator/src/podman.rs), the pool that keeps one spare
-- (src/orchestrator/src/container_pool.rs), the sessions (src/orchestrator/src/session.rs), and the
-- commands of the socket (src/orchestrator/src/types.rs, src/orchestrator/src/communication.rs).
use Prim.Native.String.{String}
pub mod Command
pub mod Communication
pub mod Pool
pub mod Session

-- `ContainerInstance`; its two paths, which the pool and the sessions hand on, are left out.
pub record ContainerInstance : Type 0 where
  pub id : String
  pub name : String
