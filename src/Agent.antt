-- ===== src/Agent.antt =====
-- The agent daemon, src/vivm/agent. It keeps its own copy of the shared state of `Sched.World` and
-- works on it by the same helpers.
pub mod Window
pub mod Remote
pub mod Spawn
pub mod Local
