-- ===== src/Sched.antt =====
-- The scheduler daemon, src/vivm/sched, and the helpers of its header that the agent shares.
pub mod Api
pub mod Devices
pub mod Events
pub mod Find
pub mod Groups
pub mod Jobs
pub mod Local
pub mod Memory
pub mod Pes
pub mod Remote
pub mod Types
pub mod Requests
pub mod World
