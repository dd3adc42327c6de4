-- ===== src/Links.antt =====
-- The link managers of src/lm: transfers between two hosts over sockets, and between two processes
-- over a shared segment.
pub mod Memory
pub mod Runs
pub mod Sockets
pub mod Inet
pub mod Shm
pub mod Rdma
pub mod Channel
