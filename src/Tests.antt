-- ===== src/Tests.antt =====
-- Runs of the operations on one small system: a job 7 with a group 4, a device, a computation, a PE
-- and two handles.
mod Data
mod Agents
mod Channels
mod Events
mod Inet
mod InetCalls
mod InetHosts
mod Programs
mod Rdmas
mod Recursions
mod Sessions
mod Shm
mod Spawns
mod Tables
