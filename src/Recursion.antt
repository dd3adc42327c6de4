-- ===== src/Recursion.antt =====
-- The recursion scheduler, src/vivm/schedlib/sl_recursion: the compute resources that it grants to
-- groups, and the rounds in which a group's PEs are spawned.
pub mod Resources
pub mod Rounds
