-- ===== src/Container.antt =====
-- The containers under the scheduler and the agent: `std::map` as the source uses it, and the three
-- thread-safe wrappers of src/common/ts_map.h and src/vivm/schedlib/sl_recursion/rec_internal.h.
pub mod Atomic
pub mod Map
pub mod TsMap
