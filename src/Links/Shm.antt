-- ===== src/Links/Shm.antt =====
-- The shared-memory link: src/lm/lmshm.h, lmshm_sendrecv.cpp and lmshm_shm.cpp.
pub mod State
pub mod Calls
pub mod Transfers
pub mod Completions
pub mod Api
pub mod Delivery
pub mod Pieces
pub mod Waiting
pub mod Failures
pub mod Segments
