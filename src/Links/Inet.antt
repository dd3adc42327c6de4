-- ===== src/Links/Inet.antt =====
-- The socket link: src/lm/lminet.h, lminet_handler.h, lminet_handler.cpp and lminet_sendrecv.cpp.
pub mod Types
pub mod Host
pub mod Queues
pub mod Requests
pub mod Peer
pub mod Rounds
pub mod Api
pub mod Transfer
