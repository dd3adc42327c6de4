-- ===== src/Links/Channel.antt =====
-- The channel layer: src/ch/channel.h, channel_internal.cpp, channel_sendrecv.cpp and
-- channel_remote.cpp, over the calls of the link managers.
pub mod Types
pub mod Regions
pub mod Remote
pub mod Messages
pub mod Windows
