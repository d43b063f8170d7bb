-- ===== src/P25/Tsbk.antt =====
-- src/p25/TSBK.cpp and TSBK.hpp: the trunking signalling blocks of the control channel. One module
-- for each coding step, and one for the builders of the messages.
pub mod Crc
pub mod Trellis
pub mod Interleave
pub mod Block
pub mod Messages
pub mod Sync
