-- ===== src/P25.antt =====
-- The air interface of src/p25: identifiers, signalling blocks, frames and the modulator.
pub mod Nid
pub mod Tsbk
pub mod Frame
pub mod C4fm
