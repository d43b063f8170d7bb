-- ===== src/Tx.antt =====
-- The sending side, src/tx: the radio and the ring buffer of SoapyTx, and the control channel.
pub mod Ring
pub mod Device
pub mod Control
pub mod Feed
