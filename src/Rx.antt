-- ===== src/Rx.antt =====
-- The receiving side: src/rx/RxPipeline.cpp.
pub mod Handler
pub mod Lines
pub mod Capture
pub mod Pipeline
pub mod Singleton
pub mod Stub
