-- ===== src/Ui.antt =====
-- The parts of the user interface that decide something: src/ui.
pub mod Band
pub mod Log
pub mod Site
pub mod Console
pub mod App
