-- ===== src/Trackpad.antt =====
-- The packets of the trackpad drivers of VoodooPS2Trackpad.
pub mod Synaptics
pub mod Alps
pub mod Sentelic
pub mod Averages
pub mod Gestures
mod Tests
