-- ===== src/Rooms.antt =====
-- Where people are: room_fingerprint.py.
pub mod Label
pub mod Smooth
pub mod Classify
pub mod Nearest
mod Tests
