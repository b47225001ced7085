-- ===== src/Presence.antt =====
-- Who is home, from the clients of the router: eero_presence.py and presence_store.py.
pub mod Data
pub mod Tracked
pub mod State
pub mod Store
pub mod People
pub mod Poll
pub mod Next
pub mod Debounce
pub mod Empty
mod Tests
