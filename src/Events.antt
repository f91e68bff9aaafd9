-- ===== src/Events.antt =====
-- The log of the changes of APIs, of middleware/base/events.go.
pub mod Store
pub mod Recent
pub mod Cleanup
pub mod Collected
pub mod Range
mod Tests
