-- ===== src/Memory.antt =====
-- The in-memory store of middleware/storage/memory/store.go.
pub mod Window
pub mod Cache
pub mod Entry
pub mod Backend
mod Tests
