-- ===== src/Redis.antt =====
-- The Redis backend: middleware/storage/redis/store.go.
pub mod Commands
pub mod Scripts
pub mod Store
pub mod Values
pub mod Calls
pub mod Forgives
pub mod Window
pub mod Admitted
pub mod Hashes
pub mod Blocks
mod Tests
