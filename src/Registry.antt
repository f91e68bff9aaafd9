-- ===== src/Registry.antt =====
-- The registry of APIs and their rules: middleware/storage/file/registry.go over the types of
-- middleware/base/admin.go and middleware/base/registery.go.
pub mod Api
pub mod Store
pub mod Apis
pub mod Endpoints
pub mod Rules
pub mod Bulk
pub mod Durable
pub mod Saves
pub mod Undo
pub mod Changes
pub mod Calls
pub mod Choice
pub mod Matching
mod Tests
