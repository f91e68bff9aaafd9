-- ===== src/Pipeline.antt =====
-- The request pipeline: middleware/routing/middleware.go with the limiter of middleware/base/limiter.go.
pub mod Backends
pub mod Detector
pub mod Limits
pub mod Priority
pub mod Bots
pub mod Handler
pub mod Verdicts
pub mod Traffic
pub mod Served
mod Tests
