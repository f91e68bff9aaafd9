-- ===== src/Configuration.antt =====
-- The configuration: middleware/base/config.go, middleware/config/loader.go,
-- middleware/environment/defaults.go and middleware/helper/env.go.
pub mod Settings
pub mod Validate
pub mod Defaults
pub mod Environ
pub mod Environment
pub mod Files
pub mod Presets
pub mod Accepted
pub mod Convert
pub mod Loader
pub mod Loading
pub mod Variables
mod Tests
