-- ===== src/Address.antt =====
-- The address of a client: middleware/base/extractor.go and middleware/helper/ip.go.
pub mod Extractor
pub mod Trust
mod Tests
