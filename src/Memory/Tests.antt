-- ===== src/Memory/Tests.antt =====
-- Runs of middleware/storage/memory/store.go, and the theorems on them.
mod Windows
mod Backends
