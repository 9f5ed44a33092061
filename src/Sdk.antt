-- ===== src/Sdk.antt =====
-- The Go SDK that workers run on.
pub mod Cache
pub mod Replayer
pub mod Worker
