-- ===== src/Data.antt =====
-- data/: the read-only market data.
pub mod Base
pub mod Fixtures
