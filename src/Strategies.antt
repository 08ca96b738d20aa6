-- ===== src/Strategies.antt =====
-- strategies/: what proposes candidates.
pub mod Base
pub mod Premium
pub mod Scoring
pub mod Ranking
pub mod Proposals
