-- ===== src/Services.antt =====
-- services/: the cycles that compose the gateway, the store and a paper broker.
pub mod Steps
pub mod Tally
pub mod TallySteps
pub mod Endings
pub mod Paper
pub mod PaperCycle
pub mod Accounts
pub mod Calls
pub mod Sanctions
pub mod Counters
pub mod PlainRejection
pub mod Counts
pub mod Shadow
pub mod ShadowRows
pub mod ShadowInert
