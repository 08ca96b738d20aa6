-- ===== src/Brokers.antt =====
-- brokers/: the adapters that take a submission: the fake brokers and the local paper broker.
pub mod Base
pub mod Fake
pub mod Paper
