-- ===== src/Reports.antt =====
-- reports/: what is reported of the audit store.
pub mod Records
