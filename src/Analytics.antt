-- ===== src/Analytics.antt =====
-- services/analytics: the metrics over the workflow and usage tables.
pub mod Registry
pub mod Calculators
pub mod Defaults
