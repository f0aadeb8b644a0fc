-- ===== src/Tests.antt =====
-- The properties at concrete inputs.
mod Reports
mod Documents
mod Dashboards
mod Patterns
mod Tables
mod Diffs
mod Summaries
