-- ===== src/Summary.antt =====
-- services/summarization/__init__.py, in one child for each part.
pub mod Claims
pub mod Budget
pub mod Metrics
pub mod Entries
pub mod Risks
pub mod Dashboard
pub mod Report
pub mod Generate
pub mod Response
