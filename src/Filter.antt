-- ===== src/Filter.antt =====
-- src/pipeline/filter-stage.ts: whether an article of a feed is worth extracting, by its title, summary and
-- categories alone. The keywords, CVE ids and vendors that the detectors find by regular expressions, and
-- toLowerCase, are parameters.
pub mod Signals
pub mod Cascade
pub mod Bounds
pub mod Stage
pub mod Outcomes
mod Tests
