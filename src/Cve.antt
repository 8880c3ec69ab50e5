-- ===== src/Cve.antt =====
-- The CVE module (src/cve/, src/db/repositories/cve-case.repository.ts).
pub mod Records
pub mod Store
pub mod Review
pub mod Enrichment
pub mod Consolidation
pub mod Feeds
pub mod Maintenance
pub mod Grade
pub mod Stage
pub mod System
mod Tests
