-- ===== src/Events.antt =====
-- src/events/ and src/db/repositories/event.repository.ts: events, the articles that belong to them,
-- and what an analyst does with both.
pub mod Records
pub mod Store
pub mod Editorial
pub mod Counts
pub mod Consistency
pub mod Membership
pub mod Links
pub mod Moves
pub mod Creation
pub mod Queues
pub mod Pages
pub mod Triage
pub mod Grouping
pub mod Embeddings
pub mod Stage
pub mod Atomicity
pub mod System
pub mod Arrivals
pub mod Memberships
pub mod Refinement
mod Tests
pub mod Assessment
