-- ===== src/Tasks.antt =====
-- The analysis tasks: the queue of src/db/repositories/analysis-task.repository.ts and the stage of
-- src/pipeline/analysis-task-stage.ts that schedules and drains it.
pub mod Records
pub mod Queue
pub mod Inputs
pub mod Stage
pub mod Actions
mod Tests
