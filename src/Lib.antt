-- ===== src/Lib.antt =====
-- The event intelligence agent: what it keeps of each vulnerability that its articles mention (a
-- CVE case), how it enriches and refreshes it from NVD, KEV and EPSS, when it publishes it, the
-- queue of analysis tasks by which language models read the articles, how articles are grouped into
-- events, what an analyst does with an event, and when an event alerts.
--
-- Parts, and where they are modelled:
--   Base             shared tests, list operations and tables (rows found and updated by key)
--   StableJson       src/utils/stable-json.ts: JSON values, canonicalize, stableStringify
--   StableJson.Jsonb  what a jsonb column holds of a value
--   DateText         the JavaScript engine's toISOString, by which cursors are written
--   Cve.Records      the row types of src/db/repositories/cve-case.repository.ts
--   Cve.Store        the queries of that repository, on one record `Db` of all its tables
--   Cve.Review       src/cve/review.ts: recordHumanVerdict, approveCase, unpublishCase,
--                    syncCasePublicationFromCvss, syncAllCasePublicationsFromCvss
--   Cve.Enrichment   src/cve/cases.ts: runInitialEnrichment, persistObservation
--   Cve.Consolidation  src/cve/cases.ts: consolidateArticleCveEvidence
--   Cve.Feeds        src/cve/maintenance-adapters.ts: what the bulk sources deliver
--   Cve.Maintenance  src/cve/maintenance.ts: runMaintenanceTick, persistRefreshObservation
--   Cve.Grade        src/cve/cvss-grade.ts: triage grades of CVSS and EPSS scores
--   Cve.Stage        src/pipeline/case-consolidation-stage.ts: runCaseConsolidationStage
--   Cve.System       every operation on cases as a step on the tables
--   Tasks.Records    the row types of src/db/repositories/analysis-task.repository.ts
--   Tasks.Queue      the queries of that repository
--   Tasks.Inputs     which tasks an article calls for, in src/pipeline/analysis-task-stage.ts
--   Tasks.Stage      src/pipeline/analysis-task-stage.ts: scheduleTasksForArticle, drainTaskQueue,
--                    runAnalysisTaskStage
--   Tasks.Actions    src/workspace/analysis-task-actions.ts: applyAnalysisTaskAction
--   Alerts           src/alerts/alert-decision.ts: decideAlert
--   Alerts.Stage     src/pipeline/alert-stage.ts: runAlertStage, and alert.repository.ts beside
--                    src/db/repositories/event.repository.ts
--   Events.Records   the row types of the tables of events, articles, links and alerts
--   Events.Store     the statements of src/db/repositories/event.repository.ts that write
--   Events.Queues    its queries, pages and counts, the triage queue among them
--   Events.Editorial  src/events/event-editorial.ts: withTransaction, approveEvent, unpublishEvent,
--                    createEventFromArticles, attachArticleToEvent, moveArticleBetweenEvents
--   Events.Grouping  src/events/grouping-decision.ts and src/events/event-grouper.ts
--   Events.Embeddings  the searches by vector, and src/embedding/lifecycle.ts: the copy of a vector
--   Events.Stage     src/pipeline/event-stage.ts: runEventStage
--   Events.Assessment  src/events/event-assessment.ts, and where src/pipeline/classification-stage.ts
--                    applies it
--   Events.Memberships  an abstract meaning of the editorial requests
--   Events.System    every operation on events as a step on the tables
--   Filter           src/pipeline/filter-stage.ts: decideCheapFilter, runCheapFilterStage
--   Dedup            src/dedup/article-dedup.ts, src/pipeline/dedup-stage.ts
--   Scheduling       src/pipeline/scheduled-run.ts, src/cve/scheduled-maintenance.ts: runs under an
--                    advisory lock
-- How they interact: the task stage schedules and runs the tasks of an article, and what its
-- interpretation tasks found is the evidence that the consolidation stage takes. Consolidation
-- makes cases and links, enrichment and the maintenance tick add observations to them and then call
-- the sync of src/cve/review.ts, which sets the status of a case by its observations and writes a
-- review event. An analyst's verdicts, withdrawals and task actions enter from outside. The event
-- stage reads the articles that are embedded and gives each an event, old or new; analysts move,
-- approve and edit the same rows, and the alert stage reads them and what it sent before. Before
-- that, the filter stage and the dedup stage move the articles of the same table on by their
-- processing status. All stages run inside a scheduled run, of which the advisory lock lets one
-- proceed at a time.
--
-- How state corresponds: every function takes the tables and returns them with its result. A table
-- is a list of rows, newest first, so that the queries with ORDER BY created_at DESC, id DESC are
-- its own order. Ids are the numbers of BIGSERIAL columns, and a serial is used up by an insert
-- that conflicts too; an id inside a JSON value is its number. Timestamps are milliseconds. The
-- clock `now` moves between calls and not inside one, so all rows that one call writes have one
-- time. A foreign key that is not there makes `ensure_case` return `none` where the program throws,
-- and so does an article that is not there where findByIds is asked for it; what was written before
-- stays, as the calls run in no transaction. On events, an operation returns an `Outcome`, which is
-- its value or the error it throws, and a transaction that throws puts the tables back and leaves
-- the serials. A JSON value is its tree, and JSON.stringify is the tree that its text spells; a
-- jsonb column holds it with the members of objects reordered, shorter keys first; JSON numbers are
-- counts of 10⁻⁹, which holds CVSS scores and EPSS probabilities.
--
-- Parameters: the HTTP adapters of NVD, KEV and EPSS (a reply, or a fetch that returns or throws);
-- toUpperCase, which goes by Unicode's tables; what a language model answers for a task, or the
-- error it throws; the configured model's name; the articles that are ready for analysis, and the
-- completed tasks with the results their answers hold; the environment's settings of the alert
-- policy; the entities of articles, pgvector's distance, toLowerCase, the current embedding model
-- and the comparator that a language model is (its answer, or none where it throws); the detectors
-- of keywords, CVE ids and vendors; the advisory lock, as an interface with the laws of its manual.
-- Loops are structural recursion on the list they go through; the claims of a drain recurse on its
-- limit, which the program has too. No definition takes fuel.
--
-- Not modelled: durations and logging; errors that the database throws but for the foreign key
-- above; two calls that interleave, but for the scheduled runs (a step is one call that runs alone,
-- and the three workers of a drain take turns; each task that throws ends one of them); the
-- read-only views for pages; and the other parts of the program: ingest, extraction, the rest of
-- classification, event summaries, job queues, portals, evaluation. The web pages and the clients
-- of language models are calls of other software.
pub mod Alerts
pub mod Base
pub mod Cve
pub mod DateText
pub mod Dedup
pub mod Events
pub mod Filter
pub mod Scheduling
pub mod StableJson
pub mod Tasks
