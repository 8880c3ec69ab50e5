-- ===== src/Cve/System.antt =====
-- The CVE cases as one system: every operation of src/cve/review.ts, src/cve/cases.ts and
-- src/cve/maintenance.ts, and src/pipeline/case-consolidation-stage.ts, as a step on the tables. One
-- step is one call that runs alone; time and the articles table, which other parts of the program write,
-- move between calls.
pub mod Writes
pub mod Ticks
pub mod Stages
use ai_event_intelligence_ag.Base.{ℕ, refl, List, []}
use ai_event_intelligence_ag.Cve.Records.{RefreshState}
use ai_event_intelligence_ag.Cve.Store.{Db, advance}
use ai_event_intelligence_ag.Cve.Review.{
  VerdictInput, ReviewInput, record_human_verdict, approve_case, unpublish_case,
  sync_case_publication, sync_all_case_publications,
}
use ai_event_intelligence_ag.Cve.Review.Journal.{IsConsistent}
use ai_event_intelligence_ag.Cve.Review.Journal.Operations.{
  record_human_verdict-IsConsistent, approve_case-IsConsistent, unpublish_case-IsConsistent,
  sync_case_publication-IsConsistent, sync_all-IsConsistent,
}
use ai_event_intelligence_ag.Cve.Enrichment.{Adapters, run_initial_enrichment}
use ai_event_intelligence_ag.Cve.Consolidation.{Evidence, consolidate_article_cve_evidence}
use ai_event_intelligence_ag.Cve.Feeds.{MaintenanceAdapters}
use ai_event_intelligence_ag.Cve.Maintenance.{run_maintenance_tick}
use ai_event_intelligence_ag.Cve.Stage.{CompletedTask, run_case_consolidation_stage}
use ai_event_intelligence_ag.Cve.System.Stages.{run_case_consolidation_stage-IsConsistent}
use ai_event_intelligence_ag.Cve.System.Ticks.{run_maintenance_tick-IsConsistent}
use ai_event_intelligence_ag.Cve.System.Writes.{
  run_initial_enrichment-IsConsistent, consolidate-IsConsistent, IsConsistent-of_same,
}

abbrev pub with_articles : List ℕ → Db → Db
with_articles articles db = record db { articles = articles }

pub data Step : Db → Db → Type 0 where
  verdict : (db : Db) (i : VerdictInput) → Step db (record_human_verdict db i).0
  approve : (db : Db) (i : ReviewInput) → Step db (approve_case db i).0
  unpublish : (db : Db) (i : ReviewInput) → Step db (unpublish_case db i).0
  sync_one : (db : Db) (case_id : ℕ) → Step db (sync_case_publication db case_id).0
  sync_all : (db : Db) → Step db (sync_all_case_publications db).0
  enrich :
      (db : Db) (case_ids : List ℕ) (adapters : Adapters)
      → Step db (run_initial_enrichment db case_ids adapters).0
  consolidate :
      (db : Db) (evidence : List Evidence)
      → Step db (consolidate_article_cve_evidence db evidence).0
  tick : (db : Db) (adapters : MaintenanceAdapters) → Step db (run_maintenance_tick db adapters).0
  stage :
      (db : Db) (tasks : List CompletedTask) (adapters : Adapters)
      → Step db (run_case_consolidation_stage db tasks adapters).0
  wait : (db : Db) (ms : ℕ) → Step db (advance ms db)
  ingest : (db : Db) (articles : List ℕ) → Step db (with_articles articles db)

-- What a sequence of steps leads to.
pub data Reach (start : Db) : Db → Type 0 where
  begin : Reach start start
  and_then : {db after : Db} → Reach start db → Step db after → Reach start after

-- The tables as the migration leaves them.
abbrev pub empty_db : ℕ → Db
empty_db now = record {
  now = now;
  articles = [];
  cases = [];
  next_case_id = 1;
  case_articles = [];
  next_case_article_id = 1;
  observations = [];
  next_observation_id = 1;
  review_events = [];
  next_review_event_id = 1;
  refresh_states = [];
}

Step-IsConsistent : {db after : Db} → Step db after → IsConsistent db → IsConsistent after
unfolding advance
Step-IsConsistent (verdict db i) h = record_human_verdict-IsConsistent db i h
Step-IsConsistent (approve db i) h = approve_case-IsConsistent db i h
Step-IsConsistent (unpublish db i) h = unpublish_case-IsConsistent db i h
Step-IsConsistent (sync_one db case_id) h = sync_case_publication-IsConsistent db case_id h
Step-IsConsistent (sync_all db) h = sync_all-IsConsistent db h
Step-IsConsistent (enrich db case_ids adapters) h =
    run_initial_enrichment-IsConsistent db case_ids adapters h
Step-IsConsistent (consolidate db evidence) h = consolidate-IsConsistent db evidence h
Step-IsConsistent (tick db adapters) h = run_maintenance_tick-IsConsistent db adapters h
Step-IsConsistent (stage db tasks adapters) h =
    run_case_consolidation_stage-IsConsistent db tasks adapters h
Step-IsConsistent (wait db ms) h = IsConsistent-of_same db (advance ms db) refl refl refl h
Step-IsConsistent (ingest db articles) h =
    IsConsistent-of_same db (with_articles articles db) refl refl refl h

-- Whatever steps lead from the empty tables to a state, in that state every case has the status that
-- the review events tell, in order, of it (a draft until they tell otherwise), and the stamps that go
-- with it: an approved case has a time and an actor of its approval and no time or actor of a
-- withdrawal, and a draft has no time or actor of an approval.
pub reachable-IsConsistent : (now : ℕ) (db : Db) → Reach (empty_db now) db → IsConsistent db
reachable-IsConsistent now _ begin = record {
  cases_consistent = tt;
  cases_below = tt;
  events_below = tt;
}
reachable-IsConsistent now _ (and_then before step) =
    Step-IsConsistent step (reachable-IsConsistent now _ before)
