-- ===== src/Cve/Tests/Review.antt =====
-- The theorems on src/cve/review.ts, and on the system, at the catalogue.
use ai_event_intelligence_ag.Base.{◌≡◌, refl, inr, true, false, some, none, if◌then◌else◌, [], ◌∷◌}
use ai_event_intelligence_ag.Cve.Records.{mentioned, human_confirmed, lifecycle_eq, approved}
use ai_event_intelligence_ag.Cve.Store.{Db, new_review_event}
use ai_event_intelligence_ag.Cve.Review.{
  VerdictInput, parse_human_verdict, record_human_verdict, verdict_event, unchanged, sync_result,
  sync_case_publication, sync_all_case_publications, should_publish, read_cvss_base,
}
use ai_event_intelligence_ag.Cve.Review.Publication.{
  status_of, gate_status, sync_all-gate, sync_idempotent,
}
use ai_event_intelligence_ag.Cve.Review.Verdict.{
  link_state, record_human_verdict-applied, record_human_verdict_refused,
}
use ai_event_intelligence_ag.Cve.Review.Journal.{IsConsistent}
use ai_event_intelligence_ag.Cve.Consolidation.{Evidence, consolidate_article_cve_evidence}
use ai_event_intelligence_ag.Cve.System.{
  begin, and_then, consolidate, sync_all, empty_db, with_articles, ingest, reachable-IsConsistent,
}
use ai_event_intelligence_ag.Cve.Tests.{critical_case, first_link, catalogue}

abbrev confirm : VerdictInput
confirm = record {
  case_id = 1;
  article_id = 11;
  verdict = "human_confirmed";
  actor = "analyst";
  reason = none;
}

sync_all-gate_example :
    (status_of (sync_all_case_publications catalogue).0 1 ≡ some (gate_status catalogue 1))
    × ((sync_all_case_publications catalogue).0.observations ≡ catalogue.observations)
sync_all-gate_example = sync_all-gate catalogue 1 critical_case refl

-- The critical score publishes the case.
gate_opens : gate_status catalogue 1 ≡ approved
unfolding should_publish read_cvss_base
gate_opens = refl

sync_idempotent_example :
    let after = (sync_case_publication catalogue 1).0 in
    sync_case_publication after 1 ≡ (after, sync_result catalogue 1 unchanged)
sync_idempotent_example = sync_idempotent catalogue 1 critical_case refl

confirms : parse_human_verdict confirm.verdict ≡ some human_confirmed
unfolding parse_human_verdict
confirms = refl

record_human_verdict-applied_example :
    let (after, result) = record_human_verdict catalogue confirm in
    (result.ok ≡ true)
    × (result.from_state ≡ some first_link.lifecycle_state)
    × (result.to_state ≡ some human_confirmed)
    × (link_state after 1 11 ≡ some human_confirmed)
    × (after.cases ≡ catalogue.cases)
    × (after.review_events ≡ (
        if lifecycle_eq first_link.lifecycle_state human_confirmed
        then catalogue.review_events
        else new_review_event catalogue (verdict_event confirm first_link human_confirmed)
          ∷ catalogue.review_events))
record_human_verdict-applied_example =
    record_human_verdict-applied catalogue confirm human_confirmed critical_case first_link confirms
      refl refl

abbrev misdirected : VerdictInput
misdirected = record confirm { article_id = 13 }

record_human_verdict_refused_example :
    let (after, result) = record_human_verdict catalogue misdirected in
    (result.ok ≡ false) × (after ≡ catalogue)
record_human_verdict_refused_example =
    record_human_verdict_refused catalogue misdirected (inr (inr refl))

abbrev mention : Evidence
mention = record {
  cve_id = "CVE-2024-3400";
  article_id = 11;
  lifecycle_state = mentioned;
  interpretation = "exploited";
  automated_at = "2024-04-12T00:00:00.000Z";
  automated_task_id = some 7;
}

-- An article arrives, its evidence is consolidated, and the publications are synced.
abbrev arrived : Db
arrived = with_articles (11 ∷ []) (empty_db 1000)

abbrev consolidated : Db
consolidated = (consolidate_article_cve_evidence arrived (mention ∷ [])).0

reachable-IsConsistent_example : IsConsistent (sync_all_case_publications consolidated).0
reachable-IsConsistent_example =
    reachable-IsConsistent 1000 (sync_all_case_publications consolidated).0 (
      and_then
        (and_then (and_then begin (ingest (empty_db 1000) (11 ∷ [])))
          (consolidate arrived (mention ∷ [])))
        (sync_all consolidated))
