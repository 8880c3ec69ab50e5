-- ===== src/Cve/Tests.antt =====
-- A small catalogue: two articles and one CVE case that both mention, with a critical CVSS score and
-- no publication yet; and the theorems on it.
mod Review
mod Enrichment
mod Grade
mod Stage
mod Maintenance
use ai_event_intelligence_ag.Base.{ℕ, ◌*◌, String, false, none, some, [], ◌∷◌}
use ai_event_intelligence_ag.StableJson.{Json, num, str, obj, end, field, units}
use ai_event_intelligence_ag.Cve.Records.{
  CveCase, CaseArticle, Observation, draft, automated_relevant, nvd, SourceStatus, initial,
}
use ai_event_intelligence_ag.Cve.Store.{Db}

abbrev pub critical_case : CveCase
critical_case = record {
  id = 1;
  cve_id = "CVE-2024-3400";
  status = draft;
  first_seen_at = 1000;
  first_seen_article_id = some 11;
  last_enriched_at = none;
  approved_at = none;
  approved_by_actor = none;
  reverted_at = none;
  reverted_by_actor = none;
  created_at = 1000;
  updated_at = 1000;
}

abbrev pub first_link : CaseArticle
first_link = record {
  id = 1;
  case_id = 1;
  article_id = 11;
  lifecycle_state = automated_relevant;
  evidence = obj end;
  first_evidence = some (obj end);
  automated_task_id = some 7;
  created_at = 1000;
  updated_at = 1000;
}

abbrev pub second_link : CaseArticle
second_link = record first_link { id = 2; article_id = 12; first_evidence = none }

abbrev pub critical_score : Json
critical_score = obj (
    field "source" (str "nvd") (
      field "value"
        (obj (
          field "cvssV3" (obj (field "base" (num (units 10)) (field "vector" (str "AV:N") end)))
            end))
        end))

abbrev pub critical_observation : Observation
critical_observation = record {
  id = 1;
  case_id = 1;
  source = nvd;
  status = SourceStatus.ok;
  normalized_value = some critical_score;
  provenance = some "nvd";
  retrieved_at = 1500;
  attempt_kind = initial;
  last_error = none;
  created_at = 1500;
}

abbrev pub catalogue : Db
catalogue = record {
  now = 2000;
  articles = 11 ∷ 12 ∷ [];
  cases = critical_case ∷ [];
  next_case_id = 2;
  case_articles = second_link ∷ first_link ∷ [];
  next_case_article_id = 3;
  observations = critical_observation ∷ [];
  next_observation_id = 2;
  review_events = [];
  next_review_event_id = 1;
  refresh_states = [];
}
