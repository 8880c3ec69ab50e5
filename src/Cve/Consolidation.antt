-- ===== src/Cve/Consolidation.antt =====
-- `consolidateArticleCveEvidence` of src/cve/cases.ts. A thrown error, for a foreign key or an
-- article that is not there, is the result `none`; what was written before it stays written.
pub mod Links
pub mod Known
pub mod Attached
pub mod Cases
pub mod Kept
pub mod Again
use mathlib.Core.Option
use ai_event_intelligence_ag.Base.{
  ℕ, ◌+◌, String, Bool, true, false, Option, none, some, List, [], ◌∷◌, map, if◌then◌else◌, find,
  length, any, str_eq,
}
use ai_event_intelligence_ag.StableJson.{Json, null, num, str, obj, end, field, units}
use ai_event_intelligence_ag.Cve.Records.{LifecycleState, CveCase}
use ai_event_intelligence_ag.Cve.Store.{
  Db, ensure_case, upsert_case_article, CaseArticleInput, has_article,
}

-- `AttachArticleInput`, with its `ArticleCveInterpretationEvidence` spread out
pub record Evidence : Type 0 where
  pub cve_id : String
  pub article_id : ℕ
  pub lifecycle_state : LifecycleState
  pub interpretation : String
  pub automated_at : String
  pub automated_task_id : Option ℕ

-- `Array.from(new Set(…))`: the first of each, in order
unfoldable pub distinct_after : List String → List String → List String
distinct_after seen [] = []
distinct_after seen (x ∷ xs) = elim (any (str_eq x) seen) [
  | true ↦ distinct_after seen xs
  | false ↦ x ∷ distinct_after (x ∷ seen) xs
]

unfoldable pub distinct : List String → List String
unfolding distinct_after
distinct xs = distinct_after [] xs

abbrev pub first_seen_article : List Evidence → String → Option ℕ
first_seen_article evidence cve_id =
    Option.map (λ (e : Evidence). e.article_id) (find (λ e. str_eq e.cve_id cve_id) evidence)

-- The loop that ensures one case for each CVE id; it stops at a thrown error.
unfoldable pub ensure_cases : Db → List Evidence → List String → Db × Option (List CveCase)
ensure_cases db evidence [] = (db, some [])
ensure_cases db evidence (cve_id ∷ rest) =
    let (next, made) = ensure_case db cve_id (first_seen_article evidence cve_id) in
    elim made [
      | none ↦ (next, none)
      | some r ↦
          let (last, others) = ensure_cases next evidence rest in
          (last, Option.map (λ rs. r ∷ rs) others)
    ]

abbrev pub task_json : Option ℕ → Json
task_json none = null
task_json (some id) = num (units id)

abbrev pub evidence_payload : Evidence → Json
evidence_payload e = obj (
    field "automated_interpretation" (str e.interpretation) (
      field "automated_at" (str e.automated_at)
        (field "automated_task_id" (task_json e.automated_task_id) end)))

abbrev pub attach_input : CveCase → Evidence → CaseArticleInput
attach_input r e = record {
  case_id = r.id;
  article_id = e.article_id;
  lifecycle_state = e.lifecycle_state;
  evidence = evidence_payload e;
  first_evidence = some (evidence_payload e);
  automated_task_id = e.automated_task_id;
}

abbrev pub case_for : List CveCase → String → Option CveCase
case_for ensured cve_id = find (λ r. str_eq r.cve_id cve_id) ensured

-- One round of the loop that attaches articles: an unknown case is skipped, and `findByIds` throws for an
-- article that is not there.
unfoldable pub attach_article : Db → List CveCase → Evidence → Db × Option ℕ
attach_article db ensured e = elim (case_for ensured e.cve_id) [
  | none ↦ (db, some 0)
  | some r ↦
      if has_article db e.article_id
      then (upsert_case_article db (attach_input r e), some 1)
      else (db, none)
]

unfoldable pub attach_articles : Db → List CveCase → List Evidence → Db × Option ℕ
unfolding attach_article
attach_articles db ensured [] = (db, some 0)
attach_articles db ensured (e ∷ rest) =
    let (next, one) = attach_article db ensured e in
    elim one [
      | none ↦ (next, none)
      | some n ↦
          let (last, more) = attach_articles next ensured rest in
          (last, Option.map (λ m. n + m) more)
    ]

pub record ConsolidatedResult : Type 0 where
  pub cases_ensured : ℕ
  pub articles_attached : ℕ
  pub observations_appended : ℕ
  pub cases : List CveCase

unfoldable pub consolidate_article_cve_evidence :
    Db → List Evidence → Db × Option ConsolidatedResult
unfolding ensure_cases attach_articles distinct
consolidate_article_cve_evidence db evidence =
    let (ready, made) =
      ensure_cases db evidence (distinct (map (λ (e : Evidence). e.cve_id) evidence)) in
    elim made [
      | none ↦ (ready, none)
      | some ensured ↦
          let (last, attached) = attach_articles ready ensured evidence in
          (
            last,
            Option.map
                (λ n. record {
                  cases_ensured = length ensured;
                  articles_attached = n;
                  observations_appended = 0;
                  cases = ensured;
                })
                attached,
          )
    ]
