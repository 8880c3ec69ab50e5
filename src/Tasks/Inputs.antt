-- ===== src/Tasks/Inputs.antt =====
-- The tasks of an article, as src/pipeline/analysis-task-stage.ts asks for them, and what it reads of
-- those that are there to decide which to ask for.
use ai_event_intelligence_ag.Base.{
  ℕ, String, Bool, true, false, ◌&&◌, Option, none, some, List, [], ◌∷◌, ◌==◌, str_eq, map, find,
  keep, any,
}
use ai_event_intelligence_ag.StableJson.{
  Json, Items, num, str, arr, obj, nil, cons, end, field, units, member,
}
use ai_event_intelligence_ag.Cve.Consolidation.{distinct}
use ai_event_intelligence_ag.Tasks.Records.{Task, TaskInput, is_completed}

abbrev pub article_summary : String
article_summary = "article_summary"

abbrev pub article_disposition : String
article_disposition = "article_disposition"

abbrev pub article_cve_interpretation : String
article_cve_interpretation = "article_cve_interpretation"

abbrev pub article_input : String → ℕ → String → String → Json → TaskInput
article_input model article_id name version payload = record {
  target_type = "article";
  target_id = article_id;
  task_name = name;
  input_payload = some payload;
  max_attempts = none;
  next_attempt_at = none;
  prompt_version = some version;
  model = some model;
}

abbrev pub article_payload : ℕ → Json
article_payload article_id = obj (field "articleId" (num (units article_id)) end)

abbrev pub text_items : List String → Items
text_items [] = nil
text_items (s ∷ rest) = cons (str s) (text_items rest)

abbrev pub interpretation_payload : ℕ → List String → Json
interpretation_payload article_id cve_ids =
    obj (field "articleId" (num (units article_id)) (field "cveIds" (arr (text_items cve_ids)) end))

abbrev pub summary_input : String → ℕ → TaskInput
summary_input model article_id =
    article_input model article_id article_summary "cve-mvp-summary-v2" (article_payload article_id)

abbrev pub disposition_input : String → ℕ → TaskInput
disposition_input model article_id =
    article_input model article_id article_disposition "cve-mvp-disposition-v1"
      (article_payload article_id)

abbrev pub interpretation_input : String → ℕ → List String → TaskInput
interpretation_input model article_id cve_ids =
    article_input model article_id article_cve_interpretation "cve-mvp-cve-interpretation-v3"
      (interpretation_payload article_id cve_ids)

-- `completedByName.has(name)`
abbrev pub has_completed : List Task → String → Bool
has_completed existing name = any (λ t. str_eq t.task_name name && is_completed t.status) existing

abbrev pub is_text : Json → String → Bool
is_text (str s) t = str_eq s t
is_text _ t = false

-- `disposition?.result?.disposition === 'actionable'`
abbrev pub says_actionable : Option Json → Bool
says_actionable none = false
says_actionable (some answer) = is_text (member "disposition" answer) "actionable"

unfoldable pub is_actionable : List Task → Bool
is_actionable existing =
    elim (find (λ t. str_eq t.task_name article_disposition && is_completed t.status) existing) [
      | none ↦ false
      | some t ↦ says_actionable t.result
    ]

-- `Array.from(new Set(mentions.map((m) => m.cveId)))`, over the rows of the article
abbrev pub mentioned_cves : List (ℕ × String) → ℕ → List String
mentioned_cves mentions article_id =
    distinct (map (λ m. m.1) (keep (λ m. m.0 == article_id) mentions))

abbrev pub is_empty : List String → Bool
is_empty [] = true
is_empty (_ ∷ _) = false
