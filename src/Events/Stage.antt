-- ===== src/Events/Stage.antt =====
-- src/pipeline/event-stage.ts: the stage that gives every embedded article its event. The entities of the
-- articles, pgvector's distance, the comparator of the language model and the current model of embeddings
-- are parameters; a model is its name with its dimensions, in one text. A comparison that throws is `none`.
pub mod Ladder
pub mod Turn
pub mod Settled
pub mod Run
use ai_event_intelligence_ag.Base.{
  ℕ, ◌+◌, ◌*◌, ◌==◌, String, Bool, true, false, not, ◌&&◌, Option, none, some, List, [], ◌∷◌,
  if◌then◌else◌, ltb, leb, str_eq, map, keep, any, length,
}
use ai_event_intelligence_ag.Base.Table.{update_by}
use ai_event_intelligence_ag.Base.Sort.{sort, take}
use ai_event_intelligence_ag.Base.TextOrder.{str_leb}
use ai_event_intelligence_ag.Events.Records.{
  Article, CyberEvent, EventDb, Outcome, returned, thrown, article_key, event_key,
}
use ai_event_intelligence_ag.Events.Store.{
  CreateEventInput, AttachInput, create_event, attach_article, set_event, find_article,
  update_processing_status,
}
use ai_event_intelligence_ag.Events.Queues.{
  find_open_by_grouping_key, list_by_processing_status, has_text,
}
use ai_event_intelligence_ag.Events.Embeddings.{
  list_for_article, get_eligible_embedding, find_similar_events, copy_article_embedding,
}
use ai_event_intelligence_ag.Events.Grouping.{
  ArticleEntity, EventDraft, SimilarEvent, GroupingDecision, GroupingMethod, EventComparison,
  attach, create, uncertain, by_grouping_key, by_embedding, by_llm_comparator, no_match,
  decide_event_grouping, apply_comparison, build_event_draft,
}

-- What the stage is given from outside.
pub record Grouping : Type 0 where
  pub to_lower_case : String → String
  pub entities : List ArticleEntity
  pub distance : String → String → ℕ
  pub model : String
  pub comparator : Option (Article → CyberEvent → Option EventComparison)

-- `EventStageResult`
pub record EventStageResult : Type 0 where
  pub reviewed : ℕ
  pub created : ℕ
  pub attached : ℕ
  pub attached_by_key : ℕ
  pub attached_by_embedding : ℕ
  pub attached_by_llm : ℕ
  pub llm_compared : ℕ
  pub duplicate_skipped : ℕ

-- What an `audit.insert` of the stage records: whether the comparison was valid.
pub record ComparisonAudit : Type 0 where
  pub article_id : ℕ
  pub event_id : ℕ
  pub is_valid : Bool

pub record StageState : Type 0 where
  pub db : EventDb
  pub audits : List ComparisonAudit
  pub result : EventStageResult

abbrev pub audited : ℕ → ℕ → Bool → StageState → StageState
audited article_id event_id valid s = record s {
  audits = record { article_id = article_id; event_id = event_id; is_valid = valid } ∷ s.audits;
}

abbrev pub count_compared : StageState → StageState
count_compared s = record s {
  result = record s.result { llm_compared = s.result.llm_compared + 1 };
}

-- `resolveWithComparator`
unfoldable pub resolve_with_comparator :
    (Article → CyberEvent → Option EventComparison)
    → Article
    → SimilarEvent
    → StageState
    → StageState × GroupingDecision
resolve_with_comparator comparator article candidate s =
    let counted = count_compared s in
    elim (comparator article candidate.event) [
      | none ↦ (audited article.id candidate.event.id false counted, create no_match)
      | some comparison ↦ (
        audited article.id candidate.event.id true counted,
        apply_comparison candidate comparison,
      )
    ]

-- `keyMatch`: the open event with the draft's key, which `unknown` never is.
abbrev pub key_match_of : StageState → EventDraft → Option CyberEvent
key_match_of s draft =
    if str_eq draft.grouping_key "unknown"
    then none
    else find_open_by_grouping_key s.db draft.grouping_key

-- `similarEvents`: not looked for where the key matched or the article has no current embedding.
abbrev pub similar_events_of :
    Grouping → StageState → Article → Option CyberEvent → List SimilarEvent
similar_events_of g s article (some _) = []
similar_events_of g s article none = elim (get_eligible_embedding s.db g.model article.id) [
  | none ↦ []
  | some vector ↦ find_similar_events s.db g.distance g.model vector 3
]

-- The first two rungs: by the key, else by the distance.
unfoldable pub ladder : Grouping → StageState → Article → EventDraft → GroupingDecision
ladder g s article draft =
    let key_match = key_match_of s draft in
    decide_event_grouping draft.grouping_key key_match (similar_events_of g s article key_match)

-- The three rungs.
unfoldable pub decide_grouping :
    Grouping → StageState → Article → EventDraft → StageState × GroupingDecision
decide_grouping g s article draft = elim (ladder g s article draft) [
  | uncertain candidate ↦ elim g.comparator [
    | none ↦ (s, create no_match)
    | some comparator ↦ resolve_with_comparator comparator article candidate s
  ]
  | decided ↦ (s, decided)
]

abbrev pub count_attached : GroupingMethod → EventStageResult → EventStageResult
count_attached by_grouping_key r = record r {
  attached = r.attached + 1;
  attached_by_key = r.attached_by_key + 1;
}
count_attached by_embedding r = record r {
  attached = r.attached + 1;
  attached_by_embedding = r.attached_by_embedding + 1;
}
count_attached by_llm_comparator r = record r {
  attached = r.attached + 1;
  attached_by_llm = r.attached_by_llm + 1;
}
count_attached no_match r = record r { attached = r.attached + 1 }

abbrev pub count_created : EventStageResult → EventStageResult
count_created r = record r { created = r.created + 1; attached = r.attached + 1 }

abbrev pub drafted : EventDraft → CreateEventInput
drafted draft = record {
  event_title = draft.title;
  grouping_key = if str_eq draft.grouping_key "unknown" then none else some draft.grouping_key;
  event_summary = some draft.summary;
  severity = some draft.severity;
  urgency = some draft.urgency;
  confidence = some 600000000;
  affected_vendors = draft.affected_vendors;
  affected_products = draft.affected_products;
  cves = draft.cves;
  attack_types = draft.attack_types;
}

abbrev pub stage_link : ℕ → ℕ → String → ℕ → Bool → Bool → AttachInput
stage_link event_id article_id relationship confidence primary material = record {
  event_id = event_id;
  article_id = article_id;
  relationship = relationship;
  confidence = some confidence;
  is_primary_source = primary;
  is_material_update = material;
}

-- The `else` of the loop: a new event with the article as its primary source.
unfoldable pub start_event : Grouping → Article → EventDraft → EventDb → EventDb × Outcome Unit
start_event g article draft db =
    let (made, event) = create_event db (drafted draft) in
    let (linked, outcome) =
      attach_article made (stage_link event.id article.id "same_event" 600000000 true false) in
    elim outcome [
      | thrown e ↦ (linked, thrown e)
      | returned _ ↦ (copy_article_embedding linked g.model event.id article.id, returned tt)
    ]

-- What the decision does to the tables and to the counts.
unfoldable pub carry_out :
    Grouping → Article → EventDraft → GroupingDecision → StageState → StageState × Outcome Unit
carry_out g article draft decision s = elim decision [
  | attach event relationship confidence material method ↦
      let (linked, outcome) =
        attach_article s.db
          (stage_link event.id article.id relationship confidence false material) in
      (record s { db = linked; result = count_attached method s.result }, outcome)
  | _ ↦
      let (made, outcome) = start_event g article draft s.db in
      (record s { db = made; result = count_created s.result }, outcome)
]

-- One turn of the loop.
unfoldable pub group_article : Grouping → Article → StageState → StageState × Outcome Unit
group_article g article s =
    let draft =
      build_event_draft g.to_lower_case article (list_for_article g.entities article.id) in
    let (decided, decision) = decide_grouping g s article draft in
    let (done, outcome) = carry_out g article draft decision decided in
    elim outcome [
      | thrown e ↦ (done, thrown e)
      | returned _ ↦ (
        record done { db = update_processing_status done.db article.id "GROUPED" none },
        returned tt,
      )
    ]

-- The loop, which a thrown error leaves.
unfoldable pub group_articles : Grouping → List Article → StageState → StageState × Outcome Unit
group_articles g [] s = (s, returned tt)
group_articles g (article ∷ rest) s = elim (str_eq article.processing_status "DUPLICATE") [
  | true ↦
      let skipped = record s.result { duplicate_skipped = s.result.duplicate_skipped + 1 } in
      group_articles g rest (record s { result = skipped })
  | false ↦
      let (next, outcome) = group_article g article s in
      elim outcome [ thrown e ↦ (next, thrown e) | returned _ ↦ group_articles g rest next ]
]

abbrev pub nothing_grouped : ℕ → EventStageResult
nothing_grouped reviewed = record {
  reviewed = reviewed;
  created = 0;
  attached = 0;
  attached_by_key = 0;
  attached_by_embedding = 0;
  attached_by_llm = 0;
  llm_compared = 0;
  duplicate_skipped = 0;
}

-- `runEventStage`
unfoldable pub run_event_stage : Grouping → EventDb → ℕ → StageState × Outcome Unit
run_event_stage g db limit =
    let candidates = list_by_processing_status db "EMBEDDED" limit in
    group_articles g candidates
      (record { db = db; audits = []; result = nothing_grouped (length candidates) })
