-- ===== src/Events/Grouping.antt =====
-- src/events/grouping-decision.ts and src/events/event-grouper.ts: whether an article joins an event or
-- starts one, and what the new event says. Distances and confidences are counts of 10⁻⁹. The lower case
-- of a text is a parameter.
use Prim.Native.String.{◌++◌ as text_append}
use ai_event_intelligence_ag.Base.{
  ℕ, String, Bool, true, false, not, ◌||◌, Option, none, some, List, [], ◌∷◌, ◌++◌, if◌then◌else◌,
  ◌or_else◌, leb, str_eq, map, keep, any, join,
}
use ai_event_intelligence_ag.Base.Text.{trim, collapse, is_empty, first_units}
use ai_event_intelligence_ag.Base.Sort.{sort, take}
use ai_event_intelligence_ag.Base.TextOrder.{str_leb}
use ai_event_intelligence_ag.Cve.Consolidation.{distinct}
use ai_event_intelligence_ag.Events.Records.{Article, CyberEvent}

abbrev pub embedding_attach_distance : ℕ
embedding_attach_distance = 150000000

abbrev pub embedding_uncertain_distance : ℕ
embedding_uncertain_distance = 350000000

-- `SimilarEvent`
pub record SimilarEvent : Type 0 where
  pub event : CyberEvent
  pub distance : ℕ

pub data GroupingMethod : Type 0 where
  by_grouping_key by_embedding by_llm_comparator no_match : GroupingMethod

-- `GroupingDecision`
pub data GroupingDecision : Type 0 where
  attach :
      (event : CyberEvent) (relationship : String) (confidence : ℕ) (is_material_update : Bool)
      (method : GroupingMethod)
      → GroupingDecision
  create : GroupingMethod → GroupingDecision
  uncertain : SimilarEvent → GroupingDecision

-- `decideEventGrouping`
unfoldable pub decide_event_grouping :
    String → Option CyberEvent → List SimilarEvent → GroupingDecision
decide_event_grouping grouping_key key_match similar_events =
    let by_distance : GroupingDecision = elim similar_events [
      | [] ↦ create no_match
      | best ∷ _ ↦
          if leb best.distance embedding_attach_distance
          then attach best.event "same_event_new_source" 750000000 false by_embedding
          else if leb best.distance embedding_uncertain_distance
          then uncertain best
          else create no_match
    ] in
    elim key_match [
      | none ↦ by_distance
      | some event ↦
          if str_eq grouping_key "unknown"
          then by_distance
          else attach event "same_event_new_source" 900000000 false by_grouping_key
    ]

pub data ComparedRelationship : Type 0 where
  same_event related_but_different_event unrelated : ComparedRelationship

-- `EventComparison`, without the rationale.
pub record EventComparison : Type 0 where
  pub relationship : ComparedRelationship
  pub confidence : ℕ
  pub is_material_update : Bool

-- `applyComparison`
unfoldable pub apply_comparison : SimilarEvent → EventComparison → GroupingDecision
apply_comparison candidate comparison = elim comparison.relationship [
  | same_event ↦
      attach candidate.event
        (if comparison.is_material_update
          then "same_event_material_update"
          else "same_event_new_source")
        comparison.confidence comparison.is_material_update by_llm_comparator
  | _ ↦ create by_llm_comparator
]

-- `ArticleEntityRecord`
pub record ArticleEntity : Type 0 where
  pub article_id : ℕ
  pub entity_type : String
  pub entity_value : String
  pub confidence : Option ℕ

pub record EventDraft : Type 0 where
  pub title : String
  pub summary : String
  pub affected_vendors : List String
  pub affected_products : List String
  pub cves : List String
  pub attack_types : List String
  pub severity : String
  pub urgency : String
  pub grouping_key : String

abbrev pub is_nonempty {ℓ} : {A : Type ℓ} → List A → Bool
is_nonempty [] = false
is_nonempty (x ∷ xs) = true

-- `a || b` on a nullable text
abbrev pub nonempty_or : Option String → String → String
nonempty_or none other = other
nonempty_or (some s) other = if is_empty s then other else s

-- `valuesByType`
unfoldable pub values_by_type : List ArticleEntity → String → List String
values_by_type entities type =
    distinct
      (map (λ (e : ArticleEntity). e.entity_value) (keep (λ e. str_eq e.entity_type type) entities))

abbrev pub severe_attack_types : List String
severe_attack_types = "active exploitation" ∷ "zero-day" ∷ "ransomware" ∷ "breach" ∷ []

abbrev pub is_severe : List String → Bool
is_severe types = any (λ type. any (str_eq type) severe_attack_types) types

module _ (to_lower_case : String → String) where
  -- `normalizeKeyPart`
  abbrev pub normalize_key_part : String → String
  normalize_key_part value = collapse false (to_lower_case (trim value))

  -- `.map(normalizeKeyPart).sort().join('|')`
  abbrev pub joined_key : List String → String
  joined_key values = join "|" (sort str_leb (map normalize_key_part values))

  -- `buildEventGroupingKey`
  unfoldable pub build_event_grouping_key :
      List String → List String → List String → List String → String
  build_event_grouping_key vendors products cves attack_types =
      if is_nonempty cves
      then text_append "cve:" (joined_key cves)
      else (let parts = joined_key (vendors ++ products) ∷ joined_key attack_types ∷ [] in
          nonempty_or (some (join "::" (keep (λ s. not (is_empty s)) parts))) "unknown")

  -- `buildEventDraft`, with MIN_EVENT_ENTITY_CONFIDENCE
  unfoldable pub build_event_draft : Article → List ArticleEntity → EventDraft
  build_event_draft article entities =
      let trusted = keep (λ (e : ArticleEntity). leb 500000000 (e.confidence or_else 0)) entities in
      let vendors = values_by_type trusted "vendor" in
      let products = values_by_type trusted "product" in
      let cves = values_by_type trusted "cve" in
      let attack_types = values_by_type trusted "attack_type" in
      let subject =
        nonempty_or (some (join " / " (take 3 (vendors ++ products ++ cves))))
          "Unknown cyber event" in
      let title =
        text_append subject
          (if is_nonempty cves then " vulnerability report" else " cyber report") in
      let severe = is_severe attack_types in
      record {
        title = title;
        summary =
            nonempty_or
              (elim article.clean_text [ none ↦ none | some text ↦ some (first_units 500 text) ])
              (nonempty_or article.rss_summary (nonempty_or article.title title));
        affected_vendors = vendors;
        affected_products = products;
        cves = cves;
        attack_types = attack_types;
        severity = if severe || is_nonempty cves then "high" else "medium";
        urgency = if severe then "P1" else if is_nonempty cves then "P2" else "P3";
        grouping_key = build_event_grouping_key vendors products cves attack_types;
      }
