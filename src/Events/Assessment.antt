-- ===== src/Events/Assessment.antt =====
-- src/events/event-assessment.ts: how the classification of an article changes its events, and the part of
-- src/pipeline/classification-stage.ts that applies it. Confidences are counts of 10⁻⁹; four tenths of one
-- are rounded down.
use ai_event_intelligence_ag.Base.{
  ℕ, ◌≡◌, ◌≤◌, ◌+◌, ◌-◌, ◌*◌, ◌/◌, ◌==◌, String, Bool, ◌&&◌, Option, none, some, List, [], ◌∷◌,
  arith, if◌then◌else◌, ◌or_else◌, ltb, str_eq, keep, any, length, min, max,
}
use ai_event_intelligence_ag.Events.Records.{CyberEvent, EventArticle, EventDb}
use ai_event_intelligence_ag.Events.Store.{EventAssessment, find_event, update_event_assessment}

-- What the roll-up reads of a `CyberClassification`.
pub record Classification : Type 0 where
  pub cyber_relevant : Bool
  pub severity : String
  pub urgency : String
  pub confidence : ℕ

-- A rank counted from one, and zero for a text that has none.
abbrev pub rank_in : List String → String → ℕ
rank_in [] s = 0
rank_in (t ∷ more) s = let rest = rank_in more s in if str_eq t s then 1 + length more else rest

-- SEVERITY_RANK and URGENCY_RANK, the highest first
abbrev pub severity_rank : List String
severity_rank = "critical" ∷ "high" ∷ "medium" ∷ "low" ∷ []

abbrev pub urgency_rank : List String
urgency_rank = "P1" ∷ "P2" ∷ "P3" ∷ "P4" ∷ []

abbrev pub current_rank : List String → Option String → ℕ
current_rank ranks none = 0
current_rank ranks (some s) = rank_in ranks s

abbrev pub incoming_rank : List String → String → String → ℕ
incoming_rank ranks s fallback =
    let own = rank_in ranks s in if own == 0 then rank_in ranks fallback else own

-- `maxByRank`
unfoldable pub max_by_rank : Option String → String → List String → String → String
max_by_rank current incoming ranks fallback =
    if ltb (current_rank ranks current) (incoming_rank ranks incoming fallback)
    then incoming
    else current or_else incoming

-- `rollUpEventAssessment`
unfoldable pub roll_up_event_assessment : CyberEvent → Classification → ℕ → EventAssessment
roll_up_event_assessment event c source_count = record {
  severity = max_by_rank event.severity c.severity severity_rank "medium";
  urgency = max_by_rank event.urgency c.urgency urgency_rank "P3";
  confidence =
      if c.cyber_relevant
      then max
          (min 950000000 (350000000 + c.confidence * 4 / 10 + 100000000 * min (source_count - 1) 3))
          (event.confidence or_else 0)
      else min (event.confidence or_else 200000000) 200000000;
}

-- `listEventsForArticle` and `getSourceCount`
abbrev pub list_events_for_article : EventDb → ℕ → List CyberEvent
list_events_for_article db article_id =
    keep
      (λ (e : CyberEvent).
        any (λ (l : EventArticle). l.event_id == e.id && l.article_id == article_id)
          db.event_articles)
      db.events

abbrev pub get_source_count : EventDb → ℕ → ℕ
get_source_count db event_id = elim (find_event db event_id) [ none ↦ 0 | some e ↦ e.source_count ]

-- The loop over the events of a classified article.
unfoldable pub assess_events : Classification → List CyberEvent → EventDb → EventDb
assess_events c [] db = db
assess_events c (e ∷ rest) db =
    assess_events c rest
      (update_event_assessment db e.id (roll_up_event_assessment e c (get_source_count db e.id)))

abbrev pub assess_article : EventDb → ℕ → Classification → EventDb
assess_article db article_id c = assess_events c (list_events_for_article db article_id) db

max_by_rank_rises :
    (current : Option String) (incoming : String) (ranks : List String) (fallback : String)
    → 1 ≤ rank_in ranks incoming
    → rank_in ranks (max_by_rank current incoming ranks fallback)
      ≡ max (current_rank ranks current) (rank_in ranks incoming)
unfolding max_by_rank
max_by_rank_rises none incoming ranks fallback known = ground arith
max_by_rank_rises (some s) incoming ranks fallback known = ground arith

-- For a classification with a severity and an urgency of the schema, the rank of an event's new severity is
-- the higher of its old one and the incoming one, and so is that of its urgency. A relevant classification
-- lowers no confidence and raises none above 0.95, and one more source never lowers the result; one that
-- is not relevant leaves at most 0.2 and at most what was there.
pub roll_up_event_assessment-max_by_rank :
    (event : CyberEvent) (c : Classification) (n : ℕ)
    → 1 ≤ rank_in severity_rank c.severity
    → 1 ≤ rank_in urgency_rank c.urgency
    → let a = roll_up_event_assessment event c n in
      let before = event.confidence or_else 0 in
      (rank_in severity_rank a.severity
        ≡ max (current_rank severity_rank event.severity) (rank_in severity_rank c.severity))
      × (rank_in urgency_rank a.urgency
          ≡ max (current_rank urgency_rank event.urgency) (rank_in urgency_rank c.urgency))
      × ((if c.cyber_relevant then before else a.confidence) ≤ a.confidence)
      × (a.confidence ≤ (
          if c.cyber_relevant
          then max 950000000 before
          else min 200000000 (event.confidence or_else 200000000)))
      × (a.confidence ≤ (roll_up_event_assessment event c (n + 1)).confidence)
unfolding roll_up_event_assessment
roll_up_event_assessment-max_by_rank event c n severity urgency = (
  max_by_rank_rises event.severity c.severity severity_rank "medium" severity,
  max_by_rank_rises event.urgency c.urgency urgency_rank "P3" urgency,
  ground arith,
  ground arith,
  ground arith,
)
