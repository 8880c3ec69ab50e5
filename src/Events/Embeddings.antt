-- ===== src/Events/Embeddings.antt =====
-- The entities and the embeddings of articles and events: src/db/repositories/entity.repository.ts, the
-- searches of src/db/repositories/event.repository.ts and copyArticleEmbeddingToEvent of
-- src/embedding/lifecycle.ts.
use Prim.Native.String.{◌++◌}
use ai_event_intelligence_ag.Base.{
  ℕ, zero, suc, ◌+◌, ◌*◌, ◌/◌, ◌%◌, ◌==◌, String, Bool, true, false, ◌&&◌, Option, none, some, List,
  if◌then◌else◌, ltb, leb, str_eq, map, keep,
}
use ai_event_intelligence_ag.Base.Sort.{sort, take}
use ai_event_intelligence_ag.DateText.{digit}
use ai_event_intelligence_ag.Base.TextOrder.{str_leb}
use ai_event_intelligence_ag.Events.Records.{CyberEvent, EventDb}
use ai_event_intelligence_ag.Events.Store.{set_event, find_article}
use ai_event_intelligence_ag.Events.Queues.{has_text}
use ai_event_intelligence_ag.Events.Grouping.{ArticleEntity, SimilarEvent}

-- ORDER BY entity_type, entity_value
abbrev pub entity_before : ArticleEntity → ArticleEntity → Bool
entity_before a b =
    if str_eq a.entity_type b.entity_type
    then str_leb a.entity_value b.entity_value
    else str_leb a.entity_type b.entity_type

-- `listForArticle` of src/db/repositories/entity.repository.ts
unfoldable pub list_for_article : List ArticleEntity → ℕ → List ArticleEntity
list_for_article entities article_id =
    sort entity_before (keep (λ (e : ArticleEntity). e.article_id == article_id) entities)

-- `getEligibleEmbedding`
abbrev pub get_eligible_embedding : EventDb → String → ℕ → Option String
get_eligible_embedding db model article_id = elim (find_article db article_id) [
  | none ↦ none
  | some a ↦ if has_text model a.embedding_model then a.embedding else none
]

-- The WHERE of `findSimilarEvents`, without an excluded event: seen in the last 30 days.
abbrev pub is_comparable : ℕ → String → CyberEvent → Bool
is_comparable now model e = elim e.event_embedding [
  | none ↦ false
  | some _ ↦ elim e.last_seen_at [
    | none ↦ false
    | some seen ↦ has_text model e.event_embedding_model && ltb now (seen + 30 * 86400000)
  ]
]

abbrev pub measured : (String → String → ℕ) → String → CyberEvent → SimilarEvent
measured distance vector e = record {
  event = e;
  distance = elim e.event_embedding [ none ↦ 0 | some v ↦ distance v vector ];
}

abbrev pub closer : SimilarEvent → SimilarEvent → Bool
closer a b = leb a.distance b.distance

-- `findSimilarEvents`
unfoldable pub find_similar_events :
    EventDb → (String → String → ℕ) → String → String → ℕ → List SimilarEvent
find_similar_events db distance model vector limit =
    take limit
      (sort closer (map (measured distance vector) (keep (is_comparable db.now model) db.events)))

-- `saveEventEmbedding` and `recordEventEmbeddingFailure`
abbrev pub save_event_embedding : EventDb → ℕ → String → String → EventDb
save_event_embedding db event_id vector model =
    set_event event_id
      (λ e. record e {
        event_embedding = some vector;
        event_embedding_model = some model;
        event_embedding_retry_count = 0;
        event_embedding_error = none;
        updated_at = db.now;
      })
      db

abbrev pub record_event_embedding_failure : EventDb → ℕ → String → EventDb
record_event_embedding_failure db event_id message =
    set_event event_id
      (λ e. record e {
        event_embedding_retry_count = e.event_embedding_retry_count + 1;
        event_embedding_error = some message;
        updated_at = db.now;
      })
      db

-- A BIGINT in decimal: at most nineteen digits.
abbrev decimal_digits : ℕ → ℕ → String
decimal_digits zero n = ""
decimal_digits (suc more) n = elim (ltb n 10) [
  | true ↦ digit n
  | false ↦ decimal_digits more (n / 10) ++ digit (n % 10)
]

abbrev pub nat_text : ℕ → String
nat_text n = decimal_digits 19 n

-- The message that `copyArticleEmbeddingToEvent` throws with.
abbrev pub no_embedding_message : ℕ → ℕ → String
no_embedding_message article_id event_id =
    "Article "
    ++ (nat_text article_id
        ++ (" has no current-model embedding to copy to event " ++ nat_text event_id))

-- `copyArticleEmbeddingToEvent` of src/embedding/lifecycle.ts with the `catch` around it.
unfoldable pub copy_article_embedding : EventDb → String → ℕ → ℕ → EventDb
copy_article_embedding db model event_id article_id =
    elim (get_eligible_embedding db model article_id) [
      | none ↦ record_event_embedding_failure db event_id (no_embedding_message article_id event_id)
      | some vector ↦ save_event_embedding db event_id vector model
    ]
