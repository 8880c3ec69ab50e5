-- ===== src/Events/Store.antt =====
-- The statements of src/db/repositories/event.repository.ts that write events and their articles, and
-- those that look them up by a key. A statement reads the clock of its transaction as `now`.
use ai_event_intelligence_ag.Base.{
  ℕ, ◌+◌, ◌==◌, String, Bool, true, false, not, ◌&&◌, Option, none, some, List, ◌∷◌, if◌then◌else◌,
  str_eq, length, find, keep, is_some,
}
use ai_event_intelligence_ag.Base.Table.{find_by, update_by, update_where}
use ai_event_intelligence_ag.Events.Records.{
  Article, CyberEvent, EventArticle, EventDb, Outcome, PublicationStatus, draft, returned, thrown,
  event_not_found, not_attached, foreign_key_violation, article_key, event_key,
}

-- `CreateEventInput`
pub record CreateEventInput : Type 0 where
  pub event_title : String
  pub grouping_key : Option String
  pub event_summary : Option String
  pub severity : Option String
  pub urgency : Option String
  pub confidence : Option ℕ
  pub affected_vendors : List String
  pub affected_products : List String
  pub cves : List String
  pub attack_types : List String

abbrev pub new_event : EventDb → CreateEventInput → CyberEvent
new_event db i = record {
  id = db.next_event_id;
  grouping_key = i.grouping_key;
  event_title = some i.event_title;
  event_summary = i.event_summary;
  event_status = "open";
  publication_status = draft;
  severity = i.severity;
  urgency = i.urgency;
  confidence = i.confidence;
  first_seen_at = some db.now;
  last_seen_at = some db.now;
  affected_vendors = i.affected_vendors;
  affected_products = i.affected_products;
  cves = i.cves;
  attack_types = i.attack_types;
  source_count = 0;
  summary_stale = false;
  event_embedding = none;
  event_embedding_model = none;
  event_embedding_retry_count = 0;
  event_embedding_error = none;
  updated_at = db.now;
}

-- `createEvent`
unfoldable pub create_event : EventDb → CreateEventInput → EventDb × CyberEvent
create_event db i = (
  record db { next_event_id = db.next_event_id + 1; events = new_event db i ∷ db.events },
  new_event db i,
)

-- `findById`
abbrev pub find_event : EventDb → ℕ → Option CyberEvent
find_event db event_id = find_by event_key event_id db.events

abbrev pub find_article : EventDb → ℕ → Option Article
find_article db article_id = find_by article_key article_id db.articles

abbrev pub is_link : ℕ → ℕ → EventArticle → Bool
is_link event_id article_id l = l.event_id == event_id && l.article_id == article_id

abbrev pub find_link : EventDb → ℕ → ℕ → Option EventArticle
find_link db event_id article_id = find (is_link event_id article_id) db.event_articles

-- SELECT count(*) FROM event_articles WHERE event_id = $1
abbrev pub count_links : ℕ → List EventArticle → ℕ
count_links event_id links = length (keep (λ (l : EventArticle). l.event_id == event_id) links)

abbrev pub set_event : ℕ → (CyberEvent → CyberEvent) → EventDb → EventDb
set_event event_id f db = record db { events = update_by event_key event_id f db.events }

-- UPDATE … RETURNING: throws where no row has the id.
abbrev pub update_returning : EventDb → ℕ → (CyberEvent → CyberEvent) → EventDb × Outcome CyberEvent
update_returning db event_id f = elim (find_event db event_id) [
  | none ↦ (db, thrown (event_not_found event_id))
  | some e ↦ (set_event event_id f db, returned (f e))
]

-- `setPublicationStatus`
unfoldable pub set_publication_status :
    EventDb → ℕ → PublicationStatus → EventDb × Outcome CyberEvent
set_publication_status db event_id status =
    update_returning db event_id λ e. record e { publication_status = status; updated_at = db.now }

pub record EventFields : Type 0 where
  pub event_title : String
  pub event_summary : Option String
  pub severity : Option String
  pub urgency : Option String
  pub affected_vendors : List String
  pub affected_products : List String
  pub cves : List String
  pub attack_types : List String

-- `updateEventFields`
unfoldable pub update_event_fields : EventDb → ℕ → EventFields → EventDb × Outcome CyberEvent
update_event_fields db event_id fields = update_returning db event_id λ e. record e {
  event_title = some fields.event_title;
  event_summary = fields.event_summary;
  severity = fields.severity;
  urgency = fields.urgency;
  affected_vendors = fields.affected_vendors;
  affected_products = fields.affected_products;
  cves = fields.cves;
  attack_types = fields.attack_types;
  updated_at = db.now;
}

pub record EventAssessment : Type 0 where
  pub severity : String
  pub urgency : String
  pub confidence : ℕ

-- `updateEventAssessment`
unfoldable pub update_event_assessment : EventDb → ℕ → EventAssessment → EventDb
update_event_assessment db event_id assessment =
    set_event event_id
      (λ e. record e {
        severity = some assessment.severity;
        urgency = some assessment.urgency;
        confidence = some assessment.confidence;
        updated_at = db.now;
      })
      db

-- The input of `attachArticle`.
pub record AttachInput : Type 0 where
  pub event_id : ℕ
  pub article_id : ℕ
  pub relationship : String
  pub confidence : Option ℕ
  pub is_primary_source : Bool
  pub is_material_update : Bool

abbrev pub new_link : EventDb → AttachInput → EventArticle
new_link db i = record {
  id = db.next_link_id;
  event_id = i.event_id;
  article_id = i.article_id;
  relationship = i.relationship;
  confidence = i.confidence;
  is_primary_source = i.is_primary_source;
  is_material_update = i.is_material_update;
  created_at = db.now;
}

abbrev pub relink_row : AttachInput → EventArticle → EventArticle
relink_row i l = record l {
  relationship = i.relationship;
  confidence = i.confidence;
  is_material_update = i.is_material_update;
}

-- The UPDATE of cyber_events in `attachArticle`.
abbrev pub attached_row : ℕ → List EventArticle → String → CyberEvent → CyberEvent
attached_row now links relationship e = record e {
  source_count = count_links e.id links;
  last_seen_at = some now;
  updated_at = now;
  summary_stale =
      if str_eq relationship "same_event_material_update" then true else e.summary_stale;
}

-- The UPDATE of cyber_events in `detachArticle`.
abbrev pub detached_row : ℕ → List EventArticle → CyberEvent → CyberEvent
detached_row now links e = record e { source_count = count_links e.id links; updated_at = now }

-- The event's row after its links became the given ones.
abbrev pub relinked : AttachInput → List EventArticle → EventDb → EventDb
relinked i links db = record db {
  next_link_id = db.next_link_id + 1;
  event_articles = links;
  events = update_by event_key i.event_id (attached_row db.now links i.relationship) db.events;
}

-- `attachArticle`: on a link that is there the two flags of the first attachment stay. A link to an event
-- or an article that does not exist is refused by the foreign keys.
unfoldable pub attach_article : EventDb → AttachInput → EventDb × Outcome Unit
attach_article db i = elim (find_link db i.event_id i.article_id) [
  | some l ↦ (
    relinked i (update_where (is_link i.event_id i.article_id) (relink_row i) db.event_articles) db,
    returned tt,
  )
  | none ↦
      if is_some (find_event db i.event_id) && is_some (find_article db i.article_id)
      then (relinked i (new_link db i ∷ db.event_articles) db, returned tt)
      else (record db { next_link_id = db.next_link_id + 1 }, thrown foreign_key_violation)
]

-- `detachArticle`
unfoldable pub detach_article : EventDb → ℕ → ℕ → EventDb × Outcome Unit
detach_article db event_id article_id =
    let left = keep (λ l. not (is_link event_id article_id l)) db.event_articles in
    elim (find_link db event_id article_id) [
      | none ↦ (db, thrown (not_attached event_id article_id))
      | some l ↦ (
        record db {
          event_articles = left;
          events = update_by event_key event_id (detached_row db.now left) db.events;
        },
        returned tt,
      )
    ]

-- `updateProcessingStatus` of src/db/repositories/article.repository.ts
unfoldable pub update_processing_status : EventDb → ℕ → String → Option String → EventDb
update_processing_status db article_id status error = record db {
  articles =
      update_by article_key article_id
        (λ a. record a { processing_status = status; processing_error = error }) db.articles;
}
