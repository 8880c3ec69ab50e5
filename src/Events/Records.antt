-- ===== src/Events/Records.antt =====
-- The rows of src/db/repositories/event.repository.ts and of the tables that it reads. A `BIGSERIAL`
-- id is its number, a `TIMESTAMPTZ` a number of milliseconds, a confidence a count of 10⁻⁹, and a
-- vector the literal that `vectorToSqlLiteral` writes for it.
use ai_event_intelligence_ag.Base.{ℕ, String, Bool, true, false, Option, List}
use ai_event_intelligence_ag.Alerts.{AlertTier}

pub data PublicationStatus : Type 0 where
  draft approved : PublicationStatus

abbrev pub is_approved : PublicationStatus → Bool
is_approved approved = true
is_approved draft = false

-- A row of `articles`.
pub record Article : Type 0 where
  pub id : ℕ
  pub source_name : Option String
  pub title : Option String
  pub title_hash : Option String
  pub content_hash : Option String
  pub rss_summary : Option String
  pub rss_categories : List String
  pub clean_text : Option String
  pub published_at : Option ℕ
  pub fetched_at : ℕ
  pub processing_status : String
  pub processing_error : Option String
  pub embedding : Option String
  pub embedding_model : Option String
  pub cheap_filter_decision : Option String
  pub cheap_filter_score : Option ℕ
  pub cheap_filter_reasons : List String
  pub cheap_filter_blocking_reasons : List String

-- A row of `cyber_events`.
pub record CyberEvent : Type 0 where
  pub id : ℕ
  pub grouping_key : Option String
  pub event_title : Option String
  pub event_summary : Option String
  pub event_status : String
  pub publication_status : PublicationStatus
  pub severity : Option String
  pub urgency : Option String
  pub confidence : Option ℕ
  pub first_seen_at : Option ℕ
  pub last_seen_at : Option ℕ
  pub affected_vendors : List String
  pub affected_products : List String
  pub cves : List String
  pub attack_types : List String
  pub source_count : ℕ
  pub summary_stale : Bool
  pub event_embedding : Option String
  pub event_embedding_model : Option String
  pub event_embedding_retry_count : ℕ
  pub event_embedding_error : Option String
  pub updated_at : ℕ

-- A row of `event_articles`.
pub record EventArticle : Type 0 where
  pub id : ℕ
  pub event_id : ℕ
  pub article_id : ℕ
  pub relationship : String
  pub confidence : Option ℕ
  pub is_primary_source : Bool
  pub is_material_update : Bool
  pub created_at : ℕ

-- A row of `alerts`.
pub record AlertRow : Type 0 where
  pub id : ℕ
  pub event_id : ℕ
  pub alert_status : String
  pub alert_tier : Option AlertTier
  pub alert_reason : String
  pub severity : Option String
  pub urgency : Option String
  pub suppressed : Bool
  pub suppression_reason : Option String
  pub sent_at : Option ℕ
  pub created_at : ℕ

pub record EventDb : Type 0 where
  pub now : ℕ
  pub next_event_id : ℕ
  pub next_link_id : ℕ
  pub next_alert_id : ℕ
  pub articles : List Article
  pub events : List CyberEvent
  pub event_articles : List EventArticle
  pub alerts : List AlertRow

abbrev pub article_key : Article → ℕ
article_key a = a.id

abbrev pub event_key : CyberEvent → ℕ
event_key e = e.id

-- What an operation may throw: an `Error` of the source, or the database's complaint about a row that
-- references another that is not there.
pub data EventError : Type 0 where
  event_not_found : ℕ → EventError
  article_not_found : ℕ → EventError
  not_attached : ℕ → ℕ → EventError
  no_vendor_or_product no_articles same_events foreign_key_violation : EventError

pub data Outcome (A : Type 0) : Type 0 where
  returned : A → Outcome A
  thrown : EventError → Outcome A
