-- ===== src/Cve/Records.antt =====
-- The rows of src/db/repositories/cve-case.repository.ts. A `BIGSERIAL` id is its number, a
-- `TIMESTAMPTZ` a number of milliseconds, and a `JSONB` column the JSON value that it holds.
use ai_event_intelligence_ag.Base.{ℕ, String, Bool, true, false, Option}
use ai_event_intelligence_ag.StableJson.{Json}

pub data CaseStatus : Type 0 where
  draft approved : CaseStatus

pub data LifecycleState : Type 0 where
  mentioned automated_relevant human_confirmed human_rejected human_uncertain : LifecycleState

pub data SourceName : Type 0 where
  nvd kev epss : SourceName

pub data SourceStatus : Type 0 where
  ok not_found no_score failed transient_failure : SourceStatus

pub data AttemptKind : Type 0 where
  initial maintenance_nvd maintenance_kev maintenance_epss : AttemptKind

pub data TickStatus : Type 0 where
  ok failed transient_failure skipped : TickStatus

pub data ReviewEventKind : Type 0 where
  human_verdict approval auto_revert unapproval : ReviewEventKind

-- What `from_state` and `to_state` of a review event name: a case's status or a link's state.
pub data ReviewState : Type 0 where
  status : CaseStatus → ReviewState
  link : LifecycleState → ReviewState

pub record CveCase : Type 0 where
  pub id : ℕ
  pub cve_id : String
  pub status : CaseStatus
  pub first_seen_at : ℕ
  pub first_seen_article_id : Option ℕ
  pub last_enriched_at : Option ℕ
  pub approved_at : Option ℕ
  pub approved_by_actor : Option String
  pub reverted_at : Option ℕ
  pub reverted_by_actor : Option String
  pub created_at : ℕ
  pub updated_at : ℕ

pub record CaseArticle : Type 0 where
  pub id : ℕ
  pub case_id : ℕ
  pub article_id : ℕ
  pub lifecycle_state : LifecycleState
  pub evidence : Json
  pub first_evidence : Option Json
  pub automated_task_id : Option ℕ
  pub created_at : ℕ
  pub updated_at : ℕ

pub record Observation : Type 0 where
  pub id : ℕ
  pub case_id : ℕ
  pub source : SourceName
  pub status : SourceStatus
  pub normalized_value : Option Json
  pub provenance : Option String
  pub retrieved_at : ℕ
  pub attempt_kind : AttemptKind
  pub last_error : Option String
  pub created_at : ℕ

pub record ReviewEvent : Type 0 where
  pub id : ℕ
  pub case_id : ℕ
  pub case_article_id : Option ℕ
  pub actor : String
  pub event_kind : ReviewEventKind
  pub from_state : Option ReviewState
  pub to_state : Option ReviewState
  pub reason : Option String
  pub payload : Json
  pub created_at : ℕ

pub record RefreshState : Type 0 where
  pub source : SourceName
  pub cursor_value : Option String
  pub last_tick_started_at : Option ℕ
  pub last_tick_completed_at : Option ℕ
  pub last_tick_status : Option TickStatus
  pub last_tick_cases_observed : ℕ
  pub last_tick_observations_appended : ℕ
  pub last_error : Option String
  pub updated_at : ℕ

abbrev pub source_eq : SourceName → SourceName → Bool
source_eq nvd nvd = true
source_eq kev kev = true
source_eq epss epss = true
source_eq _ _ = false

abbrev pub is_approved : CaseStatus → Bool
is_approved approved = true
is_approved draft = false

abbrev pub is_confirmed : LifecycleState → Bool
is_confirmed human_confirmed = true
is_confirmed _ = false

abbrev pub lifecycle_eq : LifecycleState → LifecycleState → Bool
lifecycle_eq mentioned mentioned = true
lifecycle_eq automated_relevant automated_relevant = true
lifecycle_eq human_confirmed human_confirmed = true
lifecycle_eq human_rejected human_rejected = true
lifecycle_eq human_uncertain human_uncertain = true
lifecycle_eq _ _ = false

-- `isTerminalStatus` of src/cve/enrichment.ts, and `status IN ('ok', 'not_found', 'no_score')`.
abbrev pub is_terminal_status : SourceStatus → Bool
is_terminal_status ok = true
is_terminal_status not_found = true
is_terminal_status no_score = true
is_terminal_status failed = false
is_terminal_status transient_failure = false
