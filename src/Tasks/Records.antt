-- ===== src/Tasks/Records.antt =====
-- The rows of src/db/repositories/analysis-task.repository.ts and llm-audit.repository.ts. A `BIGINT` is
-- its number and a `TIMESTAMPTZ` a number of milliseconds.
use ai_event_intelligence_ag.Base.{ℕ, String, Bool, true, false, Option, List}
use ai_event_intelligence_ag.StableJson.{Json}

pub data TaskStatus : Type 0 where
  pending running completed needs_attention : TaskStatus

pub record Task : Type 0 where
  pub id : ℕ
  pub target_type : String
  pub target_id : ℕ
  pub task_name : String
  pub status : TaskStatus
  pub attempts : ℕ
  pub max_attempts : ℕ
  pub next_attempt_at : Option ℕ
  pub input_payload : Json
  pub result : Option Json
  pub prompt_version : Option String
  pub model : Option String
  pub last_error : Option String
  pub completed_at : Option ℕ
  pub created_at : ℕ
  pub updated_at : ℕ

-- `AnalysisTaskInput`
pub record TaskInput : Type 0 where
  pub target_type : String
  pub target_id : ℕ
  pub task_name : String
  pub input_payload : Option Json
  pub max_attempts : Option ℕ
  pub next_attempt_at : Option ℕ
  pub prompt_version : Option String
  pub model : Option String

-- `LlmAuditInput`
pub record AuditRow : Type 0 where
  pub target_type : String
  pub target_id : ℕ
  pub task_name : String
  pub model : String
  pub prompt_version : String
  pub request_json : Json
  pub response_json : Json
  pub valid : Bool  -- `validation_status` is 'valid', or else 'error'
  pub error_message : Option String

-- The tables that the stage reads and writes, newest row first, and the clock of the database.
pub record TaskDb : Type 0 where
  pub now : ℕ
  pub articles : List ℕ
  pub mentions : List (ℕ × String)  -- article and CVE id, as listCveMentionsByArticle orders them
  pub tasks : List Task
  pub next_task_id : ℕ
  pub audit : List AuditRow

abbrev pub is_pending : TaskStatus → Bool
is_pending pending = true
is_pending _ = false

abbrev pub is_running : TaskStatus → Bool
is_running running = true
is_running _ = false

abbrev pub is_completed : TaskStatus → Bool
is_completed completed = true
is_completed _ = false

abbrev pub is_needs_attention : TaskStatus → Bool
is_needs_attention needs_attention = true
is_needs_attention _ = false

abbrev pub task_key : Task → ℕ
task_key t = t.id
