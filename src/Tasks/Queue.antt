-- ===== src/Tasks/Queue.antt =====
-- The queries of src/db/repositories/analysis-task.repository.ts that change rows, and those by which
-- the stage reads them.
pub mod Claim
pub mod Attempts
use mathlib.Core.Option
use ai_event_intelligence_ag.Base.{
  ℕ, ◌+◌, ◌*◌, String, Bool, true, false, ◌&&◌, ◌||◌, Option, none, some, List, [], ◌∷◌, ◌==◌,
  str_eq, ltb, leb, if◌then◌else◌, ◌or_else◌, coalesce, find, keep,
}
use ai_event_intelligence_ag.Base.Table.{find_by, update_by, update_where}
use ai_event_intelligence_ag.StableJson.{Json, obj, end}
use ai_event_intelligence_ag.StableJson.Jsonb.{to_jsonb}
use ai_event_intelligence_ag.Tasks.Records.{
  Task, TaskInput, TaskDb, TaskStatus, pending, running, completed, needs_attention, is_pending,
  is_completed, is_needs_attention, task_key,
}

-- DEFAULT_ANALYSIS_TASK_MAX_ATTEMPTS
abbrev pub default_max_attempts : ℕ
default_max_attempts = 5

-- The row of UNIQUE (target_type, target_id, task_name).
abbrev pub is_task : String → ℕ → String → Task → Bool
is_task target_type target_id name t =
    str_eq t.target_type target_type && t.target_id == target_id && str_eq t.task_name name

abbrev pub find_task : TaskDb → String → ℕ → String → Option Task
find_task db target_type target_id name = find (is_task target_type target_id name) db.tasks

abbrev pub payload_of : TaskInput → Json
payload_of i = to_jsonb (i.input_payload or_else obj end)

abbrev pub new_task : TaskDb → TaskInput → Task
new_task db i = record {
  id = db.next_task_id;
  target_type = i.target_type;
  target_id = i.target_id;
  task_name = i.task_name;
  status = pending;
  attempts = 0;
  max_attempts = i.max_attempts or_else default_max_attempts;
  next_attempt_at = i.next_attempt_at;
  input_payload = payload_of i;
  result = none;
  prompt_version = i.prompt_version;
  model = i.model;
  last_error = none;
  completed_at = none;
  created_at = db.now;
  updated_at = db.now;
}

-- ON CONFLICT DO UPDATE; the status stays.
abbrev pub refresh_row : ℕ → TaskInput → Task → Task
refresh_row now i t = record t {
  input_payload = payload_of i;
  next_attempt_at = coalesce i.next_attempt_at t.next_attempt_at;
  prompt_version = coalesce i.prompt_version t.prompt_version;
  model = coalesce i.model t.model;
  updated_at = now;
}

-- `upsertPending`: a conflicting row is refreshed only if it needs attention.
unfoldable pub upsert_pending : TaskDb → TaskInput → TaskDb
upsert_pending db i =
    let used = record db { next_task_id = db.next_task_id + 1 } in
    elim (find_task db i.target_type i.target_id i.task_name) [
      | none ↦ record used { tasks = new_task db i ∷ db.tasks }
      | some t ↦
          if is_needs_attention t.status
          then record used {
            tasks =
                update_where (is_task i.target_type i.target_id i.task_name) (refresh_row db.now i)
                  db.tasks;
          }
          else used
    ]

-- next_attempt_at IS NULL OR next_attempt_at <= now
abbrev pub is_due : ℕ → Option ℕ → Bool
is_due now none = true
is_due now (some time) = leb time now

abbrev pub is_ready : ℕ → String → Task → Bool
is_ready now name t = str_eq t.task_name name && is_pending t.status && is_due now t.next_attempt_at

-- ORDER BY next_attempt_at ASC NULLS FIRST, id ASC
abbrev pub due_before : Option ℕ → ℕ → Option ℕ → ℕ → Bool
due_before none i none j = leb i j
due_before none i (some t) j = true
due_before (some s) i none j = false
due_before (some s) i (some t) j = ltb s t || (s == t && leb i j)

abbrev pub comes_before : Task → Task → Bool
comes_before a b = due_before a.next_attempt_at a.id b.next_attempt_at b.id

abbrev pub earlier : Task → Option Task → Task
earlier t none = t
earlier t (some u) = if comes_before t u then t else u

-- The first of the ready rows in that order.
abbrev pub next_ready : (Task → Bool) → List Task → Option Task
next_ready p [] = none
next_ready p (t ∷ rows) =
    let rest = next_ready p rows in if p t then some (earlier t rest) else rest

abbrev pub start_row : ℕ → Task → Task
start_row now t = record t { status = running; updated_at = now }

-- `claimNextReadyTask`
unfoldable pub claim_next_ready_task : TaskDb → String → TaskDb × Option Task
claim_next_ready_task db name = elim (next_ready (is_ready db.now name) db.tasks) [
  | none ↦ (db, none)
  | some t ↦ (
    record db { tasks = update_by task_key t.id (start_row db.now) db.tasks },
    some (start_row db.now t),
  )
]

abbrev pub set_task : ℕ → (Task → Task) → TaskDb → TaskDb
set_task task_id f db = record db { tasks = update_by task_key task_id f db.tasks }

abbrev pub find_task_by_id : TaskDb → ℕ → Option Task
find_task_by_id db task_id = find_by task_key task_id db.tasks

abbrev pub success_row : ℕ → Json → Task → Task
success_row now answer t = record t {
  status = completed;
  result = some (to_jsonb answer);
  attempts = t.attempts + 1;
  last_error = none;
  completed_at = some now;
  updated_at = now;
}

-- `recordSuccess`
unfoldable pub record_success : TaskDb → ℕ → Json → TaskDb
record_success db task_id answer = set_task task_id (success_row db.now answer) db

abbrev pub failure_row : ℕ → String → ℕ → Task → Task
failure_row now error backoff_seconds t =
    let spent = leb t.max_attempts (t.attempts + 1) in
    record t {
      attempts = t.attempts + 1;
      last_error = some error;
      status = if spent then needs_attention else pending;
      next_attempt_at = if spent then none else some (now + 1000 * backoff_seconds);
      updated_at = now;
    }

-- `recordFailure`, with the status that RETURNING hands back.
unfoldable pub record_failure : TaskDb → ℕ → String → ℕ → TaskDb × TaskStatus
record_failure db task_id error backoff_seconds =
    let next = set_task task_id (failure_row db.now error backoff_seconds) db in
    (next, Option.map (λ (t : Task). t.status) (find_task_by_id next task_id) or_else pending)

abbrev pub retry_row : ℕ → Task → Task
retry_row now t = record t { status = pending; next_attempt_at = some now; updated_at = now }

-- WHERE id = $1 AND status = 'needs_attention'
abbrev pub needs_attention_with_id : ℕ → Task → Bool
needs_attention_with_id task_id t = t.id == task_id && is_needs_attention t.status

-- `retry`; GREATEST(attempts, 0) is the attempts.
unfoldable pub retry : ℕ → TaskDb → TaskDb
retry task_id db = record db {
  tasks = update_where (needs_attention_with_id task_id) (retry_row db.now) db.tasks;
}

abbrev pub complete_row : ℕ → Json → Task → Task
complete_row now answer t = record t {
  status = completed;
  result = some (to_jsonb answer);
  completed_at = some now;
  last_error = none;
  updated_at = now;
}

-- `completeManually`
unfoldable pub complete_manually : ℕ → Json → TaskDb → TaskDb
complete_manually task_id answer db = record db {
  tasks = update_where (needs_attention_with_id task_id) (complete_row db.now answer) db.tasks;
}

-- `listForTarget`, without its order: a target has one row of a name.
abbrev pub list_for_target : TaskDb → String → ℕ → List Task
list_for_target db target_type target_id =
    keep (λ t. str_eq t.target_type target_type && t.target_id == target_id) db.tasks
