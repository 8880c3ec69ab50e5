-- ===== src/Tasks/Stage.antt =====
-- src/pipeline/analysis-task-stage.ts: the tasks of an article are scheduled, then each queue is
-- drained. What a language model answers for a claimed task, or the error it throws, is a parameter, and
-- so are the configured model's name and the list of the articles that are ready for analysis.
-- `runWithConcurrency` runs up to three tasks at a time; the tasks of a drain are different rows, and
-- they run here one after another. A task that throws ends one of its three workers, and the others go on
-- with the rest; `none` is the error that the drain then rejects with.
pub mod Loading
pub mod Drain
pub mod Returns
pub mod Schedule
pub mod Whole
use ai_event_intelligence_ag.Tasks.Inputs.{
  article_summary, article_disposition, article_cve_interpretation, article_input, article_payload,
  text_items, interpretation_payload, summary_input, disposition_input, interpretation_input,
  has_completed, is_text, says_actionable, is_actionable, mentioned_cves, is_empty,
}
use mathlib.Core.Option
use ai_event_intelligence_ag.Base.{
  ℕ, zero, suc, ◌+◌, String, Bool, true, false, ◌&&◌, not, Option, none, some, List, [], ◌∷◌, ◌==◌,
  str_eq, map, if◌then◌else◌, ◌or_else◌, find, keep, any, length, max, min,
}
use ai_event_intelligence_ag.StableJson.{
  Json, Items, null, num, str, arr, obj, nil, cons, end, field, units, member,
}
use ai_event_intelligence_ag.StableJson.Jsonb.{to_jsonb}
use ai_event_intelligence_ag.Cve.Consolidation.{distinct}
use ai_event_intelligence_ag.Tasks.Records.{
  Task, TaskInput, TaskDb, TaskStatus, AuditRow, is_completed, is_needs_attention,
}
use ai_event_intelligence_ag.Tasks.Queue.{
  upsert_pending, claim_next_ready_task, record_success, record_failure, list_for_target,
}

-- BACKOFF_SECONDS_BY_ATTEMPT
unfoldable pub backoff_for_attempt : ℕ → ℕ
backoff_for_attempt zero = 0
backoff_for_attempt (suc zero) = 30
backoff_for_attempt (suc (suc zero)) = 120
backoff_for_attempt (suc (suc (suc zero))) = 600
backoff_for_attempt _ = 1800

-- One conditional upsert, with the count of what is scheduled.
abbrev pub schedule_if : Bool → TaskInput → TaskDb × ℕ → TaskDb × ℕ
schedule_if true i (db, n) = (upsert_pending db i, n + 1)
schedule_if false i (db, n) = (db, n)

-- `scheduleTasksForArticle`; what is there is listed once, before the first write.
unfoldable pub schedule_tasks_for_article : String → TaskDb → ℕ → TaskDb × ℕ
schedule_tasks_for_article model db article_id =
    let existing = list_for_target db "article" article_id in
    let cve_ids = mentioned_cves db.mentions article_id in
    schedule_if
      (is_actionable existing
        && (not (is_empty cve_ids) && not (has_completed existing article_cve_interpretation)))
      (interpretation_input model article_id cve_ids)
      (schedule_if (not (has_completed existing article_disposition))
        (disposition_input model article_id)
        (schedule_if (not (has_completed existing article_summary)) (summary_input model article_id)
          (db, 0)))

unfoldable pub schedule_all : String → TaskDb → List ℕ → TaskDb × ℕ
schedule_all model db [] = (db, 0)
schedule_all model db (article_id ∷ rest) =
    let (next, n) = schedule_tasks_for_article model db article_id in
    let (last, m) = schedule_all model next rest in (last, n + m)

-- What the runner of a task returns or throws.
pub data Answer : Type 0 where
  answered : Json → Answer
  threw : String → Answer

abbrev pub Runner : Type 0
Runner = Task → Answer

-- The claims at the start of a drain: up to `max_tasks`, and none after the first that finds nothing.
unfoldable pub claim_up_to : ℕ → TaskDb → String → TaskDb × List Task
claim_up_to zero db name = (db, [])
claim_up_to (suc max_tasks) db name =
    let (next, got) = claim_next_ready_task db name in
    elim got [
      | none ↦ (next, [])
      | some t ↦ let (last, drained) = claim_up_to max_tasks next name in (last, t ∷ drained)
    ]

pub data Outcome : Type 0 where
  completed exhausted failed : Outcome

pub record DrainResult : Type 0 where
  pub completed : ℕ
  pub exhausted : ℕ
  pub failed : ℕ

abbrev pub tally : Outcome → DrainResult → DrainResult
tally Outcome.completed r = record r { completed = r.completed + 1 }
tally Outcome.exhausted r = record r { exhausted = r.exhausted + 1 }
tally Outcome.failed r = record r { failed = r.failed + 1 }

abbrev pub audit_row : String → Task → Json → Bool → Option String → AuditRow
audit_row model t response valid error = record {
  target_type = "article";
  target_id = t.target_id;
  task_name = t.task_name;
  model = t.model or_else model;
  prompt_version = t.prompt_version or_else "unknown";
  request_json =
      to_jsonb (obj (field "taskId" (num (units t.id)) (field "inputPayload" t.input_payload end)));
  response_json = to_jsonb response;
  valid = valid;
  error_message = error;
}

-- `LlmAuditRepository.insert`
abbrev pub insert_audit : AuditRow → TaskDb → TaskDb
insert_audit row db = record db { audit = row ∷ db.audit }

-- `loadArticleForTask`: whether there is an article to run on; `none` is the error that `findByIds` throws
-- for an article that is not there.
abbrev pub load_article_for_task : TaskDb → Task → Option Bool
load_article_for_task db t =
    if str_eq t.target_type "article"
    then (if any (λ a. a == t.target_id) db.articles then some true else none)
    else some false

abbrev pub failure_outcome : TaskStatus → Outcome
failure_outcome TaskStatus.needs_attention = Outcome.exhausted
failure_outcome _ = Outcome.failed

-- The worker of a drain, on one claimed task; the article is loaded outside its `try`.
unfoldable pub run_task : String → Runner → TaskDb → Task → TaskDb × Option Outcome
run_task model runner db t = elim (load_article_for_task db t) [
  | none ↦ (db, none)
  | some false ↦ ((record_failure db t.id "article not found" 30).0, some Outcome.failed)
  | some true ↦ elim (runner t) [
    | answered answer ↦ (
      insert_audit (audit_row model t answer true none) (record_success db t.id answer),
      some Outcome.completed,
    )
    | threw message ↦
        let (next, status) = record_failure db t.id message (backoff_for_attempt t.attempts) in
        (
          insert_audit (audit_row model t null false (some message)) next,
          some (failure_outcome status),
        )
  ]
]

-- `runWithConcurrency` with the workers that are left: without any, the rest stays as it was claimed.
unfoldable pub run_tasks :
    String → Runner → TaskDb → List Task → ℕ → DrainResult → TaskDb × Option DrainResult
run_tasks model runner db [] workers r = (db, some r)
run_tasks model runner db (t ∷ rest) zero r = (db, none)
run_tasks model runner db (t ∷ rest) (suc workers) r =
    let (next, outcome) = run_task model runner db t in
    elim outcome [
      | none ↦ ((run_tasks model runner next rest workers r).0, none)
      | some o ↦ run_tasks model runner next rest (suc workers) (tally o r)
    ]

-- `poolSize`
abbrev pub pool_size : ℕ → List Task → ℕ
pool_size concurrency drained = max 1 (min concurrency (length drained))

abbrev pub no_tasks : DrainResult
no_tasks = record { completed = 0; exhausted = 0; failed = 0 }

-- `drainTaskQueue`
unfoldable pub drain_task_queue :
    String → Runner → TaskDb → String → ℕ → TaskDb × Option DrainResult
drain_task_queue model runner db name max_tasks =
    let (claimed, drained) = claim_up_to max_tasks db name in
    run_tasks model runner claimed drained (pool_size 3 drained) no_tasks

pub record StageResult : Type 0 where
  pub articles_reviewed : ℕ
  pub tasks_scheduled : ℕ
  pub tasks_completed : ℕ
  pub tasks_exhausted : ℕ
  pub tasks_failed : ℕ

abbrev pub sum_up : ℕ → ℕ → DrainResult → DrainResult → DrainResult → StageResult
sum_up reviewed scheduled s d i = record {
  articles_reviewed = reviewed;
  tasks_scheduled = scheduled;
  tasks_completed = s.completed + d.completed + i.completed;
  tasks_exhausted = s.exhausted + d.exhausted + i.exhausted;
  tasks_failed = s.failed + d.failed + i.failed;
}

-- `runAnalysisTaskStage`, from the articles that are ready on; `runner` goes by the task's name. The two
-- drains of the first phase both run; the second phase does not begin where one of them threw.
unfoldable pub run_analysis_task_stage :
    String → (String → Runner) → TaskDb → List ℕ → ℕ → TaskDb × Option StageResult
run_analysis_task_stage model runner db ready max_tasks =
    let (first, n) = schedule_all model db ready in
    let (second, summaries) =
      drain_task_queue model (runner article_summary) first article_summary max_tasks in
    let (third, dispositions) =
      drain_task_queue model (runner article_disposition) second article_disposition max_tasks in
    elim summaries [
      | none ↦ (third, none)
      | some s ↦ elim dispositions [
        | none ↦ (third, none)
        | some d ↦
            let (fourth, m) = schedule_all model third ready in
            let (last, interpretations) =
              drain_task_queue model (runner article_cve_interpretation) fourth
                article_cve_interpretation max_tasks in
            (last, Option.map (λ i. sum_up (length ready) (n + m) s d i) interpretations)
      ]
    ]
