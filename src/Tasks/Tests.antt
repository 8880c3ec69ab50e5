-- ===== src/Tasks/Tests.antt =====
-- A queue with one finished disposition and two waiting tasks, and the theorems on it.
use ai_event_intelligence_ag.Base.{
  ℕ, ◌+◌, ◌*◌, ◌≤◌, ◌≡◌, refl, ◌&&◌, ◌||◌, not, String, true, false, none, some, List, [], ◌∷◌,
  if◌then◌else◌, str_eq, leb, length, is_some,
}
use ai_event_intelligence_ag.StableJson.{str, obj, end, field}
use ai_event_intelligence_ag.Tasks.Records.{
  Task, TaskDb, pending, running, completed, needs_attention,
}
use ai_event_intelligence_ag.Tasks.Queue.{
  find_task, find_task_by_id, is_due, comes_before, start_row, claim_next_ready_task,
  list_for_target, upsert_pending, record_failure,
}
use ai_event_intelligence_ag.StableJson.Jsonb.{to_jsonb}
use ai_event_intelligence_ag.Cve.Consolidation.{distinct}
use ai_event_intelligence_ag.Tasks.Queue.Claim.{claim_next_ready_task-first}
use ai_event_intelligence_ag.Tasks.Queue.Attempts.{record_failures, record_failures-exhausts}
use ai_event_intelligence_ag.Tasks.Inputs.{
  article_summary, article_disposition, article_cve_interpretation, is_actionable, mentioned_cves,
  is_empty,
}
use ai_event_intelligence_ag.Tasks.Stage.{
  StageResult, threw, run_analysis_task_stage, schedule_all, schedule_tasks_for_article,
  drain_task_queue, claim_up_to, run_tasks, run_task, backoff_for_attempt,
}
use ai_event_intelligence_ag.Tasks.Stage.Whole.{
  run_analysis_task_stage-is_running_task, run_analysis_task_stage_bounds,
}
use ai_event_intelligence_ag.Tasks.Stage.Drain.{is_running_task}
use ai_event_intelligence_ag.Tasks.Stage.Schedule.{
  schedule_tasks_for_article_completed, schedule_tasks_for_article-is_some,
}

abbrev finished : Task
finished = record {
  id = 1;
  target_type = "article";
  target_id = 11;
  task_name = "article_disposition";
  status = completed;
  attempts = 1;
  max_attempts = 5;
  next_attempt_at = none;
  input_payload = obj end;
  result = some (obj (field "disposition" (str "actionable") end));
  prompt_version = none;
  model = none;
  last_error = none;
  completed_at = some 900;
  created_at = 800;
  updated_at = 900;
}

abbrev waiting : Task
waiting = record finished {
  id = 2;
  task_name = "article_summary";
  status = pending;
  attempts = 4;
  next_attempt_at = some 950;
  result = none;
  completed_at = none;
}

abbrev fresh : Task
fresh = record waiting { id = 3; target_id = 12; attempts = 0; next_attempt_at = none }

abbrev queue : TaskDb
queue = record {
  now = 1000;
  articles = 11 ∷ 12 ∷ [];
  mentions = (11, "CVE-2024-3400") ∷ [];
  tasks = fresh ∷ waiting ∷ finished ∷ [];
  next_task_id = 4;
  audit = [];
}

claims_fresh : (claim_next_ready_task queue "article_summary").1 ≡ some (start_row 1000 fresh)
unfolding claim_next_ready_task
claims_fresh = refl

claim_next_ready_task-first_example :
    (str_eq "article_summary" "article_summary" ≡ true)
    × (is_due 1000 none ≡ true)
    × (comes_before (start_row 1000 fresh) waiting ≡ true)
    × ((start_row 1000 fresh).status ≡ running)
claim_next_ready_task-first_example =
    claim_next_ready_task-first queue "article_summary" (start_row 1000 fresh) waiting 2
      claims_fresh refl refl

claims_nothing : (claim_next_ready_task queue "article_disposition").1 ≡ none
unfolding claim_next_ready_task
claims_nothing = refl

record_failures-exhausts_example :
    let failures : List (String × ℕ) = ("timeout", 1800) ∷ [] in
    (u : Task) × (find_task_by_id (record_failures queue 2 failures) 2 ≡ some u)
    × (u.attempts ≡ 4 + length failures)
    × (u.status ≡ (if leb 5 (4 + length failures) then needs_attention else pending))
record_failures-exhausts_example = record_failures-exhausts queue 2 waiting "timeout" 1800 [] refl

run_analysis_task_stage-is_running_task_example :
    let (after, result) =
      run_analysis_task_stage "m" (λ name t. threw "timeout") queue (11 ∷ 12 ∷ []) 20 in
    (is_some result ≡ true) × (is_running_task after 2 ≡ false)
run_analysis_task_stage-is_running_task_example =
    run_analysis_task_stage-is_running_task "m" (λ name t. threw "timeout") queue (11 ∷ 12 ∷ []) 20
      2 (record { same = refl; all = (refl, (refl, (refl, tt))) }) (refl, (refl, tt)) refl

abbrev outcome : StageResult
outcome = record {
  articles_reviewed = 2;
  tasks_scheduled = 8;
  tasks_completed = 0;
  tasks_exhausted = 1;
  tasks_failed = 3;
}

returns :
    (run_analysis_task_stage "m" (λ name t. threw "timeout") queue (11 ∷ 12 ∷ []) 20).1
    ≡ some outcome
unfolding run_analysis_task_stage schedule_all schedule_tasks_for_article upsert_pending
    drain_task_queue claim_up_to claim_next_ready_task run_tasks run_task record_failure
    backoff_for_attempt to_jsonb is_actionable distinct
returns = refl

run_analysis_task_stage_bounds_example :
    (outcome.tasks_scheduled ≤ 6 * outcome.articles_reviewed)
    × (outcome.tasks_completed + outcome.tasks_exhausted + outcome.tasks_failed ≤ 3 * 20)
run_analysis_task_stage_bounds_example =
    run_analysis_task_stage_bounds "m" (λ name t. threw "timeout") queue (11 ∷ 12 ∷ []) 20 outcome
      returns

schedule_tasks_for_article_completed_example :
    find_task (schedule_tasks_for_article "m" queue 11).0 "article" 11 "article_disposition"
    ≡ some finished
schedule_tasks_for_article_completed_example =
    schedule_tasks_for_article_completed "m" queue 11 "article" 11 "article_disposition" finished
      refl refl

schedule_tasks_for_article-is_some_example :
    let after = (schedule_tasks_for_article "m" queue 11).0 in
    (is_some (find_task after "article" 11 article_summary) ≡ true)
    × (is_some (find_task after "article" 11 article_disposition) ≡ true)
    × (is_some (find_task after "article" 11 article_cve_interpretation) ≡ (
        is_some (find_task queue "article" 11 article_cve_interpretation)
        || (is_actionable (list_for_target queue "article" 11)
            && not (is_empty (mentioned_cves queue.mentions 11)))))
schedule_tasks_for_article-is_some_example = schedule_tasks_for_article-is_some "m" queue 11

abbrev exhausted_task : Task
exhausted_task = record waiting { status = needs_attention; attempts = 5; next_attempt_at = none }

abbrev stuck_queue : TaskDb
stuck_queue = record queue { tasks = fresh ∷ exhausted_task ∷ finished ∷ [] }
