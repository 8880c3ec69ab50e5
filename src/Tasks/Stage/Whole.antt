-- ===== src/Tasks/Stage/Whole.antt =====
-- What `runAnalysisTaskStage` of src/pipeline/analysis-task-stage.ts leaves and counts as a whole.
use ai_event_intelligence_ag.Base.{
  ℕ, ◌+◌, ◌*◌, ◌≤◌, ◌≡◌, refl, ◌&&◌, ◌==◌, String, Bool, true, false, List, [], ◌∷◌, arith, inl,
  inr, Option-cases, length, not, some, is_some, subst,
}
use ai_event_intelligence_ag.Base.Table.{find-update_where}
use ai_event_intelligence_ag.Tasks.Records.{TaskInput, TaskDb, task_key}
use ai_event_intelligence_ag.Tasks.Queue.{
  find_task_by_id, upsert_pending, is_task, refresh_row, list_for_target,
}
use ai_event_intelligence_ag.Tasks.Inputs.{
  article_summary, article_disposition, article_cve_interpretation, is_actionable, mentioned_cves,
  is_empty, has_completed, summary_input, disposition_input, interpretation_input,
}
use ai_event_intelligence_ag.Tasks.Stage.{
  Runner, schedule_if, schedule_tasks_for_article, schedule_all, run_analysis_task_stage,
  drain_task_queue, StageResult, sum_up,
}
use ai_event_intelligence_ag.Tasks.Stage.Returns.{
  AllIn, drain_task_queue-IsLoadable, schedule_all-IsLoadable,
}
use ai_event_intelligence_ag.Tasks.Stage.Loading.{IsLoadable}
use ai_event_intelligence_ag.Tasks.Stage.Drain.{
  is_running_task, drain_task_queue-is_running_task, drain_task_queue_counts,
}

-- An upsert starts no task.
is_running_task-upsert_pending :
    (db : TaskDb) (i : TaskInput) (c : ℕ)
    → is_running_task db c ≡ false
    → is_running_task (upsert_pending db i) c ≡ false
unfolding upsert_pending
is_running_task-upsert_pending db i c idle = elim (Option-cases (find_task_by_id db c)) [
  | inl missing ↦ ground (
    arith,
    find-update_where (λ a. task_key a == c) (is_task i.target_type i.target_id i.task_name)
        (refresh_row db.now i) db.tasks (λ _. refl),
  )
  | inr (t, found) ↦ ground (
    arith,
    find-update_where (λ a. task_key a == c) (is_task i.target_type i.target_id i.task_name)
        (refresh_row db.now i) db.tasks (λ _. refl),
  )
]

is_running_task-schedule_if :
    (b : Bool) (i : TaskInput) (db : TaskDb) (n c : ℕ)
    → is_running_task db c ≡ false
    → is_running_task (schedule_if b i (db, n)).0 c ≡ false
is_running_task-schedule_if true i db n c idle = is_running_task-upsert_pending db i c idle
is_running_task-schedule_if false i db n c idle = idle

scheduled_at_most :
    (b : Bool) (i : TaskInput) (db : TaskDb) (n : ℕ) → (schedule_if b i (db, n)).1 ≤ n + 1
scheduled_at_most true i db n = omega arith
scheduled_at_most false i db n = omega arith

module _ (model : String) (db : TaskDb) (a : ℕ) where
  is_running_task-schedule :
      (c : ℕ)
      → is_running_task db c ≡ false
      → is_running_task (schedule_tasks_for_article model db a).0 c ≡ false
  unfolding schedule_tasks_for_article
  is_running_task-schedule c idle =
      let existing = list_for_target db "article" a in
      let cve_ids = mentioned_cves db.mentions a in
      let s = not (has_completed existing article_summary) in
      let d = not (has_completed existing article_disposition) in
      let i =
        is_actionable existing
        && (not (is_empty cve_ids) && not (has_completed existing article_cve_interpretation)) in
      let first = schedule_if s (summary_input model a) (db, 0) in
      let second = schedule_if d (disposition_input model a) first in
      is_running_task-schedule_if i (interpretation_input model a cve_ids) second.0 second.1 c (
        is_running_task-schedule_if d (disposition_input model a) first.0 first.1 c
          (is_running_task-schedule_if s (summary_input model a) db 0 c idle))

  schedule_at_most_three : (schedule_tasks_for_article model db a).1 ≤ 3
  unfolding schedule_tasks_for_article
  schedule_at_most_three =
      let existing = list_for_target db "article" a in
      let cve_ids = mentioned_cves db.mentions a in
      let s = not (has_completed existing article_summary) in
      let d = not (has_completed existing article_disposition) in
      let i =
        is_actionable existing
        && (not (is_empty cve_ids) && not (has_completed existing article_cve_interpretation)) in
      let first = schedule_if s (summary_input model a) (db, 0) in
      let second = schedule_if d (disposition_input model a) first in
      omega (
        arith,
        scheduled_at_most s (summary_input model a) db 0,
        scheduled_at_most d (disposition_input model a) first.0 first.1,
        scheduled_at_most i (interpretation_input model a cve_ids) second.0 second.1,
      )

is_running_task-schedule_all :
    (model : String) (db : TaskDb) (ready : List ℕ) (c : ℕ)
    → is_running_task db c ≡ false
    → is_running_task (schedule_all model db ready).0 c ≡ false
unfolding schedule_all
is_running_task-schedule_all model db [] c idle = idle
is_running_task-schedule_all model db (a ∷ rest) c idle =
    is_running_task-schedule_all model (schedule_tasks_for_article model db a).0 rest c
      (is_running_task-schedule model db a c idle)

schedule_all_at_most :
    (model : String) (db : TaskDb) (ready : List ℕ)
    → (schedule_all model db ready).1 ≤ 3 * length ready
unfolding schedule_all
schedule_all_at_most model db [] = omega arith
schedule_all_at_most model db (a ∷ rest) = omega (
  arith,
  schedule_at_most_three model db a,
  schedule_all_at_most model (schedule_tasks_for_article model db a).0 rest,
)

module _ (model : String) (runner : String → Runner) (db : TaskDb) (ready : List ℕ)
    (max_tasks : ℕ) where
  -- Where every task's article is there and every article that is ready, a run of the stage returns, whatever
  -- the model answers or throws, and leaves no task running that was not running before it.
  pub run_analysis_task_stage-is_running_task :
      (c : ℕ)
      → IsLoadable db.articles db
      → AllIn db.articles ready
      → is_running_task db c ≡ false
      → (is_some (run_analysis_task_stage model runner db ready max_tasks).1 ≡ true)
        × (is_running_task (run_analysis_task_stage model runner db ready max_tasks).0 c ≡ false)
  unfolding run_analysis_task_stage
  run_analysis_task_stage-is_running_task c loadable there idle =
      let drain = λ (state : TaskDb) (name : String).
        drain_task_queue model (runner name) state name max_tasks in
      let drained = λ (state : TaskDb) (name : String) (h : IsLoadable db.articles state).
        drain_task_queue-IsLoadable model (runner name) db.articles state name max_tasks h in
      let stopped = λ (state : TaskDb) (name : String).
        drain_task_queue-is_running_task model (runner name) state name max_tasks c in
      let first = (schedule_all model db ready).0 in
      let scheduled = schedule_all-IsLoadable model db.articles db ready there loadable in
      let (s_returns, second_loads) = drained first article_summary scheduled in
      let second = (drain first article_summary).0 in
      let (d_returns, third_loads) = drained second article_disposition second_loads in
      let third = (drain second article_disposition).0 in
      let again = schedule_all-IsLoadable model db.articles third ready there third_loads in
      let fourth = (schedule_all model third ready).0 in
      let (i_returns, _) = drained fourth article_cve_interpretation again in
      let idle_third = stopped second article_disposition d_returns (
        stopped first article_summary s_returns
          (is_running_task-schedule_all model db ready c idle)) in
      let idle_last =
        stopped fourth article_cve_interpretation i_returns
          (is_running_task-schedule_all model third ready c idle_third) in
      elim (Option-cases (drain first article_summary).1) [
        | inl thrown ↦ absurd (ground arith)
        | inr (s, summaries) ↦ elim (Option-cases (drain second article_disposition).1) [
          | inl thrown ↦ absurd (ground arith)
          | inr (d, dispositions) ↦
              elim (Option-cases (drain fourth article_cve_interpretation).1) [
                | inl thrown ↦ absurd (ground arith)
                | inr (i, interpretations) ↦
                    rw (summaries, dispositions, run_analysis_task_stage)
                      (rw interpretations refl, idle_last)
              ]
        ]
      ]

  -- A run of the stage that returns schedules at most six tasks for each article that is ready, and
  -- completes, exhausts and fails at most three times `max_tasks` tasks together.
  pub run_analysis_task_stage_bounds :
      (result : StageResult)
      → (run_analysis_task_stage model runner db ready max_tasks).1 ≡ some result
      → (result.tasks_scheduled ≤ 6 * result.articles_reviewed)
        × (result.tasks_completed + result.tasks_exhausted + result.tasks_failed ≤ 3 * max_tasks)
  unfolding run_analysis_task_stage
  run_analysis_task_stage_bounds result returned =
      let drain = λ (state : TaskDb) (name : String).
        drain_task_queue model (runner name) state name max_tasks in
      let counts = λ (state : TaskDb) (name : String).
        drain_task_queue_counts model (runner name) state name max_tasks in
      let first = (schedule_all model db ready).0 in
      let second = (drain first article_summary).0 in
      let third = (drain second article_disposition).0 in
      let fourth = (schedule_all model third ready).0 in
      elim (Option-cases (drain first article_summary).1) [
        | inl thrown ↦ absurd (ground arith)
        | inr (s, summaries) ↦ elim (Option-cases (drain second article_disposition).1) [
          | inl thrown ↦ absurd (ground arith)
          | inr (d, dispositions) ↦
              elim (Option-cases (drain fourth article_cve_interpretation).1) [
                | inl thrown ↦ absurd (ground arith)
                | inr (i, interpretations) ↦
                    let summed : sum_up (length ready)
                          ((schedule_all model db ready).1 + (schedule_all model third ready).1) s d
                          i
                        ≡ result =
                      ground arith in
                    subst
                      (λ (r : StageResult).
                        (r.tasks_scheduled ≤ 6 * r.articles_reviewed)
                        × (r.tasks_completed + r.tasks_exhausted + r.tasks_failed ≤ 3 * max_tasks))
                      summed
                      (
                        omega (
                          arith,
                          schedule_all_at_most model db ready,
                          schedule_all_at_most model third ready,
                        ),
                        omega (
                          arith,
                          (counts first article_summary s summaries).1,
                          (counts second article_disposition d dispositions).1,
                          (counts fourth article_cve_interpretation i interpretations).1,
                        ),
                      )
              ]
        ]
      ]
