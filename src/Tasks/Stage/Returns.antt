-- ===== src/Tasks/Stage/Returns.antt =====
-- When `drainTaskQueue` and the scheduling of src/pipeline/analysis-task-stage.ts return: where the articles of
-- all tasks are there.
use ai_event_intelligence_ag.Base.{
  ℕ, suc, ◌-◌, ◌≡◌, refl, subst, ◌==◌, String, true, All, is_some, List, [], ◌∷◌, arith, inl, inr,
  Option-cases, any, ◌&&◌, not,
}
use ai_event_intelligence_ag.Tasks.Records.{Task, TaskDb}
use ai_event_intelligence_ag.Tasks.Queue.{list_for_target}
use ai_event_intelligence_ag.Tasks.Stage.{
  Runner, DrainResult, claim_up_to, run_task, run_tasks, drain_task_queue, tally, no_tasks,
  backoff_for_attempt, pool_size, schedule_if, schedule_tasks_for_article, schedule_all,
}
use ai_event_intelligence_ag.Tasks.Stage.Loading.{
  CanLoad, IsLoadable, claim_up_to-IsLoadable, record_failure-IsLoadable, record_success-IsLoadable,
  schedule_if-IsLoadable,
}
use ai_event_intelligence_ag.Tasks.Inputs.{
  article_summary, article_disposition, article_cve_interpretation, is_actionable, mentioned_cves,
  is_empty, has_completed, summary_input, disposition_input, interpretation_input,
}
use ai_event_intelligence_ag.Tasks.Stage.Drain.{Answer-cases, loaded_cases}

-- Where the article of the task can be loaded, its worker does not throw.
run_task-IsLoadable :
    (model : String) (runner : Runner) (articles : List ℕ) (db : TaskDb) (t : Task)
    → IsLoadable articles db
    → CanLoad articles t
    → let (after, outcome) = run_task model runner db t in
      (is_some outcome ≡ true) × IsLoadable articles after
unfolding run_task
run_task-IsLoadable model runner articles db t h there = elim (loaded_cases db t) [
  | inl lost ↦ absurd (ground (arith, h.same, there))
  | inr (inl other) ↦
      rw (other, run_task)
        (refl, record_failure-IsLoadable articles db t.id "article not found" 30 h)
  | inr (inr here) ↦ elim (Answer-cases (runner t)) [
    | inl (answer, got) ↦
        let kept = record_success-IsLoadable articles db t.id answer h in
        rw (here, got, run_task) (refl, record { same = kept.same; all = kept.all })
    | inr (message, got) ↦
        let kept =
          record_failure-IsLoadable articles db t.id message (backoff_for_attempt t.attempts) h in
        rw (here, got, run_task) (refl, record { same = kept.same; all = kept.all })
  ]
]

run_tasks-IsLoadable :
    (model : String) (runner : Runner) (articles : List ℕ) (db : TaskDb) (drained : List Task)
    (workers : ℕ) (r : DrainResult)
    → IsLoadable articles db
    → All (CanLoad articles) drained
    → let (after, result) = run_tasks model runner db drained (suc workers) r in
      (is_some result ≡ true) × IsLoadable articles after
unfolding run_tasks
run_tasks-IsLoadable model runner articles db [] workers r h all = (refl, h)
run_tasks-IsLoadable model runner articles db (t ∷ rest) workers r h all =
    let step = run_task model runner db t in
    let (fine, next) = run_task-IsLoadable model runner articles db t h all.0 in
    elim (Option-cases step.1) [
      | inl thrown ↦ absurd (ground arith)
      | inr (o, settled) ↦
          rw (settled, run_tasks)
            (run_tasks-IsLoadable model runner articles step.0 rest workers (tally o r) next all.1)
    ]

-- Where every task's article is there, a drain returns.
pub drain_task_queue-IsLoadable :
    (model : String) (runner : Runner) (articles : List ℕ) (db : TaskDb) (name : String)
    (max_tasks : ℕ)
    → IsLoadable articles db
    → let (after, result) = drain_task_queue model runner db name max_tasks in
      (is_some result ≡ true) × IsLoadable articles after
unfolding drain_task_queue
drain_task_queue-IsLoadable model runner articles db name max_tasks h =
    let (claimed, drained) = claim_up_to max_tasks db name in
    let (ready, all) = claim_up_to-IsLoadable articles max_tasks db name h in
    let workers = pool_size 3 drained - 1 in
    let one_more : suc workers ≡ pool_size 3 drained = omega arith in
    subst
      (λ n.
        (is_some (run_tasks model runner claimed drained n no_tasks).1 ≡ true)
        × IsLoadable articles (run_tasks model runner claimed drained n no_tasks).0)
      one_more
      (run_tasks-IsLoadable model runner articles claimed drained workers no_tasks ready all)

schedule-IsLoadable :
    (model : String) (articles : List ℕ) (db : TaskDb) (a : ℕ)
    → any (λ b. b == a) articles ≡ true
    → IsLoadable articles db
    → IsLoadable articles (schedule_tasks_for_article model db a).0
unfolding schedule_tasks_for_article
schedule-IsLoadable model articles db a there h =
    let existing = list_for_target db "article" a in
    let cve_ids = mentioned_cves db.mentions a in
    let s = not (has_completed existing article_summary) in
    let d = not (has_completed existing article_disposition) in
    let i =
      is_actionable existing
      && (not (is_empty cve_ids) && not (has_completed existing article_cve_interpretation)) in
    let first = schedule_if s (summary_input model a) (db, 0) in
    let second = schedule_if d (disposition_input model a) first in
    schedule_if-IsLoadable articles i (interpretation_input model a cve_ids) second.0 second.1 there
      (schedule_if-IsLoadable articles d (disposition_input model a) first.0 first.1 there
        (schedule_if-IsLoadable articles s (summary_input model a) db 0 there h))

-- The articles that are ready are there.
abbrev pub AllIn : List ℕ → List ℕ → Type 0
AllIn articles = All (λ a. any (λ b. b == a) articles ≡ true)

pub schedule_all-IsLoadable :
    (model : String) (articles : List ℕ) (db : TaskDb) (ready : List ℕ)
    → AllIn articles ready
    → IsLoadable articles db
    → IsLoadable articles (schedule_all model db ready).0
unfolding schedule_all
schedule_all-IsLoadable model articles db [] there h = h
schedule_all-IsLoadable model articles db (a ∷ rest) there h =
    schedule_all-IsLoadable model articles (schedule_tasks_for_article model db a).0 rest there.1
      (schedule-IsLoadable model articles db a there.0 h)
