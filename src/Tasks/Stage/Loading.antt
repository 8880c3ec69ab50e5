-- ===== src/Tasks/Stage/Loading.antt =====
-- When `loadArticleForTask` of src/pipeline/analysis-task-stage.ts throws: the articles of the tasks, through
-- scheduling, claims and the record of what came of them.
use ai_event_intelligence_ag.Base.{
  ℕ, zero, suc, ◌≡◌, refl, String, Bool, true, false, some, List, [], ◌∷◌, arith, inl, inr, All,
  Option-cases, if◌then◌else◌, any, ◌==◌, str_eq,
}
use ai_event_intelligence_ag.Base.Table.{All-update_where}
use ai_event_intelligence_ag.StableJson.{Json}
use ai_event_intelligence_ag.Tasks.Records.{Task, TaskInput, TaskDb, task_key}
use ai_event_intelligence_ag.Tasks.Queue.{
  upsert_pending, find_task, refresh_row, is_task, claim_next_ready_task, next_ready, is_ready,
  start_row, record_success, record_failure, success_row, failure_row,
}
use ai_event_intelligence_ag.Tasks.Stage.{claim_up_to, schedule_if}

-- The task's article is there, or it has none.
abbrev pub can_load : List ℕ → Task → Bool
can_load articles t =
    if str_eq t.target_type "article" then any (λ a. a == t.target_id) articles else true

abbrev pub CanLoad : List ℕ → Task → Type 0
CanLoad articles t = can_load articles t ≡ true

-- The tables have these articles, and no task is about another.
pub record IsLoadable (articles : List ℕ) (db : TaskDb) : Type 0 where
  pub same : db.articles ≡ articles
  pub all : All (CanLoad articles) db.tasks

module _ (articles : List ℕ) where
  update_rows :
      (q : Task → Bool) (f : Task → Task)
      → ((t : Task) → can_load articles (f t) ≡ can_load articles t)
      → (t : Task) → CanLoad articles t
      → CanLoad articles (if q t then f t else t)
  update_rows q f keeps t h = ground (arith, keeps t)

  pub upsert_pending-IsLoadable :
      (db : TaskDb) (i : TaskInput)
      → any (λ a. a == i.target_id) articles ≡ true
      → IsLoadable articles db
      → IsLoadable articles (upsert_pending db i)
  unfolding upsert_pending
  upsert_pending-IsLoadable db i there h = record {
    same = ground (arith, h.same);
    all = elim (Option-cases (find_task db i.target_type i.target_id i.task_name)) [
      | inl missing ↦ rw (missing, upsert_pending) (ground (arith, there), h.all)
      | inr (t, found) ↦ ground (
        arith,
        h.all,
        All-update_where (CanLoad articles) (CanLoad articles)
            (is_task i.target_type i.target_id i.task_name) (refresh_row db.now i) db.tasks
            (update_rows (is_task i.target_type i.target_id i.task_name) (refresh_row db.now i)
              (λ t. refl))
            h.all,
      )
    ];
  }

  pub schedule_if-IsLoadable :
      (b : Bool) (i : TaskInput) (db : TaskDb) (n : ℕ)
      → any (λ a. a == i.target_id) articles ≡ true
      → IsLoadable articles db
      → IsLoadable articles (schedule_if b i (db, n)).0
  schedule_if-IsLoadable true i db n there h = upsert_pending-IsLoadable db i there h
  schedule_if-IsLoadable false i db n there h = h

  pub record_success-IsLoadable :
      (db : TaskDb) (k : ℕ) (answer : Json)
      → IsLoadable articles db
      → IsLoadable articles (record_success db k answer)
  unfolding record_success
  record_success-IsLoadable db k answer h = record {
    same = h.same;
    all =
        All-update_where (CanLoad articles) (CanLoad articles) (λ t. task_key t == k)
          (success_row db.now answer) db.tasks
          (update_rows (λ t. task_key t == k) (success_row db.now answer) (λ t. refl)) h.all;
  }

  pub record_failure-IsLoadable :
      (db : TaskDb) (k : ℕ) (error : String) (backoff : ℕ)
      → IsLoadable articles db
      → IsLoadable articles (record_failure db k error backoff).0
  unfolding record_failure
  record_failure-IsLoadable db k error backoff h = record {
    same = h.same;
    all =
        All-update_where (CanLoad articles) (CanLoad articles) (λ t. task_key t == k)
          (failure_row db.now error backoff) db.tasks
          (update_rows (λ t. task_key t == k) (failure_row db.now error backoff) (λ t. refl)) h.all;
  }

  next_ready-CanLoad :
      (p : Task → Bool) (rows : List Task) (t : Task)
      → next_ready p rows ≡ some t
      → All (CanLoad articles) rows
      → CanLoad articles t
  next_ready-CanLoad p [] t h all = cc
  next_ready-CanLoad p (a ∷ rows) t h all = elim (Option-cases (next_ready p rows)) [
    | inl last ↦ ground (arith, all.0)
    | inr (u, more) ↦ ground (arith, all.0, next_ready-CanLoad p rows u more all.1)
  ]

  claim_next_ready_task-IsLoadable :
      (db : TaskDb) (name : String)
      → IsLoadable articles db
      → IsLoadable articles (claim_next_ready_task db name).0
  unfolding claim_next_ready_task
  claim_next_ready_task-IsLoadable db name h =
      elim (Option-cases (next_ready (is_ready db.now name) db.tasks)) [
        | inl nothing ↦ rw (nothing, claim_next_ready_task) h
        | inr (t, found) ↦
            rw (found, claim_next_ready_task)
              (record {
                same = h.same;
                all =
                    All-update_where (CanLoad articles) (CanLoad articles) (λ u. task_key u == t.id)
                      (start_row db.now) db.tasks
                      (update_rows (λ u. task_key u == t.id) (start_row db.now) (λ u. refl)) h.all;
              })
      ]

  claimed-CanLoad :
      (db : TaskDb) (name : String) (t : Task)
      → (claim_next_ready_task db name).1 ≡ some t
      → IsLoadable articles db
      → CanLoad articles t
  unfolding claim_next_ready_task
  claimed-CanLoad db name t claimed h =
      elim (Option-cases (next_ready (is_ready db.now name) db.tasks)) [
        | inl nothing ↦ absurd (ground arith)
        | inr (u, found) ↦
            ground (arith, next_ready-CanLoad (is_ready db.now name) db.tasks u found h.all)
      ]

  -- What a drain claims can be loaded.
  pub claim_up_to-IsLoadable :
      (n : ℕ) (db : TaskDb) (name : String)
      → IsLoadable articles db
      → IsLoadable articles (claim_up_to n db name).0
        × All (CanLoad articles) (claim_up_to n db name).1
  unfolding claim_up_to
  claim_up_to-IsLoadable zero db name h = (h, tt)
  claim_up_to-IsLoadable (suc n) db name h =
      let step = claim_next_ready_task db name in
      let next = claim_next_ready_task-IsLoadable db name h in
      elim (Option-cases step.1) [
        | inl nothing ↦ rw (nothing, claim_up_to) (next, tt)
        | inr (t, claimed) ↦
            let (last, all) = claim_up_to-IsLoadable n step.0 name next in
            rw (claimed, claim_up_to) (last, (claimed-CanLoad db name t claimed h, all))
      ]
