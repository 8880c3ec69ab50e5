-- ===== src/Tasks/Stage/Drain.antt =====
-- What `drainTaskQueue` of src/pipeline/analysis-task-stage.ts does to the tasks, and what it counts.
use ai_event_intelligence_ag.Base.{
  ℕ, zero, suc, ◌+◌, ◌≤◌, ◌≡◌, refl, ◌==◌, String, Bool, true, false, is_some, none, some, List, [],
  ◌∷◌, arith, inl, inr, ◌⊎◌, Option-cases, if◌then◌else◌, any, length,
}
use ai_event_intelligence_ag.Base.Table.{find_by-update_by}
use ai_event_intelligence_ag.StableJson.{Json}
use ai_event_intelligence_ag.Tasks.Records.{Task, TaskDb, is_running, task_key}
use ai_event_intelligence_ag.Tasks.Queue.{
  find_task_by_id, claim_next_ready_task, record_success, record_failure, success_row, failure_row,
}
use ai_event_intelligence_ag.Tasks.Queue.Claim.{find_task_by_id-claim, claim_nothing}
use ai_event_intelligence_ag.Tasks.Stage.{
  Runner, Answer, Outcome, DrainResult, answered, threw, claim_up_to, run_task, run_tasks,
  drain_task_queue, tally, no_tasks, load_article_for_task, backoff_for_attempt, pool_size,
}

-- The task with the id is there and is running.
abbrev pub is_running_task : TaskDb → ℕ → Bool
is_running_task db c = elim (find_task_by_id db c) [ none ↦ false | some t ↦ is_running t.status ]

abbrev pub claims : ℕ → List Task → Bool
claims c drained = any (λ (t : Task). t.id == c) drained

-- A task that is not among the claimed ones is running only if it was before.
is_running_task-claim_up_to :
    (n : ℕ) (db : TaskDb) (name : String) (c : ℕ)
    → is_running_task db c ≡ false
    → claims c (claim_up_to n db name).1 ≡ false
    → is_running_task (claim_up_to n db name).0 c ≡ false
unfolding claim_up_to
is_running_task-claim_up_to zero db name c idle free = idle
is_running_task-claim_up_to (suc n) db name c idle free =
    let step = claim_next_ready_task db name in
    elim (Option-cases step.1) [
      | inl nothing ↦ rw (nothing, claim_up_to, claim_nothing db name nothing) idle
      | inr (t, claimed) ↦ ground (
        arith,
        find_task_by_id-claim db name t c claimed,
        is_running_task-claim_up_to n step.0 name c,
      )
    ]

is_running_task-success :
    (db : TaskDb) (k : ℕ) (answer : Json) (c : ℕ)
    → is_running_task (record_success db k answer) c
      ≡ (if k == c then false else is_running_task db c)
unfolding record_success
is_running_task-success db k answer c = elim (Option-cases (find_task_by_id db c)) [
  | inl missing ↦
      ground
        (arith, find_by-update_by task_key c k (success_row db.now answer) db.tasks (λ _. refl))
  | inr (t, found) ↦
      ground
        (arith, find_by-update_by task_key c k (success_row db.now answer) db.tasks (λ _. refl))
]

is_running_task-failure :
    (db : TaskDb) (k : ℕ) (error : String) (backoff c : ℕ)
    → is_running_task (record_failure db k error backoff).0 c
      ≡ (if k == c then false else is_running_task db c)
unfolding record_failure
is_running_task-failure db k error backoff c = elim (Option-cases (find_task_by_id db c)) [
  | inl missing ↦ ground (
    arith,
    find_by-update_by task_key c k (failure_row db.now error backoff) db.tasks (λ _. refl),
  )
  | inr (t, found) ↦ ground (
    arith,
    find_by-update_by task_key c k (failure_row db.now error backoff) db.tasks (λ _. refl),
  )
]

pub Answer-cases : (a : Answer) → ((v : Json) × (a ≡ answered v)) ⊎ ((m : String) × (a ≡ threw m))
Answer-cases (answered v) = inl (v, refl)
Answer-cases (threw m) = inr (m, refl)

-- The three ends of loading.
pub loaded_cases :
    (db : TaskDb) (t : Task)
    → (load_article_for_task db t ≡ none)
      ⊎ ((load_article_for_task db t ≡ some false) ⊎ (load_article_for_task db t ≡ some true))
loaded_cases db t = elim (Option-cases (load_article_for_task db t)) [
  | inl lost ↦ inl lost
  | inr (true, here) ↦ inr (inr here)
  | inr (false, other) ↦ inr (inl other)
]

-- A worker that does not throw takes its own task out of running, and no other.
is_running_task-run_task :
    (model : String) (runner : Runner) (db : TaskDb) (t : Task) (c : ℕ)
    → is_some (run_task model runner db t).1 ≡ true
    → is_running_task (run_task model runner db t).0 c
      ≡ (if t.id == c then false else is_running_task db c)
unfolding run_task
is_running_task-run_task model runner db t c returned = elim (loaded_cases db t) [
  | inl lost ↦ absurd (ground arith)
  | inr (inl other) ↦
      rw (other, run_task) (is_running_task-failure db t.id "article not found" 30 c)
  | inr (inr here) ↦ elim (Answer-cases (runner t)) [
    | inl (answer, got) ↦ rw (here, got, run_task) (is_running_task-success db t.id answer c)
    | inr (message, got) ↦
        rw (here, got, run_task)
          (is_running_task-failure db t.id message (backoff_for_attempt t.attempts) c)
  ]
]

is_running_task-run_tasks :
    (model : String) (runner : Runner) (db : TaskDb) (drained : List Task) (workers : ℕ)
    (r : DrainResult) (c : ℕ)
    → is_some (run_tasks model runner db drained workers r).1 ≡ true
    → is_running_task (run_tasks model runner db drained workers r).0 c
      ≡ (if claims c drained then false else is_running_task db c)
unfolding run_tasks
is_running_task-run_tasks model runner db [] workers r c returned = refl
is_running_task-run_tasks model runner db (t ∷ rest) zero r c returned = cc
is_running_task-run_tasks model runner db (t ∷ rest) (suc workers) r c returned =
    let step = run_task model runner db t in
    elim (Option-cases step.1) [
      | inl thrown ↦ absurd (ground arith)
      | inr (o, settled) ↦ ground (
        arith,
        is_running_task-run_task model runner db t c,
        is_running_task-run_tasks model runner step.0 rest (suc workers) (tally o r) c,
      )
    ]

-- A task that was not running before a drain that returns is not running after it: whatever the runner
-- returns or throws, each task that the drain claimed has been completed or has had its failure recorded.
pub drain_task_queue-is_running_task :
    (model : String) (runner : Runner) (db : TaskDb) (name : String) (max_tasks c : ℕ)
    → is_some (drain_task_queue model runner db name max_tasks).1 ≡ true
    → is_running_task db c ≡ false
    → is_running_task (drain_task_queue model runner db name max_tasks).0 c ≡ false
unfolding drain_task_queue
drain_task_queue-is_running_task model runner db name max_tasks c returned idle =
    let (claimed, drained) = claim_up_to max_tasks db name in
    ground (
      arith,
      is_running_task-run_tasks model runner claimed drained (pool_size 3 drained) no_tasks c,
      is_running_task-claim_up_to max_tasks db name c idle,
    )

abbrev total : DrainResult → ℕ
total r = r.completed + r.exhausted + r.failed

total-tally : (o : Outcome) (r : DrainResult) → total (tally o r) ≡ total r + 1
total-tally Outcome.completed r = omega arith
total-tally Outcome.exhausted r = omega arith
total-tally Outcome.failed r = omega arith

total-run_tasks :
    (model : String) (runner : Runner) (db : TaskDb) (drained : List Task) (workers : ℕ)
    (r result : DrainResult)
    → (run_tasks model runner db drained workers r).1 ≡ some result
    → total result ≡ total r + length drained
unfolding run_tasks
total-run_tasks model runner db [] workers r result returned = ground arith
total-run_tasks model runner db (t ∷ rest) zero r result returned = cc
total-run_tasks model runner db (t ∷ rest) (suc workers) r result returned =
    let step = run_task model runner db t in
    elim (Option-cases step.1) [
      | inl thrown ↦ absurd (ground arith)
      | inr (o, settled) ↦
          let more =
            total-run_tasks model runner step.0 rest (suc workers) (tally o r) result
              (ground arith) in
          omega (arith, total-tally o r, more)
    ]

length-claim_up_to : (n : ℕ) (db : TaskDb) (name : String) → length (claim_up_to n db name).1 ≤ n
unfolding claim_up_to
length-claim_up_to zero db name = omega arith
length-claim_up_to (suc n) db name =
    let step = claim_next_ready_task db name in
    elim (Option-cases step.1) [
      | inl nothing ↦ rw (nothing, claim_up_to) (omega arith)
      | inr (t, claimed) ↦
          rw (claimed, claim_up_to) (omega (arith, length-claim_up_to n step.0 name))
    ]

-- The counts of a drain that returns add up to the number of tasks that it claimed, at most `max_tasks`.
pub drain_task_queue_counts :
    (model : String) (runner : Runner) (db : TaskDb) (name : String) (max_tasks : ℕ)
    (result : DrainResult)
    → (drain_task_queue model runner db name max_tasks).1 ≡ some result
    → (result.completed + result.exhausted + result.failed
        ≡ length (claim_up_to max_tasks db name).1)
      × (result.completed + result.exhausted + result.failed ≤ max_tasks)
unfolding drain_task_queue
drain_task_queue_counts model runner db name max_tasks result returned =
    let (claimed, drained) = claim_up_to max_tasks db name in
    let counted =
      total-run_tasks model runner claimed drained (pool_size 3 drained) no_tasks result returned in
    (omega (arith, counted), omega (arith, counted, length-claim_up_to max_tasks db name))
