-- ===== src/Tasks/Queue/Attempts.antt =====
-- How many attempts a task has, by src/db/repositories/analysis-task.repository.ts.
use ai_event_intelligence_ag.Base.{
  ℕ, ◌+◌, ◌*◌, ◌≡◌, refl, ◌&&◌, String, some, List, [], ◌∷◌, arith, if◌then◌else◌, ltb, leb, length,
  ==_refl, str_eq_refl,
}
use ai_event_intelligence_ag.Base.Table.{find_by-update_by}
use ai_event_intelligence_ag.Tasks.Records.{Task, TaskDb, pending, needs_attention, task_key}
use ai_event_intelligence_ag.Tasks.Queue.{find_task_by_id, failure_row, record_failure, is_ready}

-- A run of failures of one task, each with its error and its backoff in seconds.
unfoldable pub record_failures : TaskDb → ℕ → List (String × ℕ) → TaskDb
record_failures db task_id [] = db
record_failures db task_id ((error, backoff) ∷ rest) =
    record_failures (record_failure db task_id error backoff).0 task_id rest

find_task-failure :
    (db : TaskDb) (k : ℕ) (t : Task) (error : String) (backoff : ℕ)
    → find_task_by_id db k ≡ some t
    → find_task_by_id (record_failure db k error backoff).0 k
      ≡ some (failure_row db.now error backoff t)
unfolding record_failure
find_task-failure db k t error backoff found = ground (
  arith,
  ==_refl k,
  find_by-update_by task_key k k (failure_row db.now error backoff) db.tasks (λ _. refl),
)

-- A task that fails once or more in a row has one more attempt for each failure, and needs attention
-- exactly when its attempts have reached its maximum; otherwise it is pending again. So a task that
-- always fails stops after as many failures as it has attempts left.
pub record_failures-exhausts :
    (db : TaskDb) (k : ℕ) (t : Task) (error : String) (backoff : ℕ) (rest : List (String × ℕ))
    → find_task_by_id db k ≡ some t
    → let failures = (error, backoff) ∷ rest in
      (u : Task) × (find_task_by_id (record_failures db k failures) k ≡ some u)
      × (u.attempts ≡ t.attempts + length failures)
      × (u.status ≡ (
          if leb t.max_attempts (t.attempts + length failures) then needs_attention else pending))
unfolding record_failures
record_failures-exhausts db k t error backoff [] found =
    (failure_row db.now error backoff t, find_task-failure db k t error backoff found, refl, refl)
record_failures-exhausts db k t error backoff ((error', backoff') ∷ rest) found =
    let next = (record_failure db k error backoff).0 in
    let failed = failure_row db.now error backoff t in
    let (u, there, attempts, status) =
      record_failures-exhausts next k failed error' backoff' rest
        (find_task-failure db k t error backoff found) in
    (u, there, ground (arith, attempts), ground (arith, status))

-- Until its backoff has passed, a task that failed and has attempts left is not ready; from then on it
-- is, under its name. A task that has none left is never ready.
pub record_failure-is_ready :
    (db : TaskDb) (k : ℕ) (t : Task) (error : String) (backoff now : ℕ)
    → find_task_by_id db k ≡ some t
    → (u : Task) × (find_task_by_id (record_failure db k error backoff).0 k ≡ some u)
      × (is_ready now t.task_name u
          ≡ (ltb (t.attempts + 1) t.max_attempts && leb (db.now + 1000 * backoff) now))
      × ((record_failure db k error backoff).1 ≡ u.status)
unfolding record_failure
record_failure-is_ready db k t error backoff now found =
    let there = find_task-failure db k t error backoff found in
    (failure_row db.now error backoff t, there, ground (arith, str_eq_refl t.task_name), rw (there))
