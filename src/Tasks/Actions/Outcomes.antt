-- ===== src/Tasks/Actions/Outcomes.antt =====
-- What an action of src/workspace/analysis-task-actions.ts does to its task.
use ai_event_intelligence_ag.Base.{
  ℕ, ◌≡◌, refl, ◌==◌, ◌⊎◌, true, false, none, some, arith, inl, inr, ==_refl,
}
use ai_event_intelligence_ag.Base.Table.{find-update_where}
use ai_event_intelligence_ag.StableJson.{Json}
use ai_event_intelligence_ag.StableJson.Jsonb.{to_jsonb}
use ai_event_intelligence_ag.Tasks.Records.{Task, TaskDb, pending, completed, is_needs_attention}
use ai_event_intelligence_ag.Tasks.Queue.{
  find_task_by_id, retry, complete_manually, retry_row, complete_row, needs_attention_with_id,
}
use ai_event_intelligence_ag.Tasks.Actions.{
  TaskAction, retry_task, complete_task, apply_analysis_task_action,
}

module _ (db : TaskDb) (k : ℕ) (t : Task) (found : find_task_by_id db k ≡ some t)
    (stuck : is_needs_attention t.status ≡ true) where
  find_task-retry : find_task_by_id (retry t.id db) k ≡ some (retry_row db.now t)
  unfolding retry
  find_task-retry = ground (
    arith,
    ==_refl t.id,
    find-update_where (λ a. a.id == k) (needs_attention_with_id t.id) (retry_row db.now) db.tasks
        (λ _. refl),
  )

  find_task_complete :
      (answer : Json)
      → find_task_by_id (complete_manually t.id answer db) k ≡ some (complete_row db.now answer t)
  unfolding complete_manually
  find_task_complete answer = ground (
    arith,
    ==_refl t.id,
    find-update_where (λ a. a.id == k) (needs_attention_with_id t.id) (complete_row db.now answer)
        db.tasks (λ _. refl),
  )

  -- A retry of a task that needs attention is accepted, and makes it pending and due at once, with the
  -- attempts that it had.
  pub apply_analysis_task_action-retry :
      let (after, result) = apply_analysis_task_action db k retry_task in
      (u : Task) × (find_task_by_id after k ≡ some u)
      × (u.status ≡ pending)
      × (u.next_attempt_at ≡ some db.now)
      × (u.attempts ≡ t.attempts)
      × (result.ok ≡ true)
  unfolding apply_analysis_task_action
  apply_analysis_task_action-retry =
      (retry_row db.now t, ground (arith, find_task-retry), refl, refl, refl, ground arith)

  -- A completion of a task that needs attention is accepted when it brings a result, and makes the task
  -- completed with that result; without a result it is refused and writes nothing.
  pub apply_analysis_task_action_complete :
      (answer : Json)
      → let (after, result) = apply_analysis_task_action db k (complete_task (some answer)) in
        let (same, refusal) = apply_analysis_task_action db k (complete_task none) in
        (u : Task) × (find_task_by_id after k ≡ some u)
        × (u.status ≡ completed)
        × (u.result ≡ some (to_jsonb answer))
        × (result.ok ≡ true)
        × (same ≡ db)
        × (refusal.ok ≡ false)
  unfolding apply_analysis_task_action
  apply_analysis_task_action_complete answer = (
    complete_row db.now answer t,
    ground (arith, find_task_complete answer),
    refl,
    refl,
    ground arith,
    ground arith,
    ground arith,
  )

-- An action on a task that is not there, or that does not need attention, is refused and writes nothing.
pub apply_analysis_task_action_refused :
    (db : TaskDb) (k : ℕ) (action : TaskAction)
    → (find_task_by_id db k ≡ none)
      ⊎ ((t : Task) × (find_task_by_id db k ≡ some t) × (is_needs_attention t.status ≡ false))
    → let (after, result) = apply_analysis_task_action db k action in
      (after ≡ db) × (result.ok ≡ false)
unfolding apply_analysis_task_action
apply_analysis_task_action_refused db k action (inl missing) = ground arith
apply_analysis_task_action_refused db k action (inr (t, found, settled)) = ground arith
