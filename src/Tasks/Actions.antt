-- ===== src/Tasks/Actions.antt =====
-- src/workspace/analysis-task-actions.ts: what an analyst can do with a task that needs attention.
pub mod Outcomes
use ai_event_intelligence_ag.Base.{
  ℕ, ◌≡◌, refl, ◌&&◌, ◌==◌, String, Bool, true, false, Option, none, some, arith, inl, inr,
  Bool-cases, Option-cases, if◌then◌else◌, ==_refl, is_some,
}
use ai_event_intelligence_ag.Base.Table.{find-update_where}
use ai_event_intelligence_ag.StableJson.{Json}
use ai_event_intelligence_ag.Tasks.Records.{
  Task, TaskDb, TaskStatus, pending, completed, needs_attention, is_needs_attention, task_key,
}
use ai_event_intelligence_ag.Tasks.Queue.{
  find_task_by_id, retry, complete_manually, retry_row, complete_row,
}

-- `AnalysisTaskActionInput`: a completion brings a result, if it is an object.
pub data TaskAction : Type 0 where
  retry_task : TaskAction
  complete_task : Option Json → TaskAction

pub data ActionRefusal : Type 0 where
  task_not_found task_not_needs_attention invalid_payload : ActionRefusal

pub record ActionResult : Type 0 where
  pub ok : Bool
  pub task : Option Task
  pub reason : Option ActionRefusal

abbrev pub refused : Option Task → ActionRefusal → ActionResult
refused task why = record { ok = false; task = task; reason = some why }

abbrev pub done : TaskDb → ℕ → TaskDb × ActionResult
done db task_id = (db, record { ok = true; task = find_task_by_id db task_id; reason = none })

-- `applyAnalysisTaskAction`
unfoldable pub apply_analysis_task_action : TaskDb → ℕ → TaskAction → TaskDb × ActionResult
apply_analysis_task_action db task_id action = elim (find_task_by_id db task_id) [
  | none ↦ (db, refused none task_not_found)
  | some t ↦
      if is_needs_attention t.status
      then elim action [
        | retry_task ↦ done (retry t.id db) t.id
        | complete_task none ↦ (db, refused (some t) invalid_payload)
        | complete_task (some answer) ↦ done (complete_manually t.id answer db) t.id
      ]
      else (db, refused (some t) task_not_needs_attention)
]
