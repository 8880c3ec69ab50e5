-- ===== src/Tasks/Stage/Schedule.antt =====
-- Which tasks `scheduleTasksForArticle` of src/pipeline/analysis-task-stage.ts leaves an article with.
use ai_event_intelligence_ag.Base.{
  ℕ, ◌≡◌, refl, ap, sym, subst, ◌∙◌, ◌&&◌, ◌||◌, not, ◌==◌, String, Bool, true, false, some, List,
  [], ◌∷◌, arith, inl, inr, Option-cases, keep, find, is_some, str_eq, eq_iff, ==_refl, &&-true,
  find_holds,
}
use ai_event_intelligence_ag.Base.Table.{find-update_where}
use ai_event_intelligence_ag.Tasks.Records.{Task, TaskInput, TaskDb, is_completed}
use ai_event_intelligence_ag.Tasks.Queue.{
  is_task, find_task, upsert_pending, refresh_row, list_for_target,
}
use ai_event_intelligence_ag.Tasks.Inputs.{
  article_summary, article_disposition, article_cve_interpretation, summary_input,
  disposition_input, interpretation_input, has_completed, is_actionable, mentioned_cves, is_empty,
}
use ai_event_intelligence_ag.Tasks.Stage.{schedule_if, schedule_tasks_for_article}

-- The upsert is on the row of this key.
abbrev pub has_key : TaskInput → String → ℕ → String → Bool
has_key i target_type target_id name =
    str_eq i.target_type target_type && i.target_id == target_id && str_eq i.task_name name

find_task-key :
    (db : TaskDb) (i : TaskInput) (ty : String) (target : ℕ) (name : String)
    → has_key i ty target name ≡ true
    → find_task db ty target name ≡ find_task db i.target_type i.target_id i.task_name
find_task-key db i ty target name same =
    let (both, names) =
      &&-true (str_eq i.target_type ty && i.target_id == target) (str_eq i.task_name name) same in
    let (types, ids) = &&-true (str_eq i.target_type ty) (i.target_id == target) both in
    let target_is : i.target_id ≡ target = ground arith in
    rw (
      sym ((eq_iff i.target_type ty).0 types),
      sym target_is,
      sym ((eq_iff i.task_name name).0 names),
    )

-- After an upsert there is a row of its key, and of the other keys there is one as there was before.
is_some-upsert_pending :
    (db : TaskDb) (i : TaskInput) (ty : String) (target : ℕ) (name : String)
    → is_some (find_task (upsert_pending db i) ty target name)
      ≡ (has_key i ty target name || is_some (find_task db ty target name))
unfolding upsert_pending
is_some-upsert_pending db i ty target name =
    elim (Option-cases (find_task db i.target_type i.target_id i.task_name)) [
      | inl missing ↦ ground arith
      | inr (t, found) ↦ ground (
        arith,
        find_task-key db i ty target name,
        find-update_where (is_task ty target name) (is_task i.target_type i.target_id i.task_name)
            (refresh_row db.now i) db.tasks (λ _. refl),
      )
    ]

str_eq_meet : (x a b : String) → str_eq x a ≡ true → str_eq x b ≡ true → str_eq a b ≡ true
str_eq_meet x a b h g = subst (λ y. str_eq y b ≡ true) ((eq_iff x a).0 h) g

-- A row has one key.
is_task-has_key :
    (i : TaskInput) (ty : String) (target : ℕ) (name : String) (t : Task)
    → is_task i.target_type i.target_id i.task_name t ≡ true
    → is_task ty target name t ≡ true
    → has_key i ty target name ≡ true
is_task-has_key i ty target name t h g =
    let (h₁, h_name) =
      &&-true (str_eq t.target_type i.target_type && t.target_id == i.target_id)
        (str_eq t.task_name i.task_name) h in
    let (h_type, h_id) =
      &&-true (str_eq t.target_type i.target_type) (t.target_id == i.target_id) h₁ in
    let (g₁, g_name) =
      &&-true (str_eq t.target_type ty && t.target_id == target) (str_eq t.task_name name) g in
    let (g_type, g_id) = &&-true (str_eq t.target_type ty) (t.target_id == target) g₁ in
    ground (
      arith,
      str_eq_meet t.target_type i.target_type ty h_type g_type,
      str_eq_meet t.task_name i.task_name name h_name g_name,
    )

-- An upsert leaves a completed row of any key as it is.
find_task-upsert_pending :
    (db : TaskDb) (i : TaskInput) (ty : String) (target : ℕ) (name : String) (t : Task)
    → find_task db ty target name ≡ some t
    → is_completed t.status ≡ true
    → find_task (upsert_pending db i) ty target name ≡ some t
unfolding upsert_pending
find_task-upsert_pending db i ty target name t found done =
    elim (Option-cases (find_task db i.target_type i.target_id i.task_name)) [
      | inl missing ↦ ground (arith, find_task-key db i ty target name)
      | inr (u, there) ↦ ground (
        arith,
        find_task-key db i ty target name,
        is_task-has_key i ty target name t,
        find_holds (is_task ty target name) db.tasks t found,
        find-update_where (is_task ty target name) (is_task i.target_type i.target_id i.task_name)
            (refresh_row db.now i) db.tasks (λ _. refl),
      )
    ]

find_task-schedule_if :
    (b : Bool) (i : TaskInput) (db : TaskDb) (n : ℕ) (ty : String) (target : ℕ) (name : String)
    (t : Task)
    → find_task db ty target name ≡ some t
    → is_completed t.status ≡ true
    → find_task (schedule_if b i (db, n)).0 ty target name ≡ some t
find_task-schedule_if true i db n ty target name t found done =
    find_task-upsert_pending db i ty target name t found done
find_task-schedule_if false i db n ty target name t found done = found

-- Scheduling an article leaves every completed task as it is, be it of this article or of another.
pub schedule_tasks_for_article_completed :
    (model : String) (db : TaskDb) (a : ℕ) (ty : String) (target : ℕ) (name : String) (t : Task)
    → find_task db ty target name ≡ some t
    → is_completed t.status ≡ true
    → find_task (schedule_tasks_for_article model db a).0 ty target name ≡ some t
unfolding schedule_tasks_for_article
schedule_tasks_for_article_completed model db a ty target name t found done =
    let existing = list_for_target db "article" a in
    let cve_ids = mentioned_cves db.mentions a in
    let first =
      schedule_if (not (has_completed existing article_summary)) (summary_input model a) (db, 0) in
    let second =
      schedule_if (not (has_completed existing article_disposition)) (disposition_input model a)
        first in
    find_task-schedule_if
      (is_actionable existing
        && (not (is_empty cve_ids) && not (has_completed existing article_cve_interpretation)))
      (interpretation_input model a cve_ids) second.0 second.1 ty target name t
      (find_task-schedule_if (not (has_completed existing article_disposition))
        (disposition_input model a) first.0 first.1 ty target name t
        (find_task-schedule_if (not (has_completed existing article_summary))
          (summary_input model a) db 0 ty target name t found done)
        done)
      done

-- A completed task of an article is found by its name.
has_completed_there :
    (db : TaskDb) (a : ℕ) (name : String)
    → has_completed (list_for_target db "article" a) name ≡ true
    → is_some (find_task db "article" a name) ≡ true
has_completed_there db a name h = completed_in db.tasks a name h
  where
    completed_in :
        (rows : List Task) (a : ℕ) (name : String)
        → has_completed (keep (λ t. str_eq t.target_type "article" && t.target_id == a) rows) name
          ≡ true
        → is_some (find (is_task "article" a name) rows) ≡ true
    completed_in [] a name h = cc
    completed_in (t ∷ rows) a name h = ground (arith, completed_in rows a name)

is_some-schedule_if :
    (b : Bool) (i : TaskInput) (db : TaskDb) (n : ℕ) (ty : String) (target : ℕ) (name : String)
    → is_some (find_task (schedule_if b i (db, n)).0 ty target name)
      ≡ (b && has_key i ty target name || is_some (find_task db ty target name))
is_some-schedule_if true i db n ty target name = is_some-upsert_pending db i ty target name
is_some-schedule_if false i db n ty target name = refl

-- The three upserts of a schedule, one after another.
is_some-schedule :
    (model : String) (db : TaskDb) (a : ℕ) (name : String)
    → let existing = list_for_target db "article" a in
      let cve_ids = mentioned_cves db.mentions a in
      is_some (find_task (schedule_tasks_for_article model db a).0 "article" a name) ≡ (
        (is_actionable existing
            && (not (is_empty cve_ids) && not (has_completed existing article_cve_interpretation)))
          && has_key (interpretation_input model a cve_ids) "article" a name
        || (not (has_completed existing article_disposition)
              && has_key (disposition_input model a) "article" a name
            || (not (has_completed existing article_summary)
                  && has_key (summary_input model a) "article" a name
                || is_some (find_task db "article" a name))))
unfolding schedule_tasks_for_article
is_some-schedule model db a name =
    let existing = list_for_target db "article" a in
    let cve_ids = mentioned_cves db.mentions a in
    let s = not (has_completed existing article_summary) in
    let d = not (has_completed existing article_disposition) in
    let i =
      is_actionable existing
      && (not (is_empty cve_ids) && not (has_completed existing article_cve_interpretation)) in
    let first = schedule_if s (summary_input model a) (db, 0) in
    let second = schedule_if d (disposition_input model a) first in
    is_some-schedule_if i (interpretation_input model a cve_ids) second.0 second.1 "article" a name
    ∙ ap (λ b. i && has_key (interpretation_input model a cve_ids) "article" a name || b)
        (is_some-schedule_if d (disposition_input model a) first.0 first.1 "article" a name
          ∙ ap (λ b. d && has_key (disposition_input model a) "article" a name || b)
              (is_some-schedule_if s (summary_input model a) db 0 "article" a name))

there_first :
    (i d c k b : Bool)
    → k ≡ true
    → (c ≡ true → b ≡ true)
    → (i && (k && false) || (d && (k && false) || (not c && (k && true) || b))) ≡ true
there_first i d c k b h g = ground arith

there_second :
    (i c s k b : Bool)
    → k ≡ true
    → (c ≡ true → b ≡ true)
    → (i && (k && false) || (not c && (k && true) || (s && (k && false) || b))) ≡ true
there_second i c s k b h g = ground arith

there_third :
    (x y c d s k b : Bool)
    → k ≡ true
    → (c ≡ true → b ≡ true)
    → ((x && (y && not c)) && (k && true) || (d && (k && false) || (s && (k && false) || b)))
      ≡ (b || (x && y))
there_third x y c d s k b h g = ground arith

-- After an article is scheduled it has a summary task and a disposition task, and it has an
-- interpretation task exactly when it had one before or its completed disposition says that it is
-- actionable and it mentions a CVE.
pub schedule_tasks_for_article-is_some :
    (model : String) (db : TaskDb) (a : ℕ)
    → let after = (schedule_tasks_for_article model db a).0 in
      (is_some (find_task after "article" a article_summary) ≡ true)
      × (is_some (find_task after "article" a article_disposition) ≡ true)
      × (is_some (find_task after "article" a article_cve_interpretation) ≡ (
          is_some (find_task db "article" a article_cve_interpretation)
          || (is_actionable (list_for_target db "article" a)
              && not (is_empty (mentioned_cves db.mentions a)))))
schedule_tasks_for_article-is_some model db a =
    let existing = list_for_target db "article" a in
    let some_cve = not (is_empty (mentioned_cves db.mentions a)) in
    let s = has_completed existing article_summary in
    let d = has_completed existing article_disposition in
    let i = has_completed existing article_cve_interpretation in
    let due = is_actionable existing && (some_cve && not i) in
    (
      is_some-schedule model db a article_summary
          ∙ there_first due (not d) s (a == a) (is_some (find_task db "article" a article_summary))
              (==_refl a) (has_completed_there db a article_summary),
      is_some-schedule model db a article_disposition
          ∙ there_second due d (not s) (a == a)
              (is_some (find_task db "article" a article_disposition)) (==_refl a)
              (has_completed_there db a article_disposition),
      is_some-schedule model db a article_cve_interpretation
          ∙ there_third (is_actionable existing) some_cve i (not d) (not s) (a == a)
              (is_some (find_task db "article" a article_cve_interpretation)) (==_refl a)
              (has_completed_there db a article_cve_interpretation),
    )
