-- ===== src/Tasks/Queue/Claim.antt =====
-- Which task `claimNextReadyTask` of src/db/repositories/analysis-task.repository.ts hands out.
use mathlib.Core.Option
use ai_event_intelligence_ag.Base.{
  ℕ, ◌≡◌, refl, ◌==◌, String, Bool, true, false, Option, none, some, List, [], ◌∷◌, arith, inl, inr,
  Option-cases, if◌then◌else◌, find, str_eq,
}
use ai_event_intelligence_ag.Base.Table.{find_by-update_by}
use ai_event_intelligence_ag.Tasks.Records.{Task, TaskDb, running, task_key}
use ai_event_intelligence_ag.Tasks.Queue.{
  find_task_by_id, is_ready, is_due, comes_before, due_before, next_ready, start_row,
  claim_next_ready_task,
}

due_before_total :
    (s : Option ℕ) (i : ℕ) (t : Option ℕ) (j : ℕ)
    → due_before s i t j ≡ false
    → due_before t j s i ≡ true
due_before_total none i none j h = ground arith
due_before_total none i (some t) j h = cc
due_before_total (some s) i none j h = refl
due_before_total (some s) i (some t) j h = ground arith

due_before_trans :
    (s : Option ℕ) (i : ℕ) (t : Option ℕ) (j : ℕ) (u : Option ℕ) (k : ℕ)
    → due_before s i t j ≡ true
    → due_before t j u k ≡ true
    → due_before s i u k ≡ true
due_before_trans none i none j none k h g = ground arith
due_before_trans none i t j (some u) k h g = refl
due_before_trans none i (some t) j none k h g = cc
due_before_trans (some s) i none j u k h g = cc
due_before_trans (some s) i (some t) j none k h g = cc
due_before_trans (some s) i (some t) j (some u) k h g = ground arith

due_before_refl : (s : Option ℕ) (i : ℕ) → due_before s i s i ≡ true
due_before_refl none i = ground arith
due_before_refl (some s) i = ground arith

comes_before_trans :
    (a b c : Task) → comes_before a b ≡ true → comes_before b c ≡ true → comes_before a c ≡ true
comes_before_trans a b c h g =
    due_before_trans a.next_attempt_at a.id b.next_attempt_at b.id c.next_attempt_at c.id h g

comes_before_total : (a b : Task) → comes_before a b ≡ false → comes_before b a ≡ true
comes_before_total a b h = due_before_total a.next_attempt_at a.id b.next_attempt_at b.id h

-- A row that passes is not overlooked.
next_ready-none :
    (p q : Task → Bool) (rows : List Task) (v : Task)
    → next_ready p rows ≡ none
    → find q rows ≡ some v
    → p v ≡ false
next_ready-none p q [] v h g = cc
next_ready-none p q (a ∷ rows) v h g = ground (arith, next_ready-none p q rows v)

next_ready-first :
    (p q : Task → Bool) (rows : List Task) (t v : Task)
    → next_ready p rows ≡ some t
    → find q rows ≡ some v
    → p v ≡ true
    → comes_before t v ≡ true
next_ready-first p q [] t v h g ready = cc
next_ready-first p q (a ∷ rows) t v h g ready = elim (Option-cases (next_ready p rows)) [
  | inl last ↦ ground (arith, next_ready-none p q rows v, due_before_refl a.next_attempt_at a.id)
  | inr (u, more) ↦ ground (
    arith,
    next_ready-first p q rows u v more,
    due_before_refl a.next_attempt_at a.id,
    comes_before_total a u,
    comes_before_trans a u v,
  )
]

next_ready_passes :
    (p : Task → Bool) (rows : List Task) (t : Task) → next_ready p rows ≡ some t → p t ≡ true
next_ready_passes p [] t h = cc
next_ready_passes p (a ∷ rows) t h = elim (Option-cases (next_ready p rows)) [
  | inl last ↦ ground arith
  | inr (u, more) ↦ ground (arith, next_ready_passes p rows u more)
]

-- A task that a claim hands out has the name that was asked for and is due; in the order of
-- next_attempt_at, NULL first, and then id, it comes no later than any task that is ready; and it is
-- handed out as running.
pub claim_next_ready_task-first :
    (db : TaskDb) (name : String) (t v : Task) (c : ℕ)
    → (claim_next_ready_task db name).1 ≡ some t
    → find_task_by_id db c ≡ some v
    → is_ready db.now name v ≡ true
    → (str_eq t.task_name name ≡ true)
      × (is_due db.now t.next_attempt_at ≡ true)
      × (comes_before t v ≡ true)
      × (t.status ≡ running)
unfolding claim_next_ready_task
claim_next_ready_task-first db name t v c claimed found ready =
    elim (Option-cases (next_ready (is_ready db.now name) db.tasks)) [
      | inl nothing ↦ ground arith
      | inr (u, first) ↦ ground (
        arith,
        next_ready_passes (is_ready db.now name) db.tasks u first,
        next_ready-first (is_ready db.now name) (λ a. a.id == c) db.tasks u v first found ready,
      )
    ]

pub claim_nothing :
    (db : TaskDb) (name : String)
    → (claim_next_ready_task db name).1 ≡ none
    → (claim_next_ready_task db name).0 ≡ db
unfolding claim_next_ready_task
claim_nothing db name nothing = elim (Option-cases (next_ready (is_ready db.now name) db.tasks)) [
  | inl none_ready ↦ ground arith
  | inr (u, first) ↦ ground arith
]

-- A claim that hands out nothing finds no task ready, and writes nothing.
pub claim_next_ready_task-none :
    (db : TaskDb) (name : String) (v : Task) (c : ℕ)
    → (claim_next_ready_task db name).1 ≡ none
    → find_task_by_id db c ≡ some v
    → (is_ready db.now name v ≡ false) × ((claim_next_ready_task db name).0 ≡ db)
unfolding claim_next_ready_task
claim_next_ready_task-none db name v c nothing found =
    elim (Option-cases (next_ready (is_ready db.now name) db.tasks)) [
      | inl none_ready ↦ ground (
        arith,
        next_ready-none (is_ready db.now name) (λ a. a.id == c) db.tasks v none_ready found,
      )
      | inr (u, first) ↦ ground arith
    ]

-- A claim changes the rows with the claimed id alone.
pub find_task_by_id-claim :
    (db : TaskDb) (name : String) (t : Task) (c : ℕ)
    → (claim_next_ready_task db name).1 ≡ some t
    → find_task_by_id (claim_next_ready_task db name).0 c ≡ (
        if t.id == c
        then Option.map (start_row db.now) (find_task_by_id db c)
        else find_task_by_id db c)
unfolding claim_next_ready_task
find_task_by_id-claim db name t c claimed =
    elim (Option-cases (next_ready (is_ready db.now name) db.tasks)) [
      | inl nothing ↦ ground arith
      | inr (u, first) ↦
          ground (arith, find_by-update_by task_key c u.id (start_row db.now) db.tasks (λ _. refl))
    ]
