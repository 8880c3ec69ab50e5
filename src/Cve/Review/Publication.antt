-- ===== src/Cve/Review/Publication.antt =====
-- The gate of src/cve/review.ts: what a sync leaves the cases at.
use mathlib.Core.Option
use ai_event_intelligence_ag.Base.{
  ℕ, String, ◌≡◌, ap, ◌∙◌, refl, Bool, true, Option, some, List, [], ◌∷◌, ◌==◌, if◌then◌else◌, inl,
  inr, any, arith, Option-cases,
}
use ai_event_intelligence_ag.Base.Table.{find_by, find_by-update_by}
use ai_event_intelligence_ag.StableJson.{Json}
use ai_event_intelligence_ag.Cve.Records.{CaseStatus, draft, approved, CveCase}
use ai_event_intelligence_ag.Cve.Store.{
  Db, case_key, approve_row, unpublish_row, find_case_by_id, mark_approved, mark_unpublished,
  append_review_event,
}
use ai_event_intelligence_ag.Cve.Review.{
  unchanged, cvss_auto_publish_actor, gate_payload, cvss_base, should_publish, publish, withdraw,
  sync_result, sync_case_publication, sync_cases, sync_all_case_publications,
}

-- The status that a case is left at, if it is there.
abbrev pub status_of : Db → ℕ → Option CaseStatus
status_of db case_id = Option.map (λ (r : CveCase). r.status) (find_case_by_id db case_id)

-- The status that the gates call for.
abbrev pub gate_status : Db → ℕ → CaseStatus
gate_status db case_id = if should_publish db case_id then approved else draft

module _ (c j : ℕ) (actor : String) (reason : Option String) (payload : Json) (db : Db) where
  pub status_of-publish :
      status_of (publish c actor reason payload db) j
      ≡ (if c == j then Option.map (λ _. approved) (find_case_by_id db j) else status_of db j)
  unfolding publish mark_approved append_review_event
  status_of-publish =
      ground (arith, find_by-update_by case_key j c (approve_row db.now actor) db.cases (λ _. refl))

  pub status_of-withdraw :
      status_of (withdraw c actor reason payload db) j
      ≡ (if c == j then Option.map (λ _. draft) (find_case_by_id db j) else status_of db j)
  unfolding withdraw mark_unpublished append_review_event
  status_of-withdraw =
      ground
        (arith, find_by-update_by case_key j c (unpublish_row db.now actor) db.cases (λ _. refl))

-- One sync changes the status of its own case, to what the gates call for, and of no other.
pub status_of-sync :
    (db : Db) (c j : ℕ)
    → status_of (sync_case_publication db c).0 j ≡ (
        if c == j
        then Option.map (λ _. gate_status db j) (find_case_by_id db j)
        else status_of db j)
unfolding sync_case_publication
status_of-sync db c j = ground (
  arith,
  status_of-publish c j cvss_auto_publish_actor (some "auto_publish") (gate_payload db c) db,
  status_of-withdraw c j cvss_auto_publish_actor (some "auto_publish_gates_cleared")
      (gate_payload db c) db,
)

pub observations-sync :
    (db : Db) (c : ℕ) → (sync_case_publication db c).0.observations ≡ db.observations
unfolding sync_case_publication publish withdraw mark_approved mark_unpublished append_review_event
observations-sync db c = ground arith

-- The gates read nothing that a sync writes.
pub should_publish_of_observations :
    (d e : Db) (c : ℕ) → d.observations ≡ e.observations → should_publish d c ≡ should_publish e c
unfolding should_publish
should_publish_of_observations d e c h = rw h

cvss_base_of_observations :
    (d e : Db) (c : ℕ) → d.observations ≡ e.observations → cvss_base d c ≡ cvss_base e c
cvss_base_of_observations d e c h = rw h

pub should_publish-sync :
    (db : Db) (c j : ℕ) → should_publish (sync_case_publication db c).0 j ≡ should_publish db j
should_publish-sync db c j =
    should_publish_of_observations (sync_case_publication db c).0 db j (observations-sync db c)

-- A case that stands where the gates call for is left alone.
sync_settled :
    (db : Db) (c : ℕ) (r : CveCase)
    → find_case_by_id db c ≡ some r
    → r.status ≡ gate_status db c
    → sync_case_publication db c ≡ (db, sync_result db c unchanged)
unfolding sync_case_publication
sync_settled db c r found settled = ground arith

-- The row behind a status that is there.
pub status_of_row :
    (db : Db) (c : ℕ) (s : CaseStatus)
    → status_of db c ≡ some s
    → (r : CveCase) × (find_case_by_id db c ≡ some r) × (r.status ≡ s)
status_of_row db c s h = elim (Option-cases (find_case_by_id db c)) [
  | inl missing ↦ ground arith
  | inr (r, found) ↦ (r, found, ground arith)
]

-- After a sync of a case that is there, its status is what the gates call for, both before and after.
pub gate_status-sync :
    (db : Db) (c : ℕ) (r : CveCase)
    → find_case_by_id db c ≡ some r
    → let after = (sync_case_publication db c).0 in status_of after c ≡ some (gate_status after c)
gate_status-sync db c r found = ground (arith, status_of-sync db c c, should_publish-sync db c c)

-- On a case that is there, a second sync writes nothing and reports `unchanged`.
pub sync_idempotent :
    (db : Db) (c : ℕ) (r : CveCase)
    → find_case_by_id db c ≡ some r
    → let after = (sync_case_publication db c).0 in
      sync_case_publication after c ≡ (after, sync_result db c unchanged)
sync_idempotent db c r found =
    let after = (sync_case_publication db c).0 in
    let (row, there, settled) =
      status_of_row after c (gate_status after c) (gate_status-sync db c r found) in
    sync_settled after c row there settled
    ∙ ap (λ base. (after, record { case_id = c; action = unchanged; cvss_base = base }))
        (cvss_base_of_observations after db c (observations-sync db c))

-- `c` is among the cases that the loop goes through.
abbrev pub listed : ℕ → List CveCase → Bool
listed c rows = any (λ (r : CveCase). r.id == c) rows

pub observations-sync_cases :
    (db : Db) (rows : List CveCase) → (sync_cases db rows).0.observations ≡ db.observations
unfolding sync_cases
observations-sync_cases db [] = refl
observations-sync_cases db (r ∷ rest) =
    observations-sync_cases (sync_case_publication db r.id).0 rest ∙ observations-sync db r.id

-- The loop brings the cases that it goes through to their gates, and leaves the others.
pub status_of-sync_cases :
    (db : Db) (rows : List CveCase) (c : ℕ)
    → status_of (sync_cases db rows).0 c ≡ (
        if listed c rows
        then Option.map (λ _. gate_status db c) (find_case_by_id db c)
        else status_of db c)
unfolding sync_cases
status_of-sync_cases db [] c = refl
status_of-sync_cases db (r ∷ rest) c = ground (
  arith,
  status_of-sync db r.id c,
  should_publish-sync db r.id c,
  status_of-sync_cases (sync_case_publication db r.id).0 rest c,
)

listed-find :
    (c : ℕ) (rows : List CveCase) (r : CveCase)
    → find_by case_key c rows ≡ some r
    → listed c rows ≡ true
listed-find c [] r h = cc
listed-find c (a ∷ rows) r h = ground (arith, listed-find c rows r)

-- After the sync of all cases every case has the status that its current terminal observations call
-- for, and no observation has changed.
pub sync_all-gate :
    (db : Db) (c : ℕ) (r : CveCase)
    → find_case_by_id db c ≡ some r
    → (status_of (sync_all_case_publications db).0 c ≡ some (gate_status db c))
      × ((sync_all_case_publications db).0.observations ≡ db.observations)
unfolding sync_all_case_publications
sync_all-gate db c r found = (
  ground (arith, status_of-sync_cases db db.cases c, listed-find c db.cases r),
  observations-sync_cases db db.cases,
)

-- The status of `c`, if it is there, is what its gates call for.
abbrev pub IsSettled : Db → ℕ → Type 0
IsSettled db c = status_of db c ≡ Option.map (λ _. gate_status db c) (find_case_by_id db c)

pub sync-IsSettled : (db : Db) (c : ℕ) → IsSettled (sync_case_publication db c).0 c
sync-IsSettled db c = ground (arith, status_of-sync db c c, should_publish-sync db c c)

pub sync_all-IsSettled : (db : Db) (c : ℕ) → IsSettled (sync_all_case_publications db).0 c
unfolding sync_all_case_publications
sync_all-IsSettled db c =
    let after = (sync_cases db db.cases).0 in
    let gate = should_publish_of_observations after db c (observations-sync_cases db db.cases) in
    elim (Option-cases (find_case_by_id db c)) [
      | inl missing ↦ ground (arith, gate, status_of-sync_cases db db.cases c)
      | inr (r, found) ↦
          ground (arith, gate, status_of-sync_cases db db.cases c, listed-find c db.cases r)
    ]
