-- ===== src/Cve/Review/Journal.antt =====
-- The journal of src/cve/review.ts: the review events tell the status of every case.
pub mod Operations
use mathlib.Core.Option
use ai_event_intelligence_ag.Base.{
  ℕ, ◌<◌, ◌≤◌, ◌+◌, String, ◌≡◌, refl, ◌&&◌, Bool, true, false, Option, none, some, List, [], ◌∷◌,
  ◌==◌, if◌then◌else◌, ◌⊎◌, ◌or_else◌, inl, inr, arith, is_some, All, Bool-cases, Option-cases,
}
use ai_event_intelligence_ag.Base.Table.{
  find_by, find_by-Below, Below, Below-update_by, Below-weaken, All-update_where, All-mono,
  key-find_by,
}
use ai_event_intelligence_ag.StableJson.{Json, obj, end}
use ai_event_intelligence_ag.Cve.Records.{
  CaseStatus, CaseArticle, draft, approved, CveCase, ReviewEvent, ReviewState, status, link,
  LifecycleState, is_approved, lifecycle_eq,
}
use ai_event_intelligence_ag.Cve.Store.{
  Db, find_case_article, case_key, approve_row, unpublish_row, enrich_row, find_case_by_id,
  find_case_by_cve_id, mark_approved, mark_unpublished, mark_enriched, ensure_case, new_case,
  update_case_article_lifecycle_state, append_review_event, ReviewEventInput, new_review_event,
  references_article,
}
use ai_event_intelligence_ag.Cve.Review.{
  VerdictInput, verdict_event, apply_verdict, parse_human_verdict, ReviewInput, publish, withdraw,
  sync_case_publication, sync_cases, sync_all_case_publications, approve_case, unpublish_case,
  record_human_verdict, cvss_auto_publish_actor, gate_payload, approval_event, unapproval_event,
}

-- The status that the journal, newest entry first, tells of a case: a case begins as a draft.
abbrev pub journal_status : ℕ → List ReviewEvent → CaseStatus
journal_status c [] = draft
journal_status c (e ∷ events) =
    let before = journal_status c events in
    elim e.to_state [ some (status s) ↦ if e.case_id == c then s else before | _ ↦ before ]

-- Publication stamps go with the status, and the status is the one that the journal tells.
pub record CaseIsConsistent (r : CveCase) (events : List ReviewEvent) : Type 0 where
  pub journalled : r.status ≡ journal_status r.id events
  pub approved_at_stamp : is_some r.approved_at ≡ is_approved r.status
  pub approved_by_stamp : is_some r.approved_by_actor ≡ is_approved r.status
  pub reverted_at_stamp : (is_some r.reverted_at && is_approved r.status) ≡ false
  pub reverted_by_stamp : (is_some r.reverted_by_actor && is_approved r.status) ≡ false

abbrev pub Tells : List ReviewEvent → CveCase → Type 0
Tells events r = CaseIsConsistent r events

abbrev pub event_case_key : ReviewEvent → ℕ
event_case_key e = e.case_id

pub record IsConsistent (db : Db) : Type 0 where
  pub cases_consistent : All (Tells db.review_events) db.cases
  pub cases_below : Below case_key db.next_case_id db.cases
  pub events_below : Below event_case_key db.next_case_id db.review_events

approve_row-consistent :
    (db : Db) (c : ℕ) (actor : String) (reason : Option String) (payload : Json) (r : CveCase)
    → CaseIsConsistent r db.review_events
    → CaseIsConsistent
        (if r.id == c then approve_row db.now actor r else r)
        (new_review_event db (approval_event c actor reason payload) ∷ db.review_events)
approve_row-consistent db c actor reason payload r h = ground arith

unpublish_row-consistent :
    (db : Db) (c : ℕ) (actor : String) (reason : Option String) (payload : Json) (r : CveCase)
    → CaseIsConsistent r db.review_events
    → CaseIsConsistent
        (if r.id == c then unpublish_row db.now actor r else r)
        (new_review_event db (unapproval_event c actor reason payload) ∷ db.review_events)
unpublish_row-consistent db c actor reason payload r h = ground arith

-- A case that a lookup returns has an id that was handed out.
pub known_case :
    (db : Db) (c : ℕ) (r : CveCase)
    → IsConsistent db
    → find_case_by_id db c ≡ some r
    → (c < db.next_case_id) × (r.id ≡ c)
known_case db c r h found = (
  find_by-Below case_key db.next_case_id c db.cases r h.cases_below found,
  key-find_by case_key c db.cases r found,
)

module _ (db : Db) (c : ℕ) (actor : String) (reason : Option String) (payload : Json)
    (known : c < db.next_case_id) (h : IsConsistent db) where
  pub publish-IsConsistent : IsConsistent (publish c actor reason payload db)
  unfolding publish mark_approved append_review_event
  publish-IsConsistent = record {
    cases_consistent =
        All-update_where (Tells db.review_events)
          (Tells (new_review_event db (approval_event c actor reason payload) ∷ db.review_events))
          (λ r. r.id == c) (approve_row db.now actor) db.cases
          (approve_row-consistent db c actor reason payload) h.cases_consistent;
    cases_below =
        Below-update_by case_key db.next_case_id c (approve_row db.now actor) db.cases (λ _. refl)
          h.cases_below;
    events_below = (known, h.events_below);
  }

  pub withdraw-IsConsistent : IsConsistent (withdraw c actor reason payload db)
  unfolding withdraw mark_unpublished append_review_event
  withdraw-IsConsistent = record {
    cases_consistent =
        All-update_where (Tells db.review_events)
          (Tells (new_review_event db (unapproval_event c actor reason payload) ∷ db.review_events))
          (λ r. r.id == c) (unpublish_row db.now actor) db.cases
          (unpublish_row-consistent db c actor reason payload) h.cases_consistent;
    cases_below =
        Below-update_by case_key db.next_case_id c (unpublish_row db.now actor) db.cases (λ _. refl)
          h.cases_below;
    events_below = (known, h.events_below);
  }

-- The writes that leave status and journal alone.
enrich_row-consistent :
    (now c : ℕ) (events : List ReviewEvent) (r : CveCase)
    → Tells events r
    → Tells events (if r.id == c then enrich_row now r else r)
enrich_row-consistent now c events r h = ground arith

pub mark_enriched-IsConsistent :
    (db : Db) (c : ℕ) → IsConsistent db → IsConsistent (mark_enriched c db)
unfolding mark_enriched
mark_enriched-IsConsistent db c h = record {
  cases_consistent =
      All-update_where (Tells db.review_events) (Tells db.review_events) (λ r. r.id == c)
        (enrich_row db.now) db.cases (enrich_row-consistent db.now c db.review_events)
        h.cases_consistent;
  cases_below =
      Below-update_by case_key db.next_case_id c (enrich_row db.now) db.cases (λ _. refl)
        h.cases_below;
  events_below = h.events_below;
}

-- A case that the journal does not name yet is a draft.
journal_status-fresh :
    (n c : ℕ) (events : List ReviewEvent)
    → Below event_case_key n events
    → n ≤ c
    → journal_status c events ≡ draft
journal_status-fresh n c [] below h = refl
journal_status-fresh n c (e ∷ events) below h =
    ground (arith, journal_status-fresh n c events below.1, below.0)

used-IsConsistent :
    (db : Db) → IsConsistent db → IsConsistent (record db { next_case_id = db.next_case_id + 1 })
used-IsConsistent db h = record {
  cases_consistent = h.cases_consistent;
  cases_below =
      Below-weaken case_key db.next_case_id (db.next_case_id + 1) db.cases (omega arith)
        h.cases_below;
  events_below =
      Below-weaken event_case_key db.next_case_id (db.next_case_id + 1) db.review_events
        (omega arith) h.events_below;
}

inserted-IsConsistent :
    (db : Db) (cve_id : String) (article : Option ℕ)
    → IsConsistent db
    → IsConsistent (record db {
      next_case_id = db.next_case_id + 1;
      cases = new_case db cve_id article ∷ db.cases;
    })
inserted-IsConsistent db cve_id article h =
    let used = used-IsConsistent db h in
    record {
      cases_consistent = (
        ground (
          arith,
          journal_status-fresh db.next_case_id db.next_case_id db.review_events h.events_below,
        ),
        h.cases_consistent,
      );
      cases_below = (omega arith, used.cases_below);
      events_below = used.events_below;
    }

pub ensure_case-IsConsistent :
    (db : Db) (cve_id : String) (article : Option ℕ)
    → IsConsistent db
    → IsConsistent (ensure_case db cve_id article).0
unfolding ensure_case
ensure_case-IsConsistent db cve_id article h =
    ground (arith, used-IsConsistent db h, inserted-IsConsistent db cve_id article h)
