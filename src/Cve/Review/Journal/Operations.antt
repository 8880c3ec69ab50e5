-- ===== src/Cve/Review/Journal/Operations.antt =====
-- Every operation of src/cve/review.ts keeps the cases in step with the journal.
use ai_event_intelligence_ag.Base.{
  ℕ, ◌<◌, ◌≡◌, refl, some, List, [], ◌∷◌, ◌or_else◌, inl, inr, arith, Bool-cases, Option-cases,
}
use ai_event_intelligence_ag.Base.Table.{All-mono}
use ai_event_intelligence_ag.StableJson.{obj, end}
use ai_event_intelligence_ag.Cve.Records.{
  CaseArticle, CveCase, ReviewEvent, link, LifecycleState, is_approved, lifecycle_eq,
}
use ai_event_intelligence_ag.Cve.Store.{
  Db, find_case_article, find_case_by_id, update_case_article_lifecycle_state, append_review_event,
  ReviewEventInput, new_review_event,
}
use ai_event_intelligence_ag.Cve.Review.{
  VerdictInput, verdict_event, apply_verdict, parse_human_verdict, ReviewInput,
  sync_case_publication, sync_cases, sync_all_case_publications, approve_case, unpublish_case,
  record_human_verdict, cvss_auto_publish_actor, gate_payload,
}
use ai_event_intelligence_ag.Cve.Review.Journal.{
  IsConsistent, Tells, publish-IsConsistent, withdraw-IsConsistent, known_case,
}

-- An event about a link tells nothing of a status.
link_event-consistent :
    (events : List ReviewEvent) (e : ReviewEvent) (s : LifecycleState) (r : CveCase)
    → e.to_state ≡ some (link s)
    → Tells events r
    → Tells (e ∷ events) r
link_event-consistent events e s r about h = ground arith

append-link_event-IsConsistent :
    (db : Db) (i : ReviewEventInput) (s : LifecycleState)
    → i.to_state ≡ some (link s)
    → i.case_id < db.next_case_id
    → IsConsistent db
    → IsConsistent (append_review_event db i)
unfolding append_review_event
append-link_event-IsConsistent db i s about known h = record {
  cases_consistent =
      All-mono (Tells db.review_events) (Tells (new_review_event db i ∷ db.review_events)) db.cases
        (λ r. link_event-consistent db.review_events (new_review_event db i) s r about)
        h.cases_consistent;
  cases_below = h.cases_below;
  events_below = (known, h.events_below);
}

update_link-IsConsistent :
    (db : Db) (l : ℕ) (s : LifecycleState)
    → IsConsistent db
    → IsConsistent (update_case_article_lifecycle_state l s db)
unfolding update_case_article_lifecycle_state
update_link-IsConsistent db l s h = record {
  cases_consistent = h.cases_consistent;
  cases_below = h.cases_below;
  events_below = h.events_below;
}

next_case_id-update_link :
    (db : Db) (l : ℕ) (s : LifecycleState)
    → (update_case_article_lifecycle_state l s db).next_case_id ≡ db.next_case_id
unfolding update_case_article_lifecycle_state
next_case_id-update_link db l s = refl

apply_verdict-IsConsistent :
    (db : Db) (i : VerdictInput) (l : CaseArticle) (v : LifecycleState)
    → i.case_id < db.next_case_id
    → IsConsistent db
    → IsConsistent (apply_verdict db i l v).0
unfolding apply_verdict
apply_verdict-IsConsistent db i l v known h =
    let written = update_case_article_lifecycle_state l.id v db in
    elim (Bool-cases (lifecycle_eq l.lifecycle_state v)) [
      | inl same ↦ rw (same, apply_verdict) h
      | inr new ↦
          rw (new, apply_verdict)
            (append-link_event-IsConsistent written (verdict_event i l v) v refl
              (rw (next_case_id-update_link db l.id v) known)
              (update_link-IsConsistent db l.id v h))
    ]

pub record_human_verdict-IsConsistent :
    (db : Db) (i : VerdictInput) → IsConsistent db → IsConsistent (record_human_verdict db i).0
unfolding record_human_verdict
record_human_verdict-IsConsistent db i h = elim (Option-cases (parse_human_verdict i.verdict)) [
  | inl unknown ↦ rw (unknown, record_human_verdict) h
  | inr (v, verdict) ↦ elim (Option-cases (find_case_by_id db i.case_id)) [
    | inl missing ↦ rw (verdict, missing, record_human_verdict) h
    | inr (r, found) ↦ elim (Option-cases (find_case_article db i.case_id i.article_id)) [
      | inl unlinked ↦ rw (verdict, found, unlinked, record_human_verdict) h
      | inr (l, linked) ↦
          rw (verdict, found, linked, record_human_verdict)
            (apply_verdict-IsConsistent db i l v (known_case db i.case_id r h found).0 h)
    ]
  ]
]

pub approve_case-IsConsistent :
    (db : Db) (i : ReviewInput) → IsConsistent db → IsConsistent (approve_case db i).0
unfolding approve_case
approve_case-IsConsistent db i h = elim (Option-cases (find_case_by_id db i.case_id)) [
  | inl missing ↦ ground (arith, h)
  | inr (r, found) ↦ elim (Bool-cases (is_approved r.status)) [
    | inl already ↦ ground (arith, h)
    | inr fresh ↦ ground (
      arith,
      (publish-IsConsistent db r.id i.actor i.reason (obj end)
          (ground (arith, known_case db i.case_id r h found)) h),
    )
  ]
]

pub unpublish_case-IsConsistent :
    (db : Db) (i : ReviewInput) → IsConsistent db → IsConsistent (unpublish_case db i).0
unfolding unpublish_case
unpublish_case-IsConsistent db i h = elim (Option-cases (find_case_by_id db i.case_id)) [
  | inl missing ↦ ground (arith, h)
  | inr (r, found) ↦ ground (
    arith,
    h,
    withdraw-IsConsistent db r.id i.actor (some (i.reason or_else "pulled_back_from_public"))
        (obj end) (ground (arith, known_case db i.case_id r h found)) h,
  )
]

pub sync_case_publication-IsConsistent :
    (db : Db) (c : ℕ) → IsConsistent db → IsConsistent (sync_case_publication db c).0
unfolding sync_case_publication
sync_case_publication-IsConsistent db c h = elim (Option-cases (find_case_by_id db c)) [
  | inl missing ↦ ground (arith, h)
  | inr (r, found) ↦
      let known = (known_case db c r h found).0 in
      ground (
        arith,
        h,
        publish-IsConsistent db c cvss_auto_publish_actor (some "auto_publish") (gate_payload db c)
            known h,
        withdraw-IsConsistent db c cvss_auto_publish_actor (some "auto_publish_gates_cleared")
            (gate_payload db c) known h,
      )
]

pub sync_cases-IsConsistent :
    (db : Db) (rows : List CveCase) → IsConsistent db → IsConsistent (sync_cases db rows).0
unfolding sync_cases
sync_cases-IsConsistent db [] h = h
sync_cases-IsConsistent db (r ∷ rest) h =
    sync_cases-IsConsistent (sync_case_publication db r.id).0 rest
      (sync_case_publication-IsConsistent db r.id h)

pub sync_all-IsConsistent :
    (db : Db) → IsConsistent db → IsConsistent (sync_all_case_publications db).0
unfolding sync_all_case_publications
sync_all-IsConsistent db h = sync_cases-IsConsistent db db.cases h
