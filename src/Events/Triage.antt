-- ===== src/Events/Triage.antt =====
-- The triage queue of src/db/repositories/event.repository.ts through approveEvent and unpublishEvent of
-- src/events/event-editorial.ts.
use ai_event_intelligence_ag.Base.{
  ℕ, ◌≡◌, refl, ◌==◌, Bool, true, false, not, ◌&&◌, ◌||◌, none, some, List, [], ◌∷◌, arith, inl,
  inr, Option-cases, if◌then◌else◌, any, is_some, find,
}
use ai_event_intelligence_ag.Base.Table.{update_by, find_by}
use ai_event_intelligence_ag.Events.Records.{
  CyberEvent, EventArticle, EventDb, PublicationStatus, draft, approved, is_approved, event_key,
}
use ai_event_intelligence_ag.Events.Store.{find_event, is_link, set_publication_status}
use ai_event_intelligence_ag.Events.Editorial.{approve_event, unpublish_event, is_named}
use ai_event_intelligence_ag.Events.Links.{is_member, has_event}
use ai_event_intelligence_ag.Events.Creation.{is_returned}
use ai_event_intelligence_ag.Events.Queues.{needs_triage, joins_approved}

-- Some event is the given one, and has the test's blessing.
abbrev is_blessed : ℕ → (CyberEvent → Bool) → List CyberEvent → Bool
is_blessed k p events = any (λ (e : CyberEvent). e.id == k && p e) events

abbrev is_published : CyberEvent → Bool
is_published e = is_approved e.publication_status

published_after :
    (k event_id : ℕ) (f : CyberEvent → CyberEvent) (status : PublicationStatus)
    (events : List CyberEvent)
    → ((e : CyberEvent) → event_key (f e) ≡ event_key e)
    → ((e : CyberEvent) → (f e).publication_status ≡ status)
    → is_blessed k is_published (update_by event_key event_id f events) ≡ (
        if event_id == k
        then is_some (find_by event_key k events) && is_approved status
        else is_blessed k is_published events)
published_after k event_id f status [] keeps sets = ground arith
published_after k event_id f status (e ∷ events) keeps sets =
    ground (arith, keeps e, sets e, published_after k event_id f status events keeps sets)

module _ (event_id b : ℕ) (f : CyberEvent → CyberEvent) (events : List CyberEvent)
    (keeps : (e : CyberEvent) → event_key (f e) ≡ event_key e) where
  joins_after_approval :
      (links : List EventArticle)
      → ((e : CyberEvent) → (f e).publication_status ≡ approved)
      → is_some (find_by event_key event_id events) ≡ true
      → any (joins_approved (update_by event_key event_id f events) b) links
        ≡ (any (joins_approved events b) links || is_some (find (is_link event_id b) links))
  joins_after_approval [] sets there = refl
  joins_after_approval (l ∷ links) sets there = ground (
    arith,
    published_after l.event_id event_id f approved events keeps sets,
    joins_after_approval links sets there,
  )

  joins_after_unpublishing :
      (links : List EventArticle)
      → ((e : CyberEvent) → (f e).publication_status ≡ draft)
      → any (joins_approved (update_by event_key event_id f events) b) links
        ≡ any (λ l. joins_approved events b l && not (l.event_id == event_id)) links
  joins_after_unpublishing [] sets = refl
  joins_after_unpublishing (l ∷ links) sets = ground (
    arith,
    published_after l.event_id event_id f draft events keeps sets,
    joins_after_unpublishing links sets,
  )

-- The condition under which an event can be approved.
abbrev pub can_approve : EventDb → ℕ → Bool
can_approve db event_id = elim (find_event db event_id) [ none ↦ false | some e ↦ is_named e ]

-- An approval succeeds exactly when the event exists and names an affected vendor or product; the
-- articles of the event then leave the triage queue, and no others do. A refused approval changes nothing.
pub approve_event-needs_triage :
    (db : EventDb) (event_id b : ℕ)
    → let done = approve_event db event_id in
      let can = can_approve db event_id in
      (is_returned done.1 ≡ can)
      × (needs_triage done.0 b ≡ (needs_triage db b && not (can && is_member db event_id b)))
      × ((if can then db else done.0) ≡ db)
unfolding approve_event set_publication_status
approve_event-needs_triage db event_id b = elim (Option-cases (find_event db event_id)) [
  | inl absent ↦ ground arith
  | inr (e, here) ↦ ground (
    arith,
    joins_after_approval event_id b
        (λ e. record e { publication_status = approved; updated_at = db.now }) db.events (λ e. refl)
        db.event_articles (λ e. refl),
  )
]

-- An event that exists can be unpublished; an article then needs triage exactly when it is in no other
-- approved event.
pub unpublish_event-needs_triage :
    (db : EventDb) (event_id b : ℕ)
    → let done = unpublish_event db event_id in
      (is_returned done.1 ≡ has_event db event_id)
      × (needs_triage done.0 b ≡ (
          if has_event db event_id
          then not (
              any
                (λ l. joins_approved db.events b l && not (l.event_id == event_id))
                db.event_articles)
          else needs_triage db b))
unfolding unpublish_event set_publication_status
unpublish_event-needs_triage db event_id b = elim (Option-cases (find_event db event_id)) [
  | inl absent ↦ ground arith
  | inr (e, here) ↦ ground (
    arith,
    joins_after_unpublishing event_id b
        (λ e. record e { publication_status = draft; updated_at = db.now }) db.events (λ e. refl)
        db.event_articles (λ e. refl),
  )
]
