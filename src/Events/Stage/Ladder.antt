-- ===== src/Events/Stage/Ladder.antt =====
-- The rungs of src/pipeline/event-stage.ts: when the language model is asked, and that an article only
-- joins an event that exists.
use ai_event_intelligence_ag.Base.{
  ℕ, zero, suc, ◌≡◌, ◌+◌, refl, ◌==◌, String, Bool, true, false, not, ◌&&◌, Option, none, some,
  List, [], ◌∷◌, arith, inl, inr, Option-cases, if◌then◌else◌, ltb, leb, map, keep, any, head?,
  is_some, length,
}
use ai_event_intelligence_ag.Base.Sort.{sort, take, any-sort}
use ai_event_intelligence_ag.Base.Table.{find_by}
use ai_event_intelligence_ag.Events.Records.{Article, CyberEvent, EventDb, event_key}
use ai_event_intelligence_ag.Events.Queues.{
  find_open_by_grouping_key, has_text, is_open, seen_before,
}
use ai_event_intelligence_ag.Events.Links.{has_event}
use ai_event_intelligence_ag.Events.Grouping.{
  EventDraft, SimilarEvent, GroupingDecision, GroupingMethod, EventComparison, attach, create,
  uncertain, no_match, decide_event_grouping, apply_comparison, same_event,
}
use ai_event_intelligence_ag.Events.Embeddings.{
  find_similar_events, get_eligible_embedding, is_comparable, measured, closer,
}
use ai_event_intelligence_ag.Events.Stage.{
  Grouping, StageState, key_match_of, similar_events_of, ladder, decide_grouping,
  resolve_with_comparator,
}

any-head? {ℓ} :
    {A : Type ℓ} (p : A → Bool) (xs : List A) (x : A)
    → head? xs ≡ some x
    → p x ≡ true
    → any p xs ≡ true
any-head? p [] x h holds = cc
any-head? p (y ∷ xs) x h holds = ground arith

any-keep {ℓ} :
    {A : Type ℓ} (p q : A → Bool) (xs : List A) → any p (keep q xs) ≡ true → any p xs ≡ true
any-keep p q [] h = h
any-keep p q (x ∷ xs) h = ground (arith, any-keep p q xs)

any-take {ℓ} :
    {A : Type ℓ} (p : A → Bool) (n : ℕ) (xs : List A) → any p (take n xs) ≡ true → any p xs ≡ true
any-take p zero xs h = cc
any-take p (suc n) [] h = h
any-take p (suc n) (x ∷ xs) h = ground (arith, any-take p n xs)

any-map {ℓ κ} :
    {A : Type ℓ} {B : Type κ} (p : B → Bool) (f : A → B) (xs : List A)
    → any p (map f xs) ≡ any (λ x. p (f x)) xs
any-map p f [] = refl
any-map p f (x ∷ xs) = ground (arith, any-map p f xs)

any-find_by :
    (k : ℕ) (events : List CyberEvent)
    → any (λ (e : CyberEvent). e.id == k) events ≡ is_some (find_by event_key k events)
any-find_by k [] = refl
any-find_by k (e ∷ events) = ground (arith, any-find_by k events)

-- An event found by its key exists.
pub find_open_by_grouping_key-has_event :
    (db : EventDb) (key : String) (e : CyberEvent)
    → find_open_by_grouping_key db key ≡ some e
    → has_event db e.id ≡ true
unfolding find_open_by_grouping_key
find_open_by_grouping_key-has_event db key e h =
    let here : CyberEvent → Bool = λ (d : CyberEvent). d.id == e.id in
    let rows = keep (λ d. has_text key d.grouping_key && is_open d) db.events in
    ground (
      arith,
      any-head? here (sort seen_before rows) e h (ground arith),
      any-sort seen_before here rows,
      any-keep here (λ d. has_text key d.grouping_key && is_open d) db.events,
      any-find_by e.id db.events,
    )

-- The nearest event exists.
pub find_similar_events-has_event :
    (db : EventDb) (distance : String → String → ℕ) (model vector : String) (limit : ℕ)
    (best : SimilarEvent)
    → head? (find_similar_events db distance model vector limit) ≡ some best
    → has_event db best.event.id ≡ true
unfolding find_similar_events
find_similar_events-has_event db distance model vector limit best h =
    let here : CyberEvent → Bool = λ (d : CyberEvent). d.id == best.event.id in
    let near : SimilarEvent → Bool = λ s. here s.event in
    let rows = keep (is_comparable db.now model) db.events in
    let all = map (measured distance vector) rows in
    ground (
      arith,
      any-head? near (take limit (sort closer all)) best h (ground arith),
      any-take near limit (sort closer all),
      any-sort closer near all,
      any-map near (measured distance vector) rows,
      any-keep here (is_comparable db.now model) db.events,
      any-find_by best.event.id db.events,
    )

abbrev pub is_uncertain : GroupingDecision → Bool
is_uncertain (uncertain _) = true
is_uncertain _ = false

abbrev pub is_attachment : GroupingMethod → Bool
is_attachment no_match = false
is_attachment _ = true

-- What a decision refers to exists, and an attachment says how it was found.
abbrev pub is_known : EventDb → GroupingDecision → Bool
is_known db (attach event _ _ _ method) = has_event db event.id && is_attachment method
is_known db (uncertain candidate) = has_event db candidate.event.id
is_known db (create _) = true

decide_event_grouping-is_known :
    (db : EventDb) (key : String) (match : Option CyberEvent) (similar : List SimilarEvent)
    → ((e : CyberEvent) → match ≡ some e → has_event db e.id ≡ true)
    → ((best : SimilarEvent) → head? similar ≡ some best → has_event db best.event.id ≡ true)
    → is_known db (decide_event_grouping key match similar) ≡ true
unfolding decide_event_grouping
decide_event_grouping-is_known db key none [] known near = refl
decide_event_grouping-is_known db key none (best ∷ more) known near = ground (arith, near best refl)
decide_event_grouping-is_known db key (some e) [] known near = ground (arith, known e refl)
decide_event_grouping-is_known db key (some e) (best ∷ more) known near =
    ground (arith, known e refl, near best refl)

similar_events_of-has_event :
    (g : Grouping) (s : StageState) (article : Article) (match : Option CyberEvent)
    (best : SimilarEvent)
    → head? (similar_events_of g s article match) ≡ some best
    → has_event s.db best.event.id ≡ true
similar_events_of-has_event g s article (some _) best h = cc
similar_events_of-has_event g s article none best h =
    elim (Option-cases (get_eligible_embedding s.db g.model article.id)) [
      | inl missing ↦ ground arith
      | inr (vector, there) ↦
          ground (arith, find_similar_events-has_event s.db g.distance g.model vector 3 best)
    ]

ladder-is_known :
    (g : Grouping) (s : StageState) (article : Article) (draft : EventDraft)
    → is_known s.db (ladder g s article draft) ≡ true
unfolding ladder
ladder-is_known g s article draft =
    decide_event_grouping-is_known s.db draft.grouping_key (key_match_of s draft)
      (similar_events_of g s article (key_match_of s draft))
      (λ e h. ground (arith, find_open_by_grouping_key-has_event s.db draft.grouping_key e))
      (λ best h. similar_events_of-has_event g s article (key_match_of s draft) best h)

-- The event that a decision names exists, and an attachment was found on some rung.
pub decide_grouping-is_known :
    (g : Grouping) (s : StageState) (article : Article) (draft : EventDraft)
    → is_known s.db (decide_grouping g s article draft).1 ≡ true
unfolding decide_grouping resolve_with_comparator apply_comparison
decide_grouping-is_known g s article draft = ground (arith, ladder-is_known g s article draft)

abbrev pub is_create : GroupingDecision → Bool
is_create (create _) = true
is_create _ = false

-- The comparator answered that the two are one event.
abbrev pub says_same : Option EventComparison → Bool
says_same none = false
says_same (some comparison) = elim comparison.relationship [ same_event ↦ true | _ ↦ false ]

-- The distance that neither rung decides.
abbrev pub is_doubtful : Option SimilarEvent → Bool
is_doubtful none = false
is_doubtful (some best) = ltb 150000000 best.distance && leb best.distance 350000000

-- A language model is asked about an article exactly when a comparator is there, no open event has the
-- article's key, and the nearest event lies farther than 0.15 but not farther than 0.35; each question
-- counts as one comparison and leaves one audit record. An article of which no event was found by key or
-- within 0.35 starts its own event, and so does one whose comparison throws.
pub decide_grouping-llm_compared :
    (g : Grouping) (s : StageState) (article : Article) (draft : EventDraft)
    → let nearest = head? (similar_events_of g s article (key_match_of s draft)) in
      let asked =
        not (is_some (key_match_of s draft)) && is_doubtful nearest && is_some g.comparator in
      let (after, decision) = decide_grouping g s article draft in
      (after.result.llm_compared
        ≡ (if asked then s.result.llm_compared + 1 else s.result.llm_compared))
      × (length after.audits ≡ (if asked then length s.audits + 1 else length s.audits))
      × (is_create decision ≡ (
          not (is_some (key_match_of s draft)) && elim nearest [
            | none ↦ true
            | some best ↦ ltb 150000000 best.distance && elim g.comparator [
              | none ↦ true
              | some comparator ↦
                  not (leb best.distance 350000000 && says_same (comparator article best.event))
            ]
          ]))
unfolding decide_grouping ladder decide_event_grouping resolve_with_comparator apply_comparison
decide_grouping-llm_compared g s article draft = ground arith
