-- ===== src/Events/Memberships.antt =====
-- What an analyst asks of src/events/event-editorial.ts, and what each request means for a relation
-- between events and articles.
use ai_event_intelligence_ag.Base.{
  ℕ, ◌≡◌, ◌+◌, ◌==◌, Bool, true, false, not, ◌&&◌, ◌||◌, List, [], ◌∷◌, if◌then◌else◌,
}
use ai_event_intelligence_ag.Events.Records.{EventDb}
use ai_event_intelligence_ag.Events.Links.{is_member, has_event, has_article}
use ai_event_intelligence_ag.Events.Editorial.{
  CreateEventFromArticlesInput, attach_article_to_event, create_event_from_articles,
  detach_article_from_event, distinct_ids, move_article_between_events,
}
use ai_event_intelligence_ag.Events.Creation.{is_among, is_returned}

-- What an analyst asks for.
pub data EditorialCommand : Type 0 where
  create_of : CreateEventFromArticlesInput → EditorialCommand
  attach_of detach_of : ℕ → ℕ → EditorialCommand
  move_of : ℕ → ℕ → ℕ → EditorialCommand

-- Runs a command: the tables after it, and whether it returned.
unfoldable pub execute : EventDb → EditorialCommand → EventDb × Bool
execute db (create_of i) =
    let (after, outcome) = create_event_from_articles db i in (after, is_returned outcome)
execute db (attach_of event_id article_id) =
    let (after, outcome) = attach_article_to_event db event_id article_id in
    (after, is_returned outcome)
execute db (detach_of event_id article_id) =
    let (after, outcome) = detach_article_from_event db event_id article_id in
    (after, is_returned outcome)
execute db (move_of article_id from to) =
    let (after, outcome) = move_article_between_events db article_id from to in
    (after, is_returned outcome)

unfoldable pub execute_all : EventDb → List EditorialCommand → EventDb × List Bool
unfolding execute
execute_all db [] = (db, [])
execute_all db (c ∷ commands) =
    let (next, answer) = execute db c in
    let (after, answers) = execute_all next commands in (after, answer ∷ answers)

-- Which events and articles there are, and which belong together.
pub record Memberships : Type 0 where
  pub next : ℕ
  pub events : ℕ → Bool
  pub articles : ℕ → Bool
  pub member : ℕ → ℕ → Bool

abbrev pub are_known : (ℕ → Bool) → List ℕ → Bool
are_known known [] = true
are_known known (a ∷ ids) = known a && are_known known ids

abbrev pub named_ids : CreateEventFromArticlesInput → List ℕ
named_ids i = distinct_ids [] i.article_ids

abbrev pub may_create : Memberships → List ℕ → Bool
may_create m [] = false
may_create m (a ∷ ids) = are_known m.articles (a ∷ ids)

abbrev pub may_attach : Memberships → ℕ → ℕ → Bool
may_attach m e a = m.member e a || (m.events e && m.articles a)

abbrev pub with_pair : Memberships → ℕ → ℕ → Memberships
with_pair m e a = record m { member = λ d b. m.member d b || (e == d && a == b) }

abbrev pub without_pair : Memberships → ℕ → ℕ → Memberships
without_pair m e a = record m { member = λ d b. m.member d b && not (e == d && a == b) }

-- What each command means.
abbrev pub specified : Memberships → EditorialCommand → Memberships × Bool
specified m (create_of i) =
    if may_create m (named_ids i)
    then (
      record m {
        next = m.next + 1;
        events = λ e. m.events e || m.next == e;
        member = λ e b. m.member e b || (m.next == e && is_among b (named_ids i));
      },
      true,
    )
    else (m, false)
specified m (attach_of e a) = if may_attach m e a then (with_pair m e a, true) else (m, false)
specified m (detach_of e a) = if m.member e a then (without_pair m e a, true) else (m, false)
specified m (move_of a from to) =
    if not (from == to) && m.member from a && may_attach m to a
    then (with_pair (without_pair m from a) to a, true)
    else (m, false)

abbrev pub specified_all : Memberships → List EditorialCommand → Memberships × List Bool
specified_all m [] = (m, [])
specified_all m (c ∷ commands) =
    let (next, answer) = specified m c in
    let (after, answers) = specified_all next commands in (after, answer ∷ answers)

-- The view shows what the tables hold.
pub record IsViewOf (m : Memberships) (db : EventDb) : Type 0 where
  pub next : db.next_event_id ≡ m.next
  pub events : (e : ℕ) → has_event db e ≡ m.events e
  pub articles : (a : ℕ) → has_article db a ≡ m.articles a
  pub member : (e a : ℕ) → is_member db e a ≡ m.member e a
