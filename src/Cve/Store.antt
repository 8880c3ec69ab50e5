-- ===== src/Cve/Store.antt =====
-- The tables that src/db/repositories/cve-case.repository.ts reads and writes, and its queries.
-- A table lists its rows newest first, so ORDER BY created_at DESC, id DESC and ORDER BY
-- retrieved_at DESC, id DESC are the table's own order: ids and clock only grow.
-- What goes into a `JSONB` column is printed by JSON.stringify before, and the column reorders its
-- members.
-- The clock `now` is that of the database; it moves between queries, never inside one.
use mathlib.Core.Option
use ai_event_intelligence_ag.Base.{
  ℕ, ◌+◌, String, Bool, true, false, ◌&&◌, Option, none, some, List, ◌∷◌, ◌==◌, str_eq,
  if◌then◌else◌, coalesce, is_some, find, keep, length, any, reverse, leb, ltb, ◌||◌,
}
use ai_event_intelligence_ag.Base.Table.{find_by, update_by, update_where}
use ai_event_intelligence_ag.Base.Sort.{sort}
use ai_event_intelligence_ag.StableJson.{Json}
use ai_event_intelligence_ag.StableJson.Jsonb.{to_jsonb}
use ai_event_intelligence_ag.Cve.Records.{
  draft, approved, LifecycleState, SourceName, SourceStatus, AttemptKind, ReviewEventKind,
  ReviewState, CveCase, CaseArticle, Observation, ReviewEvent, RefreshState, source_eq,
  is_confirmed, is_approved, is_terminal_status,
}

pub record Db : Type 0 where
  pub now : ℕ
  pub articles : List ℕ  -- the ids of the articles table
  pub cases : List CveCase
  pub next_case_id : ℕ
  pub case_articles : List CaseArticle
  pub next_case_article_id : ℕ
  pub observations : List Observation
  pub next_observation_id : ℕ
  pub review_events : List ReviewEvent
  pub next_review_event_id : ℕ
  pub refresh_states : List RefreshState

abbrev pub case_key : CveCase → ℕ
case_key r = r.id

abbrev pub case_article_key : CaseArticle → ℕ
case_article_key r = r.id

-- Time passes between queries.
unfoldable pub advance : ℕ → Db → Db
advance ms db = record db { now = db.now + ms }

abbrev pub find_case_by_id : Db → ℕ → Option CveCase
find_case_by_id db case_id = find_by case_key case_id db.cases

abbrev pub find_case_by_cve_id : Db → String → Option CveCase
find_case_by_cve_id db cve_id = find (λ r. str_eq r.cve_id cve_id) db.cases

abbrev pub new_case : Db → String → Option ℕ → CveCase
new_case db cve_id first_seen_article_id = record {
  id = db.next_case_id;
  cve_id = cve_id;
  status = draft;
  first_seen_at = db.now;
  first_seen_article_id = first_seen_article_id;
  last_enriched_at = none;
  approved_at = none;
  approved_by_actor = none;
  reverted_at = none;
  reverted_by_actor = none;
  created_at = db.now;
  updated_at = db.now;
}

-- REFERENCES articles(id): the insert is refused for an article that is not there.
abbrev pub has_article : Db → ℕ → Bool
has_article db article_id = any (λ a. a == article_id) db.articles

abbrev pub references_article : Db → Option ℕ → Bool
references_article db none = true
references_article db (some article_id) = has_article db article_id

-- `ensureCase`: an existing row comes back as it is, a missing one is inserted, and `none` is the
-- error thrown for a foreign key that is not there. The serial id is used up either way.
unfoldable pub ensure_case : Db → String → Option ℕ → Db × Option CveCase
ensure_case db cve_id first_seen_article_id =
    let used = record db { next_case_id = db.next_case_id + 1 } in
    let fresh = new_case db cve_id first_seen_article_id in
    elim (find_case_by_cve_id db cve_id) [
      | some r ↦ (used, some r)
      | none ↦
          if references_article db first_seen_article_id
          then (record used { cases = fresh ∷ db.cases }, some fresh)
          else (used, none)
    ]

abbrev pub set_case : ℕ → (CveCase → CveCase) → Db → Db
set_case case_id f db = record db { cases = update_by case_key case_id f db.cases }

abbrev pub approve_row : ℕ → String → CveCase → CveCase
approve_row now actor r = record r {
  status = approved;
  approved_at = some now;
  approved_by_actor = some actor;
  reverted_at = none;
  reverted_by_actor = none;
  updated_at = now;
}

unfoldable pub mark_approved : ℕ → String → Db → Db
mark_approved case_id actor db = set_case case_id (approve_row db.now actor) db

abbrev pub unpublish_row : ℕ → String → CveCase → CveCase
unpublish_row now actor r = record r {
  status = draft;
  approved_at = none;
  approved_by_actor = none;
  reverted_at = some now;
  reverted_by_actor = some actor;
  updated_at = now;
}

unfoldable pub mark_unpublished : ℕ → String → Db → Db
mark_unpublished case_id actor db = set_case case_id (unpublish_row db.now actor) db

unfoldable pub mark_auto_reverted : ℕ → String → Db → Db
unfolding mark_unpublished
mark_auto_reverted case_id actor db = mark_unpublished case_id actor db

abbrev pub enrich_row : ℕ → CveCase → CveCase
enrich_row now r = record r { last_enriched_at = some now; updated_at = now }

unfoldable pub mark_enriched : ℕ → Db → Db
mark_enriched case_id db = set_case case_id (enrich_row db.now) db

abbrev pub is_link : ℕ → ℕ → CaseArticle → Bool
is_link case_id article_id r = r.case_id == case_id && r.article_id == article_id

abbrev pub find_case_article : Db → ℕ → ℕ → Option CaseArticle
find_case_article db case_id article_id = find (is_link case_id article_id) db.case_articles

abbrev pub count_confirmed_links : Db → ℕ → ℕ
count_confirmed_links db case_id =
    length (keep (λ r. r.case_id == case_id && is_confirmed r.lifecycle_state) db.case_articles)

-- The argument of `upsertCaseArticle`.
pub record CaseArticleInput : Type 0 where
  pub case_id : ℕ
  pub article_id : ℕ
  pub lifecycle_state : LifecycleState
  pub evidence : Json
  pub first_evidence : Option Json
  pub automated_task_id : Option ℕ

abbrev pub new_case_article : Db → CaseArticleInput → CaseArticle
new_case_article db i = record {
  id = db.next_case_article_id;
  case_id = i.case_id;
  article_id = i.article_id;
  lifecycle_state = i.lifecycle_state;
  evidence = to_jsonb i.evidence;
  first_evidence = Option.map to_jsonb i.first_evidence;
  automated_task_id = i.automated_task_id;
  created_at = db.now;
  updated_at = db.now;
}

-- ON CONFLICT (case_id, article_id) DO UPDATE
abbrev pub merge_case_article : ℕ → CaseArticleInput → CaseArticle → CaseArticle
merge_case_article now i r = record r {
  lifecycle_state = i.lifecycle_state;
  evidence = to_jsonb i.evidence;
  first_evidence = coalesce r.first_evidence (Option.map to_jsonb i.first_evidence);
  automated_task_id = coalesce r.automated_task_id i.automated_task_id;
  updated_at = now;
}

unfoldable pub upsert_case_article : Db → CaseArticleInput → Db
upsert_case_article db i =
    let used = record db { next_case_article_id = db.next_case_article_id + 1 } in
    if is_some (find_case_article db i.case_id i.article_id)
    then record used {
      case_articles =
          update_where (is_link i.case_id i.article_id) (merge_case_article db.now i)
            db.case_articles;
    }
    else record used { case_articles = new_case_article db i ∷ db.case_articles }

unfoldable pub update_case_article_lifecycle_state : ℕ → LifecycleState → Db → Db
update_case_article_lifecycle_state case_article_id target db = record db {
  case_articles =
      update_by case_article_key case_article_id
        (λ r. record r { lifecycle_state = target; updated_at = db.now }) db.case_articles;
}

-- The argument of `appendSourceObservation`.
pub record ObservationInput : Type 0 where
  pub case_id : ℕ
  pub source : SourceName
  pub status : SourceStatus
  pub normalized_value : Option Json
  pub provenance : Option String
  pub attempt_kind : AttemptKind
  pub last_error : Option String

abbrev pub new_observation : Db → ObservationInput → Observation
new_observation db i = record {
  id = db.next_observation_id;
  case_id = i.case_id;
  source = i.source;
  status = i.status;
  normalized_value = Option.map to_jsonb i.normalized_value;
  provenance = i.provenance;
  retrieved_at = db.now;
  attempt_kind = i.attempt_kind;
  last_error = i.last_error;
  created_at = db.now;
}

unfoldable pub append_source_observation : Db → ObservationInput → Db
append_source_observation db i = record db {
  observations = new_observation db i ∷ db.observations;
  next_observation_id = db.next_observation_id + 1;
}

abbrev pub is_from : ℕ → SourceName → Observation → Bool
is_from case_id source o = o.case_id == case_id && source_eq o.source source

-- `listSourceObservations(caseId, source)`, newest first
abbrev pub list_source_observations : Db → ℕ → SourceName → List Observation
list_source_observations db case_id source = keep (is_from case_id source) db.observations

-- The entry of the map that `listCurrentObservations` returns: DISTINCT ON keeps the newest row.
abbrev pub current_observation : Db → ℕ → SourceName → Option Observation
current_observation db case_id source = find (is_from case_id source) db.observations

-- The entry of the map that `listCurrentTerminalObservations` returns.
abbrev pub current_terminal_observation : Db → ℕ → SourceName → Option Observation
current_terminal_observation db case_id source =
    find (λ o. is_from case_id source o && is_terminal_status o.status) db.observations

-- ORDER BY approved_at DESC NULLS LAST, id ASC
abbrev pub approved_before : Option ℕ → ℕ → Option ℕ → ℕ → Bool
approved_before none i none j = leb i j
approved_before none i (some t) j = false
approved_before (some s) i none j = true
approved_before (some s) i (some t) j = ltb t s || (s == t && leb i j)

-- `listApprovedCases`
abbrev pub list_approved_cases : Db → List CveCase
list_approved_cases db =
    sort (λ a b. approved_before a.approved_at a.id b.approved_at b.id)
      (keep (λ r. is_approved r.status) db.cases)

-- The argument of `appendReviewEvent`.
pub record ReviewEventInput : Type 0 where
  pub case_id : ℕ
  pub case_article_id : Option ℕ
  pub actor : String
  pub event_kind : ReviewEventKind
  pub from_state : Option ReviewState
  pub to_state : Option ReviewState
  pub reason : Option String
  pub payload : Json

abbrev pub new_review_event : Db → ReviewEventInput → ReviewEvent
new_review_event db i = record {
  id = db.next_review_event_id;
  case_id = i.case_id;
  case_article_id = i.case_article_id;
  actor = i.actor;
  event_kind = i.event_kind;
  from_state = i.from_state;
  to_state = i.to_state;
  reason = i.reason;
  payload = to_jsonb i.payload;
  created_at = db.now;
}

unfoldable pub append_review_event : Db → ReviewEventInput → Db
append_review_event db i = record db {
  review_events = new_review_event db i ∷ db.review_events;
  next_review_event_id = db.next_review_event_id + 1;
}

-- oldest first
abbrev pub list_review_events : Db → ℕ → List ReviewEvent
list_review_events db case_id = reverse (keep (λ e. e.case_id == case_id) db.review_events)

abbrev pub get_refresh_state : Db → SourceName → Option RefreshState
get_refresh_state db source = find (λ s. source_eq s.source source) db.refresh_states

-- ON CONFLICT (source) DO UPDATE sets every other column.
abbrev pub overwrite_refresh_state : ℕ → RefreshState → RefreshState → RefreshState
overwrite_refresh_state now s r = record s { source = r.source; updated_at = now }

unfoldable pub upsert_refresh_state : Db → RefreshState → Db
upsert_refresh_state db s =
    if is_some (get_refresh_state db s.source)
    then record db {
      refresh_states =
          update_where (λ r. source_eq r.source s.source) (overwrite_refresh_state db.now s)
            db.refresh_states;
    }
    else record db { refresh_states = overwrite_refresh_state db.now s s ∷ db.refresh_states }
