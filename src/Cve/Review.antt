-- ===== src/Cve/Review.antt =====
-- src/cve/review.ts: human verdicts on links, publication of cases, and the automatic gate. Each
-- function returns the state of the tables with its result. A verdict comes in as a text, as the
-- route hands it over.
pub mod Publication
pub mod Verdict
pub mod Journal
use ai_event_intelligence_ag.Base.{
  ℕ, String, Bool, true, false, not, ◌&&◌, ◌||◌, Option, none, some, List, [], ◌∷◌, leb, str_eq,
  if◌then◌else◌, ◌or_else◌,
}
use ai_event_intelligence_ag.StableJson.{
  Json, null, num, bool, obj, end, field, units, member, ◌or_json◌, number?, is_true,
}
use ai_event_intelligence_ag.Cve.Records.{
  draft, approved, LifecycleState, human_confirmed, human_rejected, human_uncertain, nvd, kev,
  SourceStatus, human_verdict, approval, unapproval, status, link, CveCase, CaseArticle,
  Observation, is_approved, lifecycle_eq,
}
use ai_event_intelligence_ag.Cve.Store.{
  Db, find_case_by_id, find_case_article, mark_approved, mark_unpublished,
  update_case_article_lifecycle_state, append_review_event, ReviewEventInput,
  current_terminal_observation,
}

-- CVSS_AUTO_PUBLISH_THRESHOLD
abbrev pub cvss_auto_publish_threshold : ℕ
cvss_auto_publish_threshold = units 9

-- CVSS_AUTO_PUBLISH_ACTOR
abbrev pub cvss_auto_publish_actor : String
cvss_auto_publish_actor = "system:cvss_auto_publish"

-- `isHumanVerdict`, with the state that the text names.
unfoldable pub parse_human_verdict : String → Option LifecycleState
parse_human_verdict value =
    if str_eq value "human_confirmed"
    then some human_confirmed
    else if str_eq value "human_rejected"
    then some human_rejected
    else if str_eq value "human_uncertain"
    then some human_uncertain
    else none

pub data VerdictReason : Type 0 where
  case_not_found case_article_not_found invalid_verdict no_change : VerdictReason

pub record VerdictInput : Type 0 where
  pub case_id : ℕ
  pub article_id : ℕ
  pub verdict : String
  pub actor : String
  pub reason : Option String

pub record VerdictResult : Type 0 where
  pub ok : Bool
  pub case_article_id : Option ℕ
  pub from_state : Option LifecycleState
  pub to_state : Option LifecycleState
  pub reason : Option VerdictReason

abbrev pub verdict_refused : VerdictReason → VerdictResult
verdict_refused why = record {
  ok = false;
  case_article_id = none;
  from_state = none;
  to_state = none;
  reason = some why;
}

abbrev pub verdict_event : VerdictInput → CaseArticle → LifecycleState → ReviewEventInput
verdict_event i l target = record {
  case_id = i.case_id;
  case_article_id = some l.id;
  actor = i.actor;
  event_kind = human_verdict;
  from_state = some (link l.lifecycle_state);
  to_state = some (link target);
  reason = i.reason;
  payload = obj (field "articleId" (num (units i.article_id)) end);
}

-- The write of a verdict on a link that is there.
apply_verdict : Db → VerdictInput → CaseArticle → LifecycleState → Db × VerdictResult
apply_verdict db i l target =
    if lifecycle_eq l.lifecycle_state target
    then (
      db,
      record {
        ok = true;
        case_article_id = some l.id;
        from_state = some l.lifecycle_state;
        to_state = some l.lifecycle_state;
        reason = some no_change;
      },
    )
    else (
      append_review_event (update_case_article_lifecycle_state l.id target db)
          (verdict_event i l target),
      record {
        ok = true;
        case_article_id = some l.id;
        from_state = some l.lifecycle_state;
        to_state = some target;
        reason = none;
      },
    )

-- `recordHumanVerdict`
unfoldable pub record_human_verdict : Db → VerdictInput → Db × VerdictResult
unfolding apply_verdict
record_human_verdict db i = elim (parse_human_verdict i.verdict) [
  | none ↦ (db, verdict_refused invalid_verdict)
  | some target ↦ elim (find_case_by_id db i.case_id) [
    | none ↦ (db, verdict_refused case_not_found)
    | some r ↦ elim (find_case_article db i.case_id i.article_id) [
      | none ↦ (db, verdict_refused case_article_not_found)
      | some l ↦ apply_verdict db i l target
    ]
  ]
]

pub record ReviewInput : Type 0 where
  pub case_id : ℕ
  pub actor : String
  pub reason : Option String

pub data BlockReason : Type 0 where
  case_not_found not_published : BlockReason

pub record ReviewResult : Type 0 where
  pub ok : Bool
  pub reason : Option BlockReason
  pub case_record : Option CveCase

abbrev pub approval_event : ℕ → String → Option String → Json → ReviewEventInput
approval_event case_id actor reason payload = record {
  case_id = case_id;
  case_article_id = none;
  actor = actor;
  event_kind = approval;
  from_state = some (status draft);
  to_state = some (status approved);
  reason = reason;
  payload = payload;
}

abbrev pub unapproval_event : ℕ → String → Option String → Json → ReviewEventInput
unapproval_event case_id actor reason payload = record {
  case_id = case_id;
  case_article_id = none;
  actor = actor;
  event_kind = unapproval;
  from_state = some (status approved);
  to_state = some (status draft);
  reason = reason;
  payload = payload;
}

-- A case is marked and the change is journalled: the two writes of every publication.
unfoldable pub publish : ℕ → String → Option String → Json → Db → Db
publish case_id actor reason payload db =
    append_review_event (mark_approved case_id actor db)
      (approval_event case_id actor reason payload)

unfoldable pub withdraw : ℕ → String → Option String → Json → Db → Db
withdraw case_id actor reason payload db =
    append_review_event (mark_unpublished case_id actor db)
      (unapproval_event case_id actor reason payload)

abbrev pub reviewed : Db → ℕ → Db × ReviewResult
reviewed db case_id =
    (db, record { ok = true; reason = none; case_record = find_case_by_id db case_id })

-- `approveCase`
unfoldable pub approve_case : Db → ReviewInput → Db × ReviewResult
approve_case db i = elim (find_case_by_id db i.case_id) [
  | none ↦ (db, record { ok = false; reason = some case_not_found; case_record = none })
  | some r ↦
      if is_approved r.status
      then (db, record { ok = true; reason = none; case_record = some r })
      else reviewed (publish r.id i.actor i.reason (obj end) db) r.id
]

-- `unpublishCase`
unfoldable pub unpublish_case : Db → ReviewInput → Db × ReviewResult
unpublish_case db i = elim (find_case_by_id db i.case_id) [
  | none ↦ (db, record { ok = false; reason = some case_not_found; case_record = none })
  | some r ↦
      if is_approved r.status
      then reviewed
          (withdraw r.id i.actor (some (i.reason or_else "pulled_back_from_public")) (obj end) db)
          r.id
      else (db, record { ok = false; reason = some not_published; case_record = none })
]

abbrev pub is_ok_status : SourceStatus → Bool
is_ok_status SourceStatus.ok = true
is_ok_status _ = false

-- `normalizedValue?.value ?? null`
abbrev pub stored_value : Option Json → Json
stored_value none = null
stored_value (some v) = member "value" v or_json null

unfoldable pub read_cvss_base : Option Observation → Option ℕ
read_cvss_base none = none
read_cvss_base (some o) =
    let value = stored_value o.normalized_value in
    if is_ok_status o.status
    then number? (
        member "base" (member "cvssV3" value)
        or_json member "base" (member "cvssV2" value)
        or_json null)
    else none

unfoldable pub read_kev_listed : Option Observation → Bool
read_kev_listed none = false
read_kev_listed (some o) =
    if is_ok_status o.status
    then is_true (member "listed" (stored_value o.normalized_value))
    else false

abbrev pub reaches_threshold : Option ℕ → Bool
reaches_threshold none = false
reaches_threshold (some base) = leb cvss_auto_publish_threshold base

abbrev pub cvss_base : Db → ℕ → Option ℕ
cvss_base db case_id = read_cvss_base (current_terminal_observation db case_id nvd)

abbrev pub kev_listed : Db → ℕ → Bool
kev_listed db case_id = read_kev_listed (current_terminal_observation db case_id kev)

-- `shouldPublish` of the sync
unfoldable pub should_publish : Db → ℕ → Bool
should_publish db case_id = reaches_threshold (cvss_base db case_id) || kev_listed db case_id

pub data SyncAction : Type 0 where
  published unpublished unchanged : SyncAction

pub record SyncResult : Type 0 where
  pub case_id : ℕ
  pub action : SyncAction
  pub cvss_base : Option ℕ

abbrev pub json_of_number : Option ℕ → Json
json_of_number none = null
json_of_number (some n) = num n

abbrev pub gate_payload : Db → ℕ → Json
gate_payload db case_id = obj (
    field "cvssBase" (json_of_number (cvss_base db case_id))
      (field "kevListed" (bool (kev_listed db case_id)) end))

abbrev pub sync_result : Db → ℕ → SyncAction → SyncResult
sync_result db case_id action = record {
  case_id = case_id;
  action = action;
  cvss_base = cvss_base db case_id;
}

-- `syncCasePublicationFromCvss`
unfoldable pub sync_case_publication : Db → ℕ → Db × SyncResult
sync_case_publication db case_id = elim (find_case_by_id db case_id) [
  | none ↦ (db, record { case_id = case_id; action = unchanged; cvss_base = none })
  | some r ↦
      if should_publish db case_id && not (is_approved r.status)
      then (
        publish case_id cvss_auto_publish_actor (some "auto_publish") (gate_payload db case_id) db,
        sync_result db case_id published,
      )
      else if not (should_publish db case_id) && is_approved r.status
      then (
        withdraw case_id cvss_auto_publish_actor (some "auto_publish_gates_cleared")
            (gate_payload db case_id) db,
        sync_result db case_id unpublished,
      )
      else (db, sync_result db case_id unchanged)
]

-- `syncAllCasePublicationsFromCvss`: the loop over the ids of the cases listed before it began.
unfoldable pub sync_cases : Db → List CveCase → Db × List SyncResult
sync_cases db [] = (db, [])
sync_cases db (r ∷ rest) =
    let (next, result) = sync_case_publication db r.id in
    let (last, results) = sync_cases next rest in (last, result ∷ results)

unfoldable pub sync_all_case_publications : Db → Db × List SyncResult
unfolding sync_cases
sync_all_case_publications db = sync_cases db db.cases
