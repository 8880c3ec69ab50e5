-- ===== src/Alerts/Stage.antt =====
-- src/pipeline/alert-stage.ts and src/db/repositories/alert.repository.ts: one row of `alerts` for each
-- candidate event, sent or suppressed. What the environment sets is a parameter; the events and their links
-- are the tables of src/db/repositories/event.repository.ts.
pub mod Fatigue
pub mod Counts
use mathlib.Core.Option
use ai_event_intelligence_ag.Base.{
  ℕ, ◌+◌, ◌*◌, ◌==◌, String, Bool, true, false, not, ◌&&◌, Option, none, some, List, [], ◌∷◌,
  if◌then◌else◌, ltb, leb, str_eq, keep, any, head?, length,
}
use ai_event_intelligence_ag.Base.Sort.{sort}
use ai_event_intelligence_ag.Alerts.{
  AlertDecision, AlertEvent, AlertOptions, AlertTier, RecentAlert, confirmed, early_warning,
  decide_alert,
}
use ai_event_intelligence_ag.Events.Records.{AlertRow, CyberEvent, EventArticle, EventDb}
use ai_event_intelligence_ag.Events.Queues.{list_alert_candidates}

-- What the stage reads of the environment.
pub record AlertSettings : Type 0 where
  pub suppression_hours : ℕ
  pub min_confidence : ℕ
  pub early_window_hours : ℕ

abbrev pub alert_event : CyberEvent → AlertEvent
alert_event e = record {
  affected_vendors = some e.affected_vendors;
  severity = e.severity;
  urgency = e.urgency;
  confidence = e.confidence;
  first_seen_at = e.first_seen_at;
}

-- The row that `createAlert` inserts for a decision of the stage.
abbrev pub alert_row : EventDb → CyberEvent → AlertDecision → AlertRow
alert_row db e decision = record {
  id = db.next_alert_id;
  event_id = e.id;
  alert_status = if decision.should_alert then "sent" else "suppressed";
  alert_tier = decision.tier;
  alert_reason = decision.reason;
  severity = e.severity;
  urgency = e.urgency;
  suppressed = decision.suppressed;
  suppression_reason = if decision.suppressed then some decision.reason else none;
  sent_at = if decision.suppressed then none else some db.now;
  created_at = db.now;
}

-- `createAlert`
unfoldable pub create_alert : EventDb → AlertRow → EventDb
create_alert db row = record db { next_alert_id = db.next_alert_id + 1; alerts = row ∷ db.alerts }

-- The WHERE of `getRecentAlert`.
abbrev pub is_recent_alert : ℕ → ℕ → ℕ → AlertRow → Bool
is_recent_alert now hours event_id a =
    a.event_id == event_id && not a.suppressed && ltb now (a.created_at + hours * 3600000)

-- ORDER BY created_at DESC; of two rows of one time the one stored last comes first.
abbrev pub created_before : AlertRow → AlertRow → Bool
created_before a b = leb b.created_at a.created_at

-- `getRecentAlert`
unfoldable pub get_recent_alert : EventDb → ℕ → ℕ → Option RecentAlert
get_recent_alert db event_id hours =
    Option.map (λ (a : AlertRow). record { tier = a.alert_tier; created_at = a.created_at })
      (head? (sort created_before (keep (is_recent_alert db.now hours event_id) db.alerts)))

-- `hasMaterialUpdateSince`
unfoldable pub has_material_update_since : EventDb → ℕ → ℕ → Bool
has_material_update_since db event_id since =
    any
      (λ (l : EventArticle).
        l.event_id == event_id && l.is_material_update && ltb since l.created_at)
      db.event_articles

abbrev pub options_of : AlertSettings → EventDb → CyberEvent → AlertOptions
options_of settings db e = record {
  recent_alert = get_recent_alert db e.id settings.suppression_hours;
  has_new_material_update = elim (get_recent_alert db e.id settings.suppression_hours) [
    | none ↦ false
    | some recent ↦ has_material_update_since db e.id recent.created_at
  ];
  min_confidence = settings.min_confidence;
  early_window_hours = settings.early_window_hours;
  now = db.now;
}

-- The decision on an event, with what the tables say of it.
unfoldable pub decide_event : AlertSettings → EventDb → CyberEvent → AlertDecision
decide_event settings db e = decide_alert (alert_event e) (options_of settings db e)

-- `AlertStageResult`
pub record AlertStageResult : Type 0 where
  pub reviewed : ℕ
  pub sent : ℕ
  pub suppressed : ℕ
  pub early_warnings : ℕ
  pub confirmed_alerts : ℕ
  pub upgrades : ℕ
  pub material_update_bypasses : ℕ

abbrev pub count_if : Bool → ℕ → ℕ
count_if b n = if b then n + 1 else n

abbrev pub is_tier : AlertTier → Option AlertTier → Bool
is_tier early_warning (some early_warning) = true
is_tier confirmed (some confirmed) = true
is_tier _ _ = false

abbrev pub count_decision : AlertDecision → AlertStageResult → AlertStageResult
count_decision decision r =
    if decision.should_alert
    then record r {
      sent = r.sent + 1;
      early_warnings = count_if (is_tier early_warning decision.tier) r.early_warnings;
      confirmed_alerts = count_if (is_tier confirmed decision.tier) r.confirmed_alerts;
      upgrades = count_if (str_eq decision.reason "upgraded_to_confirmed") r.upgrades;
      material_update_bypasses =
          count_if (str_eq decision.reason "material_update_bypasses_suppression")
            r.material_update_bypasses;
    }
    else record r { suppressed = r.suppressed + 1 }

-- One turn of the loop.
unfoldable pub alert_turn : AlertSettings → EventDb → CyberEvent → EventDb
alert_turn settings db e = create_alert db (alert_row db e (decide_event settings db e))

-- The loop.
unfoldable pub alert_turns :
    AlertSettings → EventDb → List CyberEvent → AlertStageResult → EventDb × AlertStageResult
alert_turns settings db [] r = (db, r)
alert_turns settings db (e ∷ rest) r =
    alert_turns settings (alert_turn settings db e) rest
      (count_decision (decide_event settings db e) r)

abbrev pub no_alerts : ℕ → AlertStageResult
no_alerts reviewed = record {
  reviewed = reviewed;
  sent = 0;
  suppressed = 0;
  early_warnings = 0;
  confirmed_alerts = 0;
  upgrades = 0;
  material_update_bypasses = 0;
}

-- `runAlertStage`
unfoldable pub run_alert_stage : AlertSettings → EventDb → ℕ → EventDb × AlertStageResult
run_alert_stage settings db limit =
    let candidates = list_alert_candidates db limit in
    alert_turns settings db candidates (no_alerts (length candidates))
