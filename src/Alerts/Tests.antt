-- ===== src/Alerts/Tests.antt =====
-- The alert policy on a critical event of a monitored vendor.
use ai_event_intelligence_ag.Base.{
  ◌≡◌, true, false, ◌&&◌, ◌||◌, not, none, some, [], ◌∷◌, if◌then◌else◌,
}
use ai_event_intelligence_ag.StableJson.{units}
use ai_event_intelligence_ag.Alerts.{
  confirmed, early_warning, AlertEvent, AlertOptions, confirmed_eligible, early_eligible,
  decide_alert,
}
use ai_event_intelligence_ag.Alerts.Policy.{decide_alert-policy}

abbrev breach : AlertEvent
breach = record {
  affected_vendors = some ("acme" ∷ []);
  severity = some "critical";
  urgency = some "P1";
  confidence = some (units 1);
  first_seen_at = some 5000;
}

abbrev quiet : AlertOptions
quiet = record {
  recent_alert = none;
  has_new_material_update = false;
  min_confidence = units 0;
  early_window_hours = 24;
  now = 9000;
}

decide_alert-policy_example :
    let gate = confirmed_eligible breach quiet in
    let decision = decide_alert breach quiet in
    (decision.should_alert ≡ (true && (gate || early_eligible breach quiet)))
    × (decision.suppressed ≡ not decision.should_alert)
    × (decision.tier ≡ (
        if decision.should_alert then some (if gate then confirmed else early_warning) else none))
decide_alert-policy_example = decide_alert-policy breach quiet
