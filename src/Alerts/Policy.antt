-- ===== src/Alerts/Policy.antt =====
-- The alert policy that the comment of src/alerts/alert-decision.ts states.
use ai_event_intelligence_ag.Base.{◌≡◌, ◌&&◌, ◌||◌, not, none, some, if◌then◌else◌, arith}
use ai_event_intelligence_ag.Alerts.{
  early_warning, confirmed, AlertEvent, AlertOptions, has_vendor, confirmed_eligible,
  early_eligible, is_early_warning, decide_alert,
}

-- An event alerts exactly when it touches a monitored vendor and: after a recent alert, it has a
-- material update or it upgrades an early warning to a confirmed alert; without a recent alert, it
-- passes the confirmed gate or is in the early window. A decision either alerts or suppresses, and the
-- tier of an alert is confirmed exactly when the event passes the confirmed gate.
pub decide_alert-policy :
    (event : AlertEvent) (options : AlertOptions)
    → let gate = confirmed_eligible event options in
      let decision = decide_alert event options in
      (decision.should_alert ≡ (
        has_vendor event && elim options.recent_alert [
          | some recent ↦ options.has_new_material_update || (gate && is_early_warning recent.tier)
          | none ↦ gate || early_eligible event options
        ]))
      × (decision.suppressed ≡ not decision.should_alert)
      × (decision.tier ≡ (
          if decision.should_alert then some (if gate then confirmed else early_warning) else none))
unfolding decide_alert
decide_alert-policy event options = ground arith
