-- ===== src/Alerts/Stage/Counts.antt =====
-- What src/pipeline/alert-stage.ts counts.
use ai_event_intelligence_ag.Base.{ℕ, ◌≡◌, ◌+◌, refl, not, List, [], ◌∷◌, arith, length, keep}
use ai_event_intelligence_ag.Alerts.Policy.{decide_alert-policy}
use ai_event_intelligence_ag.Events.Records.{AlertRow, CyberEvent, EventDb}
use ai_event_intelligence_ag.Events.Queues.{list_alert_candidates}
use ai_event_intelligence_ag.Alerts.Stage.{
  AlertSettings, AlertStageResult, alert_event, options_of, decide_event, create_alert, alert_turn,
  alert_turns, run_alert_stage, no_alerts, count_decision,
}

-- The rows that a customer is told of.
abbrev pub count_sent : List AlertRow → ℕ
count_sent rows = length (keep (λ (a : AlertRow). not a.suppressed) rows)

alert_turns-count :
    (settings : AlertSettings) (db : EventDb) (events : List CyberEvent) (r : AlertStageResult)
    → let (after, result) = alert_turns settings db events r in
      (length after.alerts ≡ length db.alerts + length events)
      × (result.sent + result.suppressed ≡ r.sent + r.suppressed + length events)
      × (count_sent after.alerts + r.sent ≡ count_sent db.alerts + result.sent)
      × (result.early_warnings + result.confirmed_alerts + r.sent
          ≡ r.early_warnings + r.confirmed_alerts + result.sent)
      × (result.reviewed ≡ r.reviewed)
unfolding alert_turns alert_turn create_alert decide_event
alert_turns-count settings db [] r = (omega arith, omega arith, omega arith, omega arith, refl)
alert_turns-count settings db (e ∷ rest) r =
    let (rows, all, sent, tiers, same) =
      alert_turns-count settings (alert_turn settings db e) rest
        (count_decision (decide_event settings db e) r) in
    let (alerts, suppresses, tier) =
      decide_alert-policy (alert_event e) (options_of settings db e) in
    (
      ground (arith, rows),
      ground (arith, all),
      ground (arith, sent, alerts, suppresses),
      ground (arith, tiers, alerts, tier),
      ground (arith, same),
    )

-- A run of the alert stage writes one row for each candidate; the rows that it sends are those it counts
-- as sent, every candidate is counted either as sent or as suppressed, and every sent alert either as an
-- early warning or as confirmed.
pub run_alert_stage-counts :
    (settings : AlertSettings) (db : EventDb) (limit : ℕ)
    → let (after, result) = run_alert_stage settings db limit in
      (result.reviewed ≡ length (list_alert_candidates db limit))
      × (length after.alerts ≡ length db.alerts + result.reviewed)
      × (result.sent + result.suppressed ≡ result.reviewed)
      × (count_sent after.alerts ≡ count_sent db.alerts + result.sent)
      × (result.early_warnings + result.confirmed_alerts ≡ result.sent)
unfolding run_alert_stage
run_alert_stage-counts settings db limit =
    let candidates = list_alert_candidates db limit in
    let (rows, all, sent, tiers, same) =
      alert_turns-count settings db candidates (no_alerts (length candidates)) in
    (
      same,
      ground (arith, rows, same),
      ground (arith, all, same),
      ground (arith, sent),
      ground (arith, tiers),
    )
