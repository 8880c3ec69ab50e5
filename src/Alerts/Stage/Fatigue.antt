-- ===== src/Alerts/Stage/Fatigue.antt =====
-- How often one event can alert within the suppression window (src/pipeline/alert-stage.ts with
-- src/alerts/alert-decision.ts).
use ai_event_intelligence_ag.Base.{
  ℕ, ◌≡◌, ◌+◌, ◌*◌, ◌<◌, refl, ◌==◌, Bool, true, false, not, ◌&&◌, none, some, List, [], ◌∷◌, arith,
  if◌then◌else◌, ltb, leb, keep, any, head?, All, ==_refl,
}
use ai_event_intelligence_ag.Base.Sort.{sort, insert, All-keep, All-sort}
use ai_event_intelligence_ag.Alerts.{confirmed, confirmed_eligible, has_vendor, is_early_warning}
use ai_event_intelligence_ag.Alerts.Policy.{decide_alert-policy}
use ai_event_intelligence_ag.Events.Records.{AlertRow, CyberEvent, EventArticle, EventDb}
use ai_event_intelligence_ag.Alerts.Stage.{
  AlertSettings, alert_event, alert_row, options_of, decide_event, create_alert, alert_turn,
  get_recent_alert, is_recent_alert, created_before, has_material_update_since,
}

-- No row lies in the future.
abbrev pub IsPast : EventDb → Type 0
IsPast db =
    All (λ (a : AlertRow). leb a.created_at db.now ≡ true) db.alerts
    × All (λ (l : EventArticle). leb l.created_at db.now ≡ true) db.event_articles

abbrev pub later_db : ℕ → EventDb → EventDb
later_db time db = record db { now = time }

-- A row that comes before all others comes first.
head?-insert :
    (a : AlertRow) (rows : List AlertRow)
    → All (λ b. created_before a b ≡ true) rows
    → head? (insert created_before a rows) ≡ some a
head?-insert a [] all = refl
head?-insert a (b ∷ rows) all = ground (arith, all.0)

no_update_yet :
    (event_id now : ℕ) (links : List EventArticle)
    → All (λ (l : EventArticle). leb l.created_at now ≡ true) links
    → any
        (λ (l : EventArticle).
          l.event_id == event_id && l.is_material_update && ltb now l.created_at)
        links
      ≡ false
no_update_yet event_id now [] all = refl
no_update_yet event_id now (l ∷ links) all = ground (arith, no_update_yet event_id now links, all.0)

-- A sent alert is the recent one for as long as the window lasts.
recent_after_turn :
    (settings : AlertSettings) (db : EventDb) (e : CyberEvent) (time : ℕ)
    → IsPast db
    → (decide_event settings db e).should_alert ≡ true
    → (decide_event settings db e).suppressed ≡ false
    → time < db.now + settings.suppression_hours * 3600000
    → get_recent_alert (later_db time (alert_turn settings db e)) e.id settings.suppression_hours
      ≡ some (record { tier = (decide_event settings db e).tier; created_at = db.now })
unfolding get_recent_alert alert_turn create_alert
recent_after_turn settings db e time past sent open_ window =
    let test : AlertRow → Bool = is_recent_alert time settings.suppression_hours e.id in
    let row = alert_row db e (decide_event settings db e) in
    let first = head?-insert row (sort created_before (keep test db.alerts)) (
      All-sort (λ b. created_before row b ≡ true) created_before (keep test db.alerts)
        (All-keep (λ b. created_before row b ≡ true) test db.alerts past.0)) in
    ground (arith, first, ==_refl e.id)

-- After an alert on an event is sent, and as long as the suppression window lasts and nothing new is
-- attached, the event alerts again exactly when the alert was an early warning and the event, whatever it
-- looks like by then, has an affected vendor and passes the confirmed gate; and the new alert is confirmed,
-- so that it is the last. All rows of before the first alert lie in the past.
pub alert_turn-decide_event :
    (settings : AlertSettings) (db : EventDb) (e later_e : CyberEvent) (time : ℕ)
    → IsPast db
    → later_e.id ≡ e.id
    → (decide_event settings db e).should_alert ≡ true
    → time < db.now + settings.suppression_hours * 3600000
    → let first = decide_event settings db e in
      let later = later_db time (alert_turn settings db e) in
      let second = decide_event settings later later_e in
      (second.should_alert ≡ (
        has_vendor (alert_event later_e)
        && confirmed_eligible (alert_event later_e) (options_of settings later later_e)
        && is_early_warning first.tier))
      × (second.tier ≡ (if second.should_alert then some confirmed else none))
      × (second.suppressed ≡ not second.should_alert)
unfolding decide_event has_material_update_since alert_turn create_alert
alert_turn-decide_event settings db e later_e time past same sent window =
    let (alerts, suppresses, tier) =
      decide_alert-policy (alert_event e) (options_of settings db e) in
    let later = later_db time (alert_turn settings db e) in
    let (alerts_later, suppresses_later, tier_later) =
      decide_alert-policy (alert_event later_e) (options_of settings later later_e) in
    let recent = recent_after_turn settings db e time past sent (ground arith) window in
    ground (
      arith,
      no_update_yet later_e.id db.now db.event_articles past.1,
      alerts_later,
      suppresses_later,
      tier_later,
      recent,
      same,
    )
