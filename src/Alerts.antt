-- ===== src/Alerts.antt =====
-- src/alerts/alert-decision.ts: whether an event alerts, and in which tier. The defaults of the
-- confidence and of the early window come from the environment: they are parameters. Confidences are
-- counts of 10⁻⁹, times are milliseconds, the early window is in hours.
pub mod Policy
pub mod Stage
mod Tests
use ai_event_intelligence_ag.Base.{
  ℕ, ◌+◌, ◌-◌, ◌*◌, String, Bool, true, false, ◌&&◌, ◌||◌, Option, none, some, List, [], ◌∷◌,
  if◌then◌else◌, ◌or_else◌, leb, str_eq, any,
}

pub data AlertTier : Type 0 where
  early_warning confirmed : AlertTier

-- `RecentAlert`: the tier of the last alert, where it has one
pub record RecentAlert : Type 0 where
  pub tier : Option AlertTier
  pub created_at : ℕ

pub record AlertDecision : Type 0 where
  pub should_alert : Bool
  pub suppressed : Bool
  pub reason : String
  pub tier : Option AlertTier

-- What the decision reads of an `EventRecord`.
pub record AlertEvent : Type 0 where
  pub affected_vendors : Option (List String)
  pub severity : Option String
  pub urgency : Option String
  pub confidence : Option ℕ
  pub first_seen_at : Option ℕ

pub record AlertOptions : Type 0 where
  pub recent_alert : Option RecentAlert
  pub has_new_material_update : Bool
  pub min_confidence : ℕ
  pub early_window_hours : ℕ
  pub now : ℕ

abbrev pub has_vendor : AlertEvent → Bool
has_vendor event = elim event.affected_vendors [
  | none ↦ false
  | some [] ↦ false
  | some (_ ∷ _) ↦ true
]

abbrev pub is_member : Option String → List String → Bool
is_member none names = false
is_member (some s) names = any (str_eq s) names

abbrev pub confirmed_severities : List String
confirmed_severities = "medium" ∷ "high" ∷ "critical" ∷ []

abbrev pub confirmed_urgencies : List String
confirmed_urgencies = "P1" ∷ "P2" ∷ []

-- `confirmedEligible`
unfoldable pub confirmed_eligible : AlertEvent → AlertOptions → Bool
confirmed_eligible event options =
    is_member event.severity confirmed_severities
    && is_member event.urgency confirmed_urgencies
    && leb options.min_confidence (event.confidence or_else 0)

-- `earlyEligible`: an event that is first seen later than now has a negative age.
unfoldable pub early_eligible : AlertEvent → AlertOptions → Bool
early_eligible event options = elim event.first_seen_at [
  | none ↦ true
  | some seen ↦ leb (options.now - seen) (options.early_window_hours * 3600000)
]

abbrev pub alert : String → AlertTier → AlertDecision
alert why tier = record { should_alert = true; suppressed = false; reason = why; tier = some tier }

abbrev pub suppress : String → AlertDecision
suppress why = record { should_alert = false; suppressed = true; reason = why; tier = none }

abbrev pub is_early_warning : Option AlertTier → Bool
is_early_warning (some early_warning) = true
is_early_warning _ = false

-- `decideAlert`
unfoldable pub decide_alert : AlertEvent → AlertOptions → AlertDecision
decide_alert event options =
    if has_vendor event
    then elim options.recent_alert [
      | some recent ↦
          if options.has_new_material_update
          then alert "material_update_bypasses_suppression"
              (if confirmed_eligible event options then confirmed else early_warning)
          else if confirmed_eligible event options && is_early_warning recent.tier
          then alert "upgraded_to_confirmed" confirmed
          else suppress "recent_alert_suppression"
      | none ↦
          if confirmed_eligible event options
          then alert "confirmed_vendor_impact_event" confirmed
          else if early_eligible event options
          then alert "early_warning_unconfirmed_signal" early_warning
          else suppress "stale_event_below_confirmed_gate"
    ]
    else suppress "no_affected_vendor"
