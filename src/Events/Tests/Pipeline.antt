-- ===== src/Events/Tests/Pipeline.antt =====
-- What the stages of the pipeline do in the newsroom.
use ai_event_intelligence_ag.Base.{
  ◌≤◌, ◌≡◌, refl, not, true, false, none, some, [], ◌∷◌, if◌then◌else◌, length, All, arith,
}
use ai_event_intelligence_ag.Alerts.{confirmed, confirmed_eligible, decide_alert, early_eligible}
use ai_event_intelligence_ag.Alerts.Stage.{
  AlertSettings, alert_turn, decide_event, get_recent_alert,
}
use ai_event_intelligence_ag.Alerts.Stage.Fatigue.{later_db, alert_turn-decide_event}
use ai_event_intelligence_ag.Events.Records.{CyberEvent, returned}
use ai_event_intelligence_ag.Events.Editorial.{approve_event, create_event_from_articles}
use ai_event_intelligence_ag.Events.Consistency.{IsConsistent}
use ai_event_intelligence_ag.Events.Queues.{list_by_processing_status}
use ai_event_intelligence_ag.Events.Grouping.{EventDraft, same_event}
use ai_event_intelligence_ag.Events.Embeddings.{find_similar_events}
use ai_event_intelligence_ag.Events.Stage.{
  Grouping, StageState, decide_grouping, nothing_grouped, run_event_stage,
}
use ai_event_intelligence_ag.Events.Stage.Ladder.{decide_grouping-llm_compared, is_create}
use ai_event_intelligence_ag.Events.Stage.Settled.{is_settled}
use ai_event_intelligence_ag.Events.Stage.Run.{run_event_stage-is_settled}
use ai_event_intelligence_ag.Events.Stage.Turn.{is_tallied}
use ai_event_intelligence_ag.Events.Assessment.{
  Classification, rank_in, roll_up_event_assessment, roll_up_event_assessment-max_by_rank,
  severity_rank, urgency_rank,
}
use ai_event_intelligence_ag.Events.System.{
  and_then, approve, begin, create_from, reachable_events-IsConsistent,
}
use ai_event_intelligence_ag.Events.Tests.{
  first_article, second_article, asked, empty_newsroom, breach, newsroom, newsroom-IsConsistent,
}

-- Distances are constant, and the comparator takes every pair for one event.
abbrev grouping : Grouping
grouping = record {
  to_lower_case = λ s. s;
  entities = [];
  distance = λ v w. 200000000;
  model = "m/2";
  comparator = some (λ article event.
      some
        (record { relationship = same_event; confidence = 900000000; is_material_update = true }));
}

run_event_stage-is_settled_example :
    let (after, outcome) = run_event_stage grouping newsroom 20 in
    let candidates = list_by_processing_status newsroom "EMBEDDED" 20 in
    (outcome ≡ returned tt)
    × IsConsistent after.db
    × All (λ a. is_settled after.db a.id ≡ true) candidates
    × ((if is_settled newsroom 1 then is_settled after.db 1 else true) ≡ true)
    × (after.result.attached ≡ length candidates)
    × (is_tallied after.result ≡ true)
run_event_stage-is_settled_example =
    run_event_stage-is_settled grouping newsroom 20 1 newsroom-IsConsistent

abbrev start : StageState
start = record { db = newsroom; audits = []; result = nothing_grouped 1 }

abbrev draft_of_second : EventDraft
draft_of_second = record {
  title = "t";
  summary = "s";
  affected_vendors = [];
  affected_products = [];
  cves = [];
  attack_types = [];
  severity = "medium";
  urgency = "P3";
  grouping_key = "unknown";
}

decide_grouping-llm_compared_example :
    let (after, decision) = decide_grouping grouping start second_article draft_of_second in
    (after.result.llm_compared ≡ 1) × (length after.audits ≡ 1) × (is_create decision ≡ false)
unfolding find_similar_events
decide_grouping-llm_compared_example =
    decide_grouping-llm_compared grouping start second_article draft_of_second

abbrev settings : AlertSettings
settings = record { suppression_hours = 6; min_confidence = 700000000; early_window_hours = 24 }

-- The event whose confidence has grown.
abbrev confirmed_breach : CyberEvent
confirmed_breach = record breach { confidence = some 900000000 }

alert_turn-decide_event_example :
    let later = later_db 5000 (alert_turn settings newsroom breach) in
    let second = decide_event settings later confirmed_breach in
    (second.should_alert ≡ true)
    × (second.tier ≡ (if second.should_alert then some confirmed else none))
    × (second.suppressed ≡ not second.should_alert)
unfolding decide_event decide_alert get_recent_alert confirmed_eligible early_eligible
alert_turn-decide_event_example =
    alert_turn-decide_event settings newsroom breach confirmed_breach 5000 (tt, (refl, tt)) refl
      refl (omega arith)

reachable_events-IsConsistent_example :
    IsConsistent (approve_event (create_event_from_articles empty_newsroom asked).0 1).0
reachable_events-IsConsistent_example =
    reachable_events-IsConsistent 1000 (first_article ∷ second_article ∷ [])
      (approve_event (create_event_from_articles empty_newsroom asked).0 1).0
      (and_then (and_then begin (create_from empty_newsroom asked))
        (approve (create_event_from_articles empty_newsroom asked).0 1))

abbrev verdict : Classification
verdict = record {
  cyber_relevant = true;
  severity = "critical";
  urgency = "P3";
  confidence = 500000000;
}

-- 0.35 and four tenths of 0.5, and a tenth for the second source.
verdict_confidence : (roll_up_event_assessment breach verdict 2).confidence ≡ 650000000
unfolding roll_up_event_assessment
verdict_confidence = refl

roll_up_event_assessment-max_by_rank_example :
    let a = roll_up_event_assessment breach verdict 2 in
    (rank_in severity_rank a.severity ≡ 4)
    × (rank_in urgency_rank a.urgency ≡ 3)
    × (600000000 ≤ a.confidence)
    × (a.confidence ≤ 950000000)
    × (a.confidence ≤ (roll_up_event_assessment breach verdict 3).confidence)
roll_up_event_assessment-max_by_rank_example =
    roll_up_event_assessment-max_by_rank breach verdict 2 (omega arith) (omega arith)
