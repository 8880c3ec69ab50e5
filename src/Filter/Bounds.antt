-- ===== src/Filter/Bounds.antt =====
-- What the cascade of src/pipeline/filter-stage.ts may drop and keep.
use ai_event_intelligence_ag.Base.{
  ◌≡◌, ◌≤◌, refl, Bool, true, false, not, ◌&&◌, ◌||◌, List, [], ◌∷◌, ◌++◌, String, arith,
  if◌then◌else◌, leb, ltb,
}
use ai_event_intelligence_ag.Events.Grouping.{is_nonempty}
use ai_event_intelligence_ag.Filter.Signals.{
  CheapFilterSignals, has_word, keep_it, CheapFilterDecision,
}
use ai_event_intelligence_ag.Filter.Cascade.{
  FilterInput, add_if, build_filter_decision, calculate_priority_score, has_layer2_cyber_context,
  has_negative_dominance, has_vendor_match, insufficient, is_drop, run_cheap_filter_cascade,
  signal_blocks,
}

abbrev pub is_keep : CheapFilterDecision → Bool
is_keep keep_it = true
is_keep _ = false

is_nonempty-++ : (xs : List String) (x : String) → is_nonempty (xs ++ (x ∷ [])) ≡ true
is_nonempty-++ [] x = refl
is_nonempty-++ (y ∷ xs) x = refl

has_word-is_nonempty :
    (xs : List String) (x : String) → has_word xs x ≡ true → is_nonempty xs ≡ true
has_word-is_nonempty [] x h = cc
has_word-is_nonempty (y ∷ xs) x h = refl

is_nonempty-add_if : (xs : List String) (x : String) → is_nonempty (add_if true x xs) ≡ true
unfolding add_if
is_nonempty-add_if xs x = ground (arith, is_nonempty-++ xs x, has_word-is_nonempty xs x)

add_if_keeps :
    (b : Bool) (xs : List String) (x : String)
    → is_nonempty xs ≡ true
    → is_nonempty (add_if b x xs) ≡ true
unfolding add_if
add_if_keeps b xs x h = ground (arith, is_nonempty-++ xs x)

is_nonempty-insufficient : (xs : List String) → is_nonempty (insufficient xs) ≡ true
unfolding insufficient
is_nonempty-insufficient xs = is_nonempty-add_if xs "cheap_filter_insufficient_rss_signal"

cve_has_context :
    (s : CheapFilterSignals) → is_nonempty s.cves ≡ true → has_layer2_cyber_context s ≡ true
unfolding has_layer2_cyber_context
cve_has_context s h = ground arith

-- An article with a CVE id is never dropped. One is kept with priority exactly when a monitored vendor or
-- product is named, no business context dominates, there is security context and the score is at least 50.
-- Without a named vendor or product the score of what is not dropped stays below 50; every score is at most
-- 100; what is dropped is not extracted and has a reason that is stored with it.
pub run_cheap_filter_cascade_bounds :
    (i : FilterInput) (s : CheapFilterSignals)
    → let d = run_cheap_filter_cascade i s in
      ((is_nonempty s.cves && is_drop d.decision) ≡ false)
      × (is_keep d.decision ≡ (
          has_vendor_match s
          && not (has_negative_dominance s)
          && has_layer2_cyber_context s
          && leb 50 (calculate_priority_score i s)))
      × ((if has_vendor_match s then true else is_drop d.decision || leb d.score 49) ≡ true)
      × (d.score ≤ 100)
      × (d.should_extract ≡ not (is_drop d.decision))
      × ((if is_drop d.decision then is_nonempty d.blocking_reasons else true) ≡ true)
unfolding run_cheap_filter_cascade build_filter_decision
run_cheap_filter_cascade_bounds i s =
    let blocking = signal_blocks i s in
    let dominated = add_if true "cheap_filter_l2_negative_dominance" blocking in
    let without =
      add_if true "cheap_filter_l2_no_cyber_context"
        (add_if true "cheap_filter_vendor_only_without_security_context" blocking) in
    let silent = add_if true "cheap_filter_l1_no_vendor_no_severe_signal" blocking in
    (
      ground (arith, cve_has_context s),
      ground arith,
      ground arith,
      ground arith,
      ground arith,
      ground (
        arith,
        is_nonempty-insufficient dominated,
        is_nonempty-insufficient without,
        add_if_keeps (ltb (calculate_priority_score i s) 15) (insufficient silent)
            "cheap_filter_low_score" (is_nonempty-insufficient silent),
      ),
    )
