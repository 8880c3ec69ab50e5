-- ===== src/Filter/Cascade.antt =====
-- The cascade of src/pipeline/filter-stage.ts. Scores are natural: what is added comes first, and what is
-- taken off cannot go below zero, where the program clamps it in the end.
use ai_event_intelligence_ag.Base.{
  ℕ, ◌+◌, ◌-◌, String, Bool, true, false, not, ◌&&◌, ◌||◌, Option, List, [], ◌∷◌, ◌++◌,
  if◌then◌else◌, ltb, leb, map, any, min,
}
use ai_event_intelligence_ag.Events.Grouping.{is_nonempty}
use ai_event_intelligence_ag.Filter.Signals.{
  CheapFilterDecision, SourceTier, CyberKeywords, VendorProduct, CheapFilterSignals,
  is_trusted_tier, is_reporting_tier, is_recent, is_old, has_word, has_low_combination, points,
  normalize_score, keep_it, maybe_keep, drop_it, official_vendor, government_cert, security_media,
  researcher_blog, general_news, unknown_tier,
}

-- `FilterDecision`, without the signals, which are stored beside it.
pub record FilterDecision : Type 0 where
  pub decision : CheapFilterDecision
  pub score : ℕ
  pub reasons : List String
  pub blocking_reasons : List String
  pub should_extract : Bool

-- What the cascade reads beside the signals: the clock and when the article was published.
pub record FilterInput : Type 0 where
  pub now : ℕ
  pub published_at : Option ℕ
  pub to_lower_case : String → String

abbrev pub vendor_points : CheapFilterSignals → ℕ
vendor_points s = if is_nonempty s.products then 25 else points (is_nonempty s.vendors) 15

abbrev pub keyword_points : (String → String) → CyberKeywords → ℕ
keyword_points to_lower_case k =
    if is_nonempty k.critical_exploitation
    then 35
    else if is_nonempty k.critical_incident
    then 25
    else if is_nonempty k.medium
    then 20
    else if has_low_combination (map to_lower_case k.low)
    then 10
    else points (is_nonempty k.low) 5

-- `calculatePriorityScore`
unfoldable pub calculate_priority_score : FilterInput → CheapFilterSignals → ℕ
calculate_priority_score i s = normalize_score (
    points (is_nonempty s.cves) 35
    + vendor_points s
    + keyword_points i.to_lower_case s.keywords
    + points (is_trusted_tier s.source_tier) 25
    + points (is_reporting_tier s.source_tier) 10
    + points (is_nonempty s.security_categories) 10
    + points (is_recent i.now i.published_at) 10
    - (points (is_nonempty s.keywords.negative) 20 + points (is_old i.now i.published_at) 20))

-- `hasLayer2CyberContext`
unfoldable pub has_layer2_cyber_context : CheapFilterSignals → Bool
has_layer2_cyber_context s =
    if is_nonempty s.cves || is_nonempty s.keywords.critical || is_trusted_tier s.source_tier
    then true
    else if is_nonempty s.keywords.medium
    then (if any (λ (item : VendorProduct). item.is_noisy) s.matched_inventory
        then is_nonempty s.security_categories || is_reporting_tier s.source_tier
        else true)
    else false

-- `set.add(reason)`, under a condition
unfoldable pub add_if : Bool → String → List String → List String
add_if b reason reasons =
    if b && not (has_word reasons reason) then reasons ++ (reason ∷ []) else reasons

abbrev pub is_tier : SourceTier → SourceTier → Bool
is_tier official_vendor official_vendor = true
is_tier government_cert government_cert = true
is_tier security_media security_media = true
is_tier researcher_blog researcher_blog = true
is_tier general_news general_news = true
is_tier unknown_tier unknown_tier = true
is_tier _ _ = false

-- `addSignalReasons`: the reasons for the article.
unfoldable pub signal_reasons : FilterInput → CheapFilterSignals → List String
signal_reasons i s = add_if (is_recent i.now i.published_at) "recent_article" (
    add_if (is_nonempty s.security_categories) "security_rss_category_found" (
      add_if (is_tier researcher_blog s.source_tier) "researcher_blog_source" (
        add_if (is_tier security_media s.source_tier) "security_media_source" (
          add_if (is_tier government_cert s.source_tier) "government_cert_source" (
            add_if (is_tier official_vendor s.source_tier) "official_vendor_source" (
              add_if (is_nonempty s.keywords.low) "low_cyber_keyword_found" (
                add_if (is_nonempty s.keywords.medium) "medium_cyber_keyword_found" (
                  add_if (is_nonempty s.keywords.critical) "critical_cyber_keyword_found" (
                    add_if (is_nonempty s.vendors) "monitored_vendor_found" (
                      add_if (is_nonempty s.products) "monitored_product_found"
                        (add_if (is_nonempty s.cves) "cve_found" [])))))))))))

-- The reasons against the article that hold on every branch.
unfoldable pub signal_blocks : FilterInput → CheapFilterSignals → List String
signal_blocks i s = add_if (is_old i.now i.published_at) "cheap_filter_old_or_stale_article" (
    add_if (is_tier general_news s.source_tier) "cheap_filter_general_news_source" (
      add_if
        (not (is_nonempty s.keywords.critical)
          && not (is_nonempty s.keywords.medium)
          && not (is_nonempty s.keywords.low))
        "cheap_filter_no_cyber_keyword_in_rss_metadata"
        (add_if (not (is_nonempty s.vendors) && not (is_nonempty s.products))
          "cheap_filter_no_vendor_product_in_rss_metadata"
          (add_if (not (is_nonempty s.cves)) "cheap_filter_no_cve_in_rss_metadata" (
            add_if (is_nonempty s.keywords.negative) "cheap_filter_negative_business_context"
              [])))))

abbrev pub is_drop : CheapFilterDecision → Bool
is_drop drop_it = true
is_drop _ = false

-- `buildFilterDecision`
unfoldable pub build_filter_decision :
    CheapFilterDecision → ℕ → List String → List String → FilterDecision
build_filter_decision decision score reasons blocking = record {
  decision = decision;
  score = normalize_score score;
  reasons = reasons;
  blocking_reasons =
      if is_nonempty reasons || is_nonempty blocking
      then blocking
      else "cheap_filter_insufficient_rss_signal" ∷ [];
  should_extract = not (is_drop decision);
}

-- `hasVendorMatch`
abbrev pub has_vendor_match : CheapFilterSignals → Bool
has_vendor_match s = is_nonempty s.vendors || is_nonempty s.products

-- `hasEscapeHatchSignal`
abbrev pub has_escape_hatch_signal : CheapFilterSignals → Bool
has_escape_hatch_signal s =
    is_nonempty s.cves
    || is_nonempty s.keywords.critical_exploitation
    || is_trusted_tier s.source_tier

-- `hasNegativeDominance` of the call
abbrev pub has_negative_dominance : CheapFilterSignals → Bool
has_negative_dominance s =
    is_nonempty s.keywords.negative && not (is_nonempty s.cves || is_nonempty s.keywords.critical)

unfoldable pub insufficient : List String → List String
insufficient blocking = add_if true "cheap_filter_insufficient_rss_signal" blocking

-- `runCheapFilterCascade`
unfoldable pub run_cheap_filter_cascade : FilterInput → CheapFilterSignals → FilterDecision
run_cheap_filter_cascade i s =
    let reasons = signal_reasons i s in
    let blocking = signal_blocks i s in
    let score = calculate_priority_score i s in
    if has_vendor_match s
    then (if has_negative_dominance s
        then build_filter_decision drop_it score reasons
            (insufficient (add_if true "cheap_filter_l2_negative_dominance" blocking))
        else if has_layer2_cyber_context s
        then build_filter_decision (if leb 50 score then keep_it else maybe_keep) score
            (add_if (is_trusted_tier s.source_tier || is_reporting_tier s.source_tier)
              "trusted_source_with_security_context"
              (add_if (is_nonempty s.vendors) "vendor_with_cyber_context"
                (add_if (is_nonempty s.products) "product_with_cyber_context" reasons)))
            blocking
        else build_filter_decision drop_it score reasons (
            insufficient (
              add_if true "cheap_filter_l2_no_cyber_context"
                (add_if true "cheap_filter_vendor_only_without_security_context" blocking))))
    else if has_escape_hatch_signal s
    then build_filter_decision maybe_keep (min score 49)
        (add_if true "cheap_filter_l1_severe_signal_escape_hatch" reasons) blocking
    else build_filter_decision drop_it score reasons (
        add_if (ltb score 15) "cheap_filter_low_score"
          (insufficient (add_if true "cheap_filter_l1_no_vendor_no_severe_signal" blocking)))
