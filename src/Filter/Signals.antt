-- ===== src/Filter/Signals.antt =====
-- The signals of src/pipeline/filter-stage.ts: what the detectors find in an article's title, summary and
-- categories, its source's tier and its age.
use text.Mathlib.Text.{find?}
use ai_event_intelligence_ag.Base.{
  ℕ, ◌-◌, ◌*◌, String, Bool, true, false, not, ◌&&◌, ◌||◌, Option, none, some, List, [], ◌∷◌,
  if◌then◌else◌, ltb, leb, str_eq, keep, any, is_some, min,
}
use ai_event_intelligence_ag.Events.Grouping.{is_nonempty}

pub data CheapFilterDecision : Type 0 where
  keep_it maybe_keep drop_it : CheapFilterDecision

pub data SourceTier : Type 0 where
  official_vendor government_cert security_media researcher_blog general_news unknown_tier :
      SourceTier

-- What `detectCategorizedCyberKeywords` finds.
pub record CyberKeywords : Type 0 where
  pub critical : List String
  pub critical_exploitation : List String
  pub critical_incident : List String
  pub medium : List String
  pub low : List String
  pub negative : List String

-- `VendorProduct`
pub record VendorProduct : Type 0 where
  pub vendor : String
  pub product : String
  pub is_noisy : Bool

-- `CheapFilterSignals`
pub record CheapFilterSignals : Type 0 where
  pub keywords : CyberKeywords
  pub cves : List String
  pub vendors : List String
  pub products : List String
  pub source_tier : SourceTier
  pub security_categories : List String
  pub matched_inventory : List VendorProduct

abbrev pub includes : String → String → Bool
includes text part = is_some (find? text part)

abbrev pub includes_any : String → List String → Bool
includes_any text parts = any (includes text) parts

-- `inferSourceTier`, of the name in lower case
unfoldable pub infer_source_tier : String → SourceTier
infer_source_tier source =
    if includes_any source ("cisa" ∷ "cert" ∷ [])
    then government_cert
    else if includes_any source ("psirt" ∷ "msrc" ∷ "security advisories" ∷ [])
    then official_vendor
    else if includes_any source
        ("bleeping" ∷ "hacker news" ∷ "krebs" ∷ "securityweek" ∷ "dark reading" ∷ [])
    then security_media
    else if includes_any source ("blog" ∷ "research" ∷ [])
    then researcher_blog
    else if includes_any source ("business" ∷ "news" ∷ [])
    then general_news
    else unknown_tier

-- SECURITY_RSS_CATEGORIES
abbrev pub security_rss_categories : List String
security_rss_categories =
    "security" ∷ "cybersecurity" ∷ "vulnerability" ∷ "vulnerabilities" ∷ "malware" ∷ "ransomware"
    ∷ "zero day" ∷ "zero-day" ∷ "data breach" ∷ "threat intelligence" ∷ "security advisory"
    ∷ "patch" ∷ "incident" ∷ []

-- `securityRssCategories`
abbrev pub security_categories_of : (String → String) → List String → List String
security_categories_of to_lower_case categories =
    keep (λ category. includes_any (to_lower_case category) security_rss_categories) categories

-- `findMatchedInventory`
abbrev pub find_matched_inventory :
    List String → List String → List VendorProduct → List VendorProduct
find_matched_inventory vendors products inventory =
    keep
      (λ (item : VendorProduct).
        any (str_eq item.vendor) vendors
        && (not (is_nonempty products) || any (str_eq item.product) products))
      inventory

abbrev pub is_trusted_tier : SourceTier → Bool
is_trusted_tier official_vendor = true
is_trusted_tier government_cert = true
is_trusted_tier _ = false

abbrev pub is_reporting_tier : SourceTier → Bool
is_reporting_tier security_media = true
is_reporting_tier researcher_blog = true
is_reporting_tier _ = false

-- `isRecent`: published in the last day, or in the future.
abbrev pub is_recent : ℕ → Option ℕ → Bool
is_recent now none = false
is_recent now (some published) = leb (now - published) 86400000

-- `isOld`: published more than two weeks ago.
abbrev pub is_old : ℕ → Option ℕ → Bool
is_old now none = false
is_old now (some published) = ltb (14 * 86400000) (now - published)

abbrev pub has_word : List String → String → Bool
has_word words word = any (str_eq word) words

-- `hasLowCombination`, of the keywords in lower case
abbrev pub has_low_combination : List String → Bool
has_low_combination low =
    (has_word low "identity" && has_word low "attack")
    || (has_word low "cloud" && has_word low "vulnerability")
    || (has_word low "authentication" && has_word low "bypass")
    || (has_word low "admin" && has_word low "compromise")
    || (has_word low "api" && has_word low "exposure")
    || (has_word low "account" && has_word low "takeover")
    || (has_word low "password" && has_word low "leak")
    || (has_word low "login" && has_word low "bypass")

abbrev pub points : Bool → ℕ → ℕ
points b n = if b then n else 0

-- `normalizeScore`
abbrev pub normalize_score : ℕ → ℕ
normalize_score score = min 100 score
