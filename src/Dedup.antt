-- ===== src/Dedup.antt =====
-- src/dedup/article-dedup.ts and src/pipeline/dedup-stage.ts: which articles are marked as duplicates. The
-- articles that are near by embedding are a parameter, as the stage searches none; distances are counts of
-- 10⁻⁹. The id in a mark's message is written by a parameter.
pub mod Stories
pub mod Survivors
mod Tests
use Prim.Native.String.{◌++◌ as text_append}
use mathlib.Core.Option
use ai_event_intelligence_ag.Base.{
  ℕ, ◌+◌, ◌*◌, ◌==◌, String, Bool, true, false, not, ◌&&◌, ◌||◌, Option, none, some, List, [], ◌∷◌,
  ◌++◌, if◌then◌else◌, ltb, leb, str_eq, keep, head?, length,
}
use ai_event_intelligence_ag.Base.Sort.{sort, take}
use ai_event_intelligence_ag.Base.Text.{is_empty}
use ai_event_intelligence_ag.Events.Records.{Article, EventDb}
use ai_event_intelligence_ag.Events.Queues.{has_text, list_by_processing_status}
use ai_event_intelligence_ag.Events.Store.{update_processing_status}

-- `DedupDecision`: what the article duplicates, and why.
pub data DedupDecision : Type 0 where
  unique : DedupDecision
  exact_duplicate title_near_duplicate : (duplicate_of : ℕ) (reason : String) → DedupDecision
  semantic_candidate : List (Article × ℕ) → DedupDecision

-- fetched_at ASC, id ASC
abbrev pub fetched_first : Article → Article → Bool
fetched_first a b = ltb a.fetched_at b.fetched_at || (a.fetched_at == b.fetched_at && leb a.id b.id)

-- published_at ASC NULLS LAST, fetched_at ASC, id ASC
abbrev pub published_first : Article → Article → Bool
published_first a b = elim a.published_at [
  | none ↦ elim b.published_at [ some _ ↦ false | none ↦ fetched_first a b ]
  | some s ↦ elim b.published_at [ none ↦ true | some t ↦ ltb s t || (s == t && fetched_first a b) ]
]

abbrev pub is_duplicate : Article → Bool
is_duplicate a = str_eq a.processing_status "DUPLICATE"

-- The WHERE of `findEarlierByContentHash`: despite the name, the other article need not be earlier.
abbrev pub has_content : String → ℕ → Article → Bool
has_content hash exclude a =
    has_text hash a.content_hash && not (a.id == exclude) && not (is_duplicate a)

-- `findEarlierByContentHash`
unfoldable pub find_earlier_by_content_hash : EventDb → String → ℕ → Option Article
find_earlier_by_content_hash db hash exclude =
    head? (sort published_first (keep (has_content hash exclude) db.articles))

abbrev pub is_within : ℕ → ℕ → Article → Bool
is_within now days a = elim a.published_at [
  | none ↦ false
  | some published ↦ ltb now (published + days * 86400000)
]

-- The WHERE of `findRecentByTitleHash`
abbrev pub has_title : ℕ → String → ℕ → ℕ → Article → Bool
has_title now hash exclude days a =
    has_text hash a.title_hash
    && not (a.id == exclude)
    && not (is_duplicate a)
    && is_within now days a

-- `findRecentByTitleHash`
unfoldable pub find_recent_by_title_hash : EventDb → String → ℕ → ℕ → Option Article
find_recent_by_title_hash db hash exclude days =
    head? (sort published_first (keep (has_title db.now hash exclude days) db.articles))

-- A hash is looked for if it is there and not empty.
abbrev pub hash_of : Option String → Option String
hash_of none = none
hash_of (some hash) = if is_empty hash then none else some hash

abbrev pub exact_match : EventDb → Article → Option Article
exact_match db article = elim (hash_of article.content_hash) [
  | none ↦ none
  | some hash ↦ find_earlier_by_content_hash db hash article.id
]

abbrev pub title_match : EventDb → Article → Option Article
title_match db article = elim (hash_of article.title_hash) [
  | none ↦ none
  | some hash ↦ find_recent_by_title_hash db hash article.id 7
]

-- `classifyArticleDedup`, with the window of seven days and the distance of 0.18.
unfoldable pub classify_article_dedup : EventDb → Article → List (Article × ℕ) → DedupDecision
classify_article_dedup db article similar = elim (exact_match db article) [
  | some exact ↦ exact_duplicate exact.id "matching_content_hash"
  | none ↦ elim (title_match db article) [
    | some other ↦ title_near_duplicate other.id "matching_title_hash_within_window"
    | none ↦ elim (keep (λ p. leb p.1 180000000) similar) [
      | [] ↦ unique
      | near ∷ more ↦ semantic_candidate (near ∷ more)
    ]
  ]
]

-- `DedupStageResult`
pub record DedupStageResult : Type 0 where
  pub reviewed : ℕ
  pub exact_duplicates : ℕ
  pub title_duplicates : ℕ
  pub semantic_candidates : ℕ
  pub unique_articles : ℕ

-- `markDuplicate`
abbrev pub mark_duplicate : (ℕ → String) → EventDb → ℕ → ℕ → String → EventDb
mark_duplicate id_text db article_id duplicate_of reason =
    update_processing_status db article_id "DUPLICATE"
      (some (text_append reason (text_append ":" (id_text duplicate_of))))

-- One turn of the loop.
unfoldable pub dedup_turn :
    (ℕ → String) → EventDb → Article → DedupStageResult → EventDb × DedupStageResult
dedup_turn id_text db article r = elim (classify_article_dedup db article []) [
  | exact_duplicate other reason ↦ (
    mark_duplicate id_text db article.id other reason,
    record r { exact_duplicates = r.exact_duplicates + 1 },
  )
  | title_near_duplicate other reason ↦ (
    mark_duplicate id_text db article.id other reason,
    record r { title_duplicates = r.title_duplicates + 1 },
  )
  | semantic_candidate near ↦ (db, record r { semantic_candidates = r.semantic_candidates + 1 })
  | unique ↦ (db, record r { unique_articles = r.unique_articles + 1 })
]

unfoldable pub dedup_turns :
    (ℕ → String) → EventDb → List Article → DedupStageResult → EventDb × DedupStageResult
dedup_turns id_text db [] r = (db, r)
dedup_turns id_text db (article ∷ rest) r =
    let (next, counted) = dedup_turn id_text db article r in dedup_turns id_text next rest counted

abbrev pub dedup_candidates : EventDb → ℕ → List Article
dedup_candidates db limit = take limit (
    list_by_processing_status db "EXTRACTED" limit
    ++ list_by_processing_status db "ENTITY_EXTRACTED" limit
    ++ list_by_processing_status db "EMBEDDED" limit)

abbrev pub nothing_reviewed : ℕ → DedupStageResult
nothing_reviewed reviewed = record {
  reviewed = reviewed;
  exact_duplicates = 0;
  title_duplicates = 0;
  semantic_candidates = 0;
  unique_articles = 0;
}

-- `runDedupStage`
unfoldable pub run_dedup_stage : (ℕ → String) → EventDb → ℕ → EventDb × DedupStageResult
run_dedup_stage id_text db limit =
    let candidates = dedup_candidates db limit in
    dedup_turns id_text db candidates (nothing_reviewed (length candidates))
