-- ===== src/Dedup/Survivors.antt =====
-- src/pipeline/dedup-stage.ts never marks all articles of a story as duplicates.
use ai_event_intelligence_ag.Base.{
  ℕ, ◌≡◌, ◌+◌, ◌∙◌, String, Bool, true, some, List, [], ◌∷◌, ◌++◌, arith, inl, inr, Bool-cases,
  Option-cases, str_eq, keep, All, length,
}
use ai_event_intelligence_ag.Base.Table.{All-mono}
use ai_event_intelligence_ag.Base.Sort.{sort, All-keep, All-take, All-sort}
use ai_event_intelligence_ag.Events.Records.{Article, EventDb}
use ai_event_intelligence_ag.Events.Queues.{list_by_processing_status, queued_before}
use ai_event_intelligence_ag.Events.Store.{update_processing_status}
use ai_event_intelligence_ag.Dedup.{
  DedupStageResult, classify_article_dedup, dedup_candidates, dedup_turn, dedup_turns, exact_match,
  find_earlier_by_content_hash, find_recent_by_title_hash, has_content, has_title, hash_of,
  mark_duplicate, nothing_reviewed, run_dedup_stage, title_match,
}
use ai_event_intelligence_ag.Dedup.Stories.{
  agrees, agrees_after, any-head?-sort, is_told, told_by_other, told_elsewhere,
}

abbrev marked : (ℕ → String) → EventDb → Article → ℕ → String → List Article
marked id_text db article other reason =
    (mark_duplicate id_text db article.id other reason).articles

module _ (id_text : ℕ → String) (story : ℕ → Bool) (db : EventDb) (article : Article) where
  exact_match-is_told :
      (other : Article) (to : ℕ) (reason : String)
      → exact_match db article ≡ some other
      → agrees story article db.articles ≡ true
      → story article.id ≡ true
      → is_told story (marked id_text db article to reason) ≡ true
  unfolding find_earlier_by_content_hash update_processing_status
  exact_match-is_told other to reason found agree mine =
      elim (Option-cases (hash_of article.content_hash)) [
        | inl no_hash ↦ ground arith
        | inr (hash, there) ↦
            let test : Article → Bool = has_content hash article.id in
            told_by_other story article.id "DUPLICATE" _ test article db.articles agree mine
              (λ b h. ground arith) (any-head?-sort test db.articles other (ground arith))
      ]

  title_match-is_told :
      (other : Article) (to : ℕ) (reason : String)
      → title_match db article ≡ some other
      → agrees story article db.articles ≡ true
      → story article.id ≡ true
      → is_told story (marked id_text db article to reason) ≡ true
  unfolding find_recent_by_title_hash update_processing_status
  title_match-is_told other to reason found agree mine =
      elim (Option-cases (hash_of article.title_hash)) [
        | inl no_hash ↦ ground arith
        | inr (hash, there) ↦
            let test : Article → Bool = has_title db.now hash article.id 7 in
            told_by_other story article.id "DUPLICATE" _ test article db.articles agree mine
              (λ b h. ground arith) (any-head?-sort test db.articles other (ground arith))
      ]

  -- A mark that names a found article leaves the story told.
  marked-is_told :
      (to : ℕ) (reason : String)
      → (story article.id ≡ true → is_told story (marked id_text db article to reason) ≡ true)
      → is_told story db.articles ≡ true
      → is_told story (marked id_text db article to reason) ≡ true
  unfolding update_processing_status
  marked-is_told to reason if_mine told = elim (Bool-cases (story article.id)) [
    | inl mine ↦ if_mine mine
    | inr other ↦ told_elsewhere story article.id "DUPLICATE" _ db.articles told other
  ]

  dedup_turn-is_told :
      (r : DedupStageResult)
      → agrees story article db.articles ≡ true
      → is_told story db.articles ≡ true
      → is_told story (dedup_turn id_text db article r).0.articles ≡ true
  unfolding dedup_turn classify_article_dedup
  dedup_turn-is_told r agree told = elim (Option-cases (exact_match db article)) [
    | inr (exact, found) ↦ ground (
      arith,
      marked-is_told exact.id "matching_content_hash"
          (exact_match-is_told exact exact.id "matching_content_hash" found agree) told,
    )
    | inl nothing ↦ elim (Option-cases (title_match db article)) [
      | inr (near, found) ↦ ground (
        arith,
        marked-is_told near.id "matching_title_hash_within_window"
            (title_match-is_told near near.id "matching_title_hash_within_window" found agree) told,
      )
      | inl still_nothing ↦ ground arith
    ]
  ]

  marked-agrees :
      (to : ℕ) (reason : String) (c : Article)
      → agrees story c (marked id_text db article to reason) ≡ agrees story c db.articles
  unfolding update_processing_status
  marked-agrees to reason c = agrees_after story article.id "DUPLICATE" _ c db.articles

  dedup_turn-agrees :
      (r : DedupStageResult) (c : Article)
      → agrees story c (dedup_turn id_text db article r).0.articles ≡ agrees story c db.articles
  unfolding dedup_turn classify_article_dedup
  dedup_turn-agrees r c = elim (Option-cases (exact_match db article)) [
    | inr (exact, found) ↦ ground (arith, marked-agrees exact.id "matching_content_hash" c)
    | inl nothing ↦ elim (Option-cases (title_match db article)) [
      | inr (near, found) ↦
          ground (arith, marked-agrees near.id "matching_title_hash_within_window" c)
      | inl still_nothing ↦ ground arith
    ]
  ]

  dedup_turn_counts :
      (r : DedupStageResult)
      → let next = (dedup_turn id_text db article r).1 in
        next.exact_duplicates + next.title_duplicates + next.semantic_candidates
          + next.unique_articles
        ≡ r.exact_duplicates + r.title_duplicates + r.semantic_candidates + r.unique_articles + 1
  unfolding dedup_turn
  dedup_turn_counts r = ground arith

module _ (id_text : ℕ → String) (story : ℕ → Bool) where
  dedup_turns-is_told :
      (db : EventDb) (candidates : List Article) (r : DedupStageResult)
      → All (λ a. agrees story a db.articles ≡ true) candidates
      → is_told story db.articles ≡ true
      → let (after, result) = dedup_turns id_text db candidates r in
        (is_told story after.articles ≡ true)
        × (result.exact_duplicates + result.title_duplicates + result.semantic_candidates
              + result.unique_articles
            ≡ r.exact_duplicates
              + r.title_duplicates
              + r.semantic_candidates
              + r.unique_articles
              + length candidates)
  unfolding dedup_turns
  dedup_turns-is_told db [] r all told = (told, omega arith)
  dedup_turns-is_told db (article ∷ rest) r all told =
      let (next, counted) = dedup_turn id_text db article r in
      let (still, counts) =
        dedup_turns-is_told next rest counted
          (All-mono (λ a. agrees story a db.articles ≡ true)
            (λ a. agrees story a next.articles ≡ true) rest
            (λ c h. dedup_turn-agrees id_text story db article r c ∙ h) all.1)
          (dedup_turn-is_told id_text story db article r all.0 told) in
      (still, ground (arith, counts, dedup_turn_counts id_text story db article r))

  All-++ : (P : Article → Type 0) (xs ys : List Article) → All P xs → All P ys → All P (xs ++ ys)
  All-++ P [] ys all more = more
  All-++ P (x ∷ xs) ys all more = (all.0, All-++ P xs ys all.1 more)

  listed_agree :
      (db : EventDb) (status : String) (limit : ℕ)
      → All (λ a. agrees story a db.articles ≡ true) db.articles
      → All (λ a. agrees story a db.articles ≡ true) (list_by_processing_status db status limit)
  unfolding list_by_processing_status
  listed_agree db status limit all =
      let P : Article → Type 0 = λ (a : Article). agrees story a db.articles ≡ true in
      let test : Article → Bool = λ a. str_eq a.processing_status status in
      All-take P limit (sort queued_before (keep test db.articles))
        (All-sort P queued_before (keep test db.articles) (All-keep P test db.articles all))

  -- For every set of articles that is closed under having a content hash or a title hash in common, a
  -- run of the stage that starts with an article of the set that is no duplicate ends with one: the stage
  -- never marks all that is told of a story. Every candidate is counted once.
  pub run_dedup_stage-is_told :
      (db : EventDb) (limit : ℕ)
      → All (λ a. agrees story a db.articles ≡ true) db.articles
      → is_told story db.articles ≡ true
      → let (after, result) = run_dedup_stage id_text db limit in
        (is_told story after.articles ≡ true)
        × (result.exact_duplicates + result.title_duplicates + result.semantic_candidates
              + result.unique_articles
            ≡ length (dedup_candidates db limit))
  unfolding run_dedup_stage
  run_dedup_stage-is_told db limit all told =
      let P : Article → Type 0 = λ (a : Article). agrees story a db.articles ≡ true in
      let extracted = list_by_processing_status db "EXTRACTED" limit in
      let entities = list_by_processing_status db "ENTITY_EXTRACTED" limit in
      let embedded = list_by_processing_status db "EMBEDDED" limit in
      let (still, counts) =
        dedup_turns-is_told db (dedup_candidates db limit)
          (nothing_reviewed (length (dedup_candidates db limit)))
          (All-take P limit ((extracted ++ entities) ++ embedded) (
            All-++ P (extracted ++ entities) embedded
              (All-++ P extracted entities (listed_agree db "EXTRACTED" limit all)
                (listed_agree db "ENTITY_EXTRACTED" limit all))
              (listed_agree db "EMBEDDED" limit all)))
          told in
      (still, ground (arith, counts))
