-- ===== src/Dedup/Stories.antt =====
-- Sets of articles that have hashes in common, and whether one of them is no duplicate, through the statement
-- of src/pipeline/dedup-stage.ts that marks one.
use ai_event_intelligence_ag.Base.{
  ℕ, ◌≡◌, refl, ◌==◌, String, Bool, true, false, not, ◌&&◌, ◌||◌, Option, none, some, List, [], ◌∷◌,
  arith, inl, inr, Bool-cases, if◌then◌else◌, keep, any, head?,
}
use ai_event_intelligence_ag.Base.Table.{update_by}
use ai_event_intelligence_ag.Base.Sort.{sort, any-sort}
use ai_event_intelligence_ag.Events.Records.{Article, article_key}
use ai_event_intelligence_ag.Events.Queues.{has_text}
use ai_event_intelligence_ag.Dedup.{is_duplicate, published_first}

abbrev pub same_hash : Option String → Option String → Bool
same_hash none t = false
same_hash (some s) t = has_text s t

-- The two articles have a hash in common.
abbrev pub shares : Article → Article → Bool
shares a b = same_hash a.content_hash b.content_hash || same_hash a.title_hash b.title_hash

-- The story of an article, a set of ids, has every row that shares a hash with it.
abbrev pub agrees : (ℕ → Bool) → Article → List Article → Bool
agrees story a [] = true
agrees story a (b ∷ rows) =
    (if shares a b then not (story a.id) || story b.id else true) && agrees story a rows

-- Some article of the story is no duplicate.
abbrev pub is_told : (ℕ → Bool) → List Article → Bool
is_told story rows = any (λ (a : Article). story a.id && not (is_duplicate a)) rows

module _ (story : ℕ → Bool) (x : ℕ) (status : String) (error : Option String) where
  pub told_elsewhere :
      (rows : List Article)
      → is_told story rows ≡ true
      → story x ≡ false
      → is_told story (
          update_by article_key x
            (λ a. record a { processing_status = status; processing_error = error })
            rows)
        ≡ true
  told_elsewhere [] told other = told
  told_elsewhere (a ∷ rows) told other = ground (arith, told_elsewhere rows)

  pub agrees_after :
      (a : Article) (rows : List Article)
      → agrees story a (
          update_by article_key x
            (λ a. record a { processing_status = status; processing_error = error })
            rows)
        ≡ agrees story a rows
  agrees_after a [] = refl
  agrees_after a (b ∷ rows) = ground (arith, agrees_after a rows)

  -- A row of the story that is no duplicate and is not the one updated.
  pub told_by_other :
      (test : Article → Bool) (a : Article) (rows : List Article)
      → agrees story a rows ≡ true
      → story a.id ≡ true
      → ((b : Article)
          → test b ≡ true
          → (shares a b && not (b.id == x) && not (is_duplicate b)) ≡ true)
      → any test rows ≡ true
      → is_told story (
          update_by article_key x
            (λ a. record a { processing_status = status; processing_error = error })
            rows)
        ≡ true
  told_by_other test a [] agree mine means found = cc
  told_by_other test a (b ∷ rows) agree mine means found = elim (Bool-cases (test b)) [
    | inl here ↦ ground (arith, means b here)
    | inr there ↦ ground (arith, told_by_other test a rows)
  ]

any-keep-any :
    (test : Article → Bool) (rows : List Article) → any (λ _. true) (keep test rows) ≡ any test rows
any-keep-any test [] = refl
any-keep-any test (a ∷ rows) = ground (arith, any-keep-any test rows)

some_row : (rows : List Article) (a : Article) → head? rows ≡ some a → any (λ _. true) rows ≡ true
some_row [] a h = cc
some_row (b ∷ rows) a h = refl

-- What a search finds is a row that passes.
pub any-head?-sort :
    (test : Article → Bool) (rows : List Article) (a : Article)
    → head? (sort published_first (keep test rows)) ≡ some a
    → any test rows ≡ true
any-head?-sort test rows a h = ground (
  arith,
  some_row (sort published_first (keep test rows)) a h,
  any-sort published_first (λ _. true) (keep test rows),
  any-keep-any test rows,
)
