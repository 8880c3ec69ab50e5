-- ===== src/Events/Counts.antt =====
-- How many rows of `event_articles` an event has, and that there is one for each article, through the
-- statements that write them.
use ai_event_intelligence_ag.Base.{
  ℕ, ◌≡◌, refl, ◌==◌, false, not, ◌&&◌, Option, none, some, List, [], ◌∷◌, arith, inl, inr,
  Bool-cases, find, keep, is_some,
}
use ai_event_intelligence_ag.Base.Table.{update_where}
use ai_event_intelligence_ag.Events.Records.{EventArticle}
use ai_event_intelligence_ag.Events.Store.{AttachInput, is_link, count_links, relink_row}

-- UNIQUE (event_id, article_id)
abbrev pub IsUnique : List EventArticle → Type 0
IsUnique [] = Unit
IsUnique (l ∷ links) = (find (is_link l.event_id l.article_id) links ≡ none) × IsUnique links

module _ (i : AttachInput) where
  pub count_links-update_where :
      (k : ℕ) (links : List EventArticle)
      → count_links k (update_where (is_link i.event_id i.article_id) (relink_row i) links)
        ≡ count_links k links
  count_links-update_where k [] = refl
  count_links-update_where k (l ∷ links) = ground (arith, count_links-update_where k links)

  pub find-relink_row :
      (e a : ℕ) (links : List EventArticle)
      → is_some
          (find (is_link e a) (update_where (is_link i.event_id i.article_id) (relink_row i) links))
        ≡ is_some (find (is_link e a) links)
  find-relink_row e a [] = refl
  find-relink_row e a (l ∷ links) = ground (arith, find-relink_row e a links)

pub absent_none {ℓ} : {A : Type ℓ} (o : Option A) → is_some o ≡ false → o ≡ none
absent_none none h = refl
absent_none (some a) h = cc

module _ (e a : ℕ) where
  -- A deletion of one event's link leaves the counts of the others.
  pub count_links-keep :
      (k : ℕ) (links : List EventArticle)
      → (e == k) ≡ false
      → count_links k (keep (λ l. not (is_link e a l)) links) ≡ count_links k links
  count_links-keep k [] other = refl
  count_links-keep k (l ∷ links) other = ground (arith, count_links-keep k links other)

  pub find-keep_link :
      (d b : ℕ) (links : List EventArticle)
      → is_some (find (is_link d b) (keep (λ l. not (is_link e a l)) links))
        ≡ (is_some (find (is_link d b) links) && not (e == d && a == b))
  find-keep_link d b [] = refl
  find-keep_link d b (l ∷ links) = ground (arith, find-keep_link d b links)

pub relinked-IsUnique :
    (i : AttachInput) (links : List EventArticle)
    → IsUnique links
    → IsUnique (update_where (is_link i.event_id i.article_id) (relink_row i) links)
relinked-IsUnique i [] unique = tt
relinked-IsUnique i (l ∷ links) unique = (
  ground (
    arith,
    absent_none (
        find (is_link l.event_id l.article_id)
          (update_where (is_link i.event_id i.article_id) (relink_row i) links)),
    find-relink_row i l.event_id l.article_id links,
    unique.0,
  ),
  relinked-IsUnique i links unique.1,
)

pub keep-IsUnique :
    (e a : ℕ) (links : List EventArticle)
    → IsUnique links
    → IsUnique (keep (λ l. not (is_link e a l)) links)
keep-IsUnique e a [] unique = tt
keep-IsUnique e a (l ∷ links) unique = elim (Bool-cases (is_link e a l)) [
  | inl gone ↦ rw (gone) (keep-IsUnique e a links unique.1)
  | inr stays ↦ rw (stays) (
    absent_none (find (is_link l.event_id l.article_id) (keep (λ l. not (is_link e a l)) links))
        (ground (arith, find-keep_link e a l.event_id l.article_id links, unique.0)),
    keep-IsUnique e a links unique.1,
  )
]
