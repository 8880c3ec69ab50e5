-- ===== src/Cve/Consolidation/Links.antt =====
-- What `consolidateArticleCveEvidence` of src/cve/cases.ts leaves the links at.
use mathlib.Core.Option
use ai_event_intelligence_ag.Base.{
  ℕ, ◌≡◌, refl, ap, subst, ◌&&◌, ◌||◌, ◌==◌, Bool, true, false, none, some, List, [], ◌∷◌, arith,
  inl, inr, All, Bool-cases, Option-cases, if◌then◌else◌, is_some, ==_refl, find_holds,
}
use ai_event_intelligence_ag.Base.Table.{find-update_where}
use ai_event_intelligence_ag.StableJson.Jsonb.{to_jsonb}
use ai_event_intelligence_ag.Cve.Records.{mentioned, CveCase, CaseArticle}
use ai_event_intelligence_ag.Cve.Store.{
  Db, is_link, find_case_article, CaseArticleInput, upsert_case_article, merge_case_article,
  new_case_article,
}
use ai_event_intelligence_ag.Cve.Review.Verdict.{link_state}
use ai_event_intelligence_ag.Cve.Consolidation.{
  Evidence, case_for, attach_article, attach_articles, attach_input,
}

-- The link of its own pair after an upsert: the merged one, or a new one.
find_case_article-upsert :
    (db : Db) (i : CaseArticleInput)
    → find_case_article (upsert_case_article db i) i.case_id i.article_id
      ≡ some (elim (find_case_article db i.case_id i.article_id) [
        | none ↦ new_case_article db i
        | some l ↦ merge_case_article db.now i l
      ])
unfolding upsert_case_article
find_case_article-upsert db i = elim (Option-cases (find_case_article db i.case_id i.article_id)) [
  | inl missing ↦ ground (arith, ==_refl i.case_id, ==_refl i.article_id)
  | inr (l, found) ↦ ground (
    arith,
    find_holds (is_link i.case_id i.article_id) db.case_articles l found,
    find-update_where (is_link i.case_id i.article_id) (is_link i.case_id i.article_id)
        (merge_case_article db.now i) db.case_articles (λ _. refl),
  )
]

-- The link of any other pair is left alone.
find_case_article-upsert_other :
    (db : Db) (i : CaseArticleInput) (c a : ℕ)
    → (i.case_id == c && i.article_id == a) ≡ false
    → find_case_article (upsert_case_article db i) c a ≡ find_case_article db c a
unfolding upsert_case_article
find_case_article-upsert_other db i c a other = elim (Option-cases (find_case_article db c a)) [
  | inl missing ↦ ground (
    arith,
    find-update_where (is_link c a) (is_link i.case_id i.article_id) (merge_case_article db.now i)
        db.case_articles (λ _. refl),
  )
  | inr (l, found) ↦ ground (
    arith,
    find_holds (is_link c a) db.case_articles l found,
    find-update_where (is_link c a) (is_link i.case_id i.article_id) (merge_case_article db.now i)
        db.case_articles (λ _. refl),
  )
]

-- An upsert on a link that is there keeps its row, its first evidence and its first task where it has
-- them, and takes the state and the evidence of the input, whatever state a person had put the link in.
pub upsert_case_article_existing :
    (db : Db) (i : CaseArticleInput) (l : CaseArticle)
    → find_case_article db i.case_id i.article_id ≡ some l
    → (m : CaseArticle) × (find_case_article (upsert_case_article db i) i.case_id i.article_id
        ≡ some m)
      × (m.id ≡ l.id)
      × (m.lifecycle_state ≡ i.lifecycle_state)
      × (m.evidence ≡ to_jsonb i.evidence)
      × (m.first_evidence ≡ (
          if is_some l.first_evidence
          then l.first_evidence
          else Option.map to_jsonb i.first_evidence))
      × (m.automated_task_id
          ≡ (if is_some l.automated_task_id then l.automated_task_id else i.automated_task_id))
upsert_case_article_existing db i l found = (
  merge_case_article db.now i l,
  ground (arith, find_case_article-upsert db i),
  refl,
  refl,
  refl,
  ground arith,
  ground arith,
)

-- The loop attaches some item of `evidence` to the pair of the case `c` and the article `a`.
abbrev pub attaches : List CveCase → List Evidence → ℕ → ℕ → Bool
attaches ensured [] c a = false
attaches ensured (e ∷ rest) c a =
    elim (case_for ensured e.cve_id) [ none ↦ false | some r ↦ r.id == c && e.article_id == a ]
    || attaches ensured rest c a

abbrev pub AllMentioned : List Evidence → Type 0
AllMentioned = All (λ e. e.lifecycle_state ≡ mentioned)

link_state-upsert_self :
    (db : Db) (i : CaseArticleInput)
    → link_state (upsert_case_article db i) i.case_id i.article_id ≡ some i.lifecycle_state
link_state-upsert_self db i = ground (arith, find_case_article-upsert db i)

link_state-upsert :
    (db : Db) (i : CaseArticleInput) (c a : ℕ)
    → link_state (upsert_case_article db i) c a
      ≡ (if i.case_id == c && i.article_id == a then some i.lifecycle_state else link_state db c a)
link_state-upsert db i c a = elim (Bool-cases (i.case_id == c && i.article_id == a)) [
  | inl same ↦
      let case : i.case_id ≡ c = ground arith in
      let article : i.article_id ≡ a = ground arith in
      rw same (
        subst (λ k. link_state (upsert_case_article db i) k a ≡ some i.lifecycle_state) case
          (subst (λ k. link_state (upsert_case_article db i) i.case_id k ≡ some i.lifecycle_state)
            article (link_state-upsert_self db i)))
  | inr other ↦ rw other (
      ap (Option.map (λ (l : CaseArticle). l.lifecycle_state))
        (find_case_article-upsert_other db i c a other))
]

link_state-attach :
    (db : Db) (ensured : List CveCase) (e : Evidence) (c a : ℕ)
    → e.lifecycle_state ≡ mentioned
    → is_some (attach_article db ensured e).1 ≡ true
    → link_state (attach_article db ensured e).0 c a
      ≡ (if attaches ensured (e ∷ []) c a then some mentioned else link_state db c a)
unfolding attach_article
link_state-attach db ensured e c a is_mention returned =
    elim (Option-cases (case_for ensured e.cve_id)) [
      | inl missing ↦ ground arith
      | inr (r, found) ↦ ground (arith, link_state-upsert db (attach_input r e) c a)
    ]

-- After the loop, where it returns, with all items in the state `mentioned`, a pair that some item is attached to is
-- `mentioned`, and the link of any other pair has the state it had.
pub link_state-attach_articles :
    (db : Db) (ensured : List CveCase) (evidence : List Evidence) (c a : ℕ)
    → AllMentioned evidence
    → is_some (attach_articles db ensured evidence).1 ≡ true
    → link_state (attach_articles db ensured evidence).0 c a
      ≡ (if attaches ensured evidence c a then some mentioned else link_state db c a)
unfolding attach_articles
link_state-attach_articles db ensured [] c a all returned = refl
link_state-attach_articles db ensured (e ∷ rest) c a all returned =
    let next = (attach_article db ensured e).0 in
    ground (
      arith,
      link_state-attach db ensured e c a all.0,
      link_state-attach_articles next ensured rest c a all.1,
    )
