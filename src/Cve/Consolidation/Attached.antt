-- ===== src/Cve/Consolidation/Attached.antt =====
-- When the second loop of `consolidateArticleCveEvidence` of src/cve/cases.ts throws.
use ai_event_intelligence_ag.Base.{
  ◌≡◌, refl, sym, true, List, [], ◌∷◌, arith, inl, inr, All, Bool-cases, is_some,
}
use ai_event_intelligence_ag.Cve.Records.{CveCase}
use ai_event_intelligence_ag.Cve.Store.{Db, has_article, upsert_case_article}
use ai_event_intelligence_ag.Cve.Consolidation.{Evidence, attach_article, attach_articles}
use ai_event_intelligence_ag.Cve.Consolidation.Known.{IsKnown}

abbrev pub AllThere : Db → List Evidence → Type 0
AllThere db = All (λ e. has_article db e.article_id ≡ true)

pub AllThere-of_articles :
    (d e : Db) (evidence : List Evidence)
    → e.articles ≡ d.articles
    → AllThere d evidence
    → AllThere e evidence
AllThere-of_articles d e [] same all = tt
AllThere-of_articles d e (x ∷ rest) same all =
    (rw same all.0, AllThere-of_articles d e rest same all.1)

articles-attach_article :
    (db : Db) (ensured : List CveCase) (e : Evidence)
    → (attach_article db ensured e).0.articles ≡ db.articles
unfolding attach_article upsert_case_article
articles-attach_article db ensured e = ground arith

pub articles-attach_articles :
    (db : Db) (ensured : List CveCase) (evidence : List Evidence)
    → (attach_articles db ensured evidence).0.articles ≡ db.articles
unfolding attach_articles
articles-attach_articles db ensured [] = refl
articles-attach_articles db ensured (e ∷ rest) = ground (
  arith,
  articles-attach_article db ensured e,
  articles-attach_articles (attach_article db ensured e).0 ensured rest,
)

-- The loop returns where the articles of all items are there, and, if the items' cases are ensured, only
-- there.
pub AllThere-attached :
    (db : Db) (ensured : List CveCase) (evidence : List Evidence)
    → AllThere db evidence
    → is_some (attach_articles db ensured evidence).1 ≡ true
unfolding attach_articles attach_article
AllThere-attached db ensured [] all = refl
AllThere-attached db ensured (e ∷ rest) all =
    let next = (attach_article db ensured e).0 in
    ground (
      arith,
      all.0,
      AllThere-attached next ensured rest
          (AllThere-of_articles db next rest (articles-attach_article db ensured e) all.1),
    )

pub attached-AllThere :
    (db : Db) (ensured : List CveCase) (evidence : List Evidence)
    → All (λ (e : Evidence). IsKnown ensured e.cve_id) evidence
    → is_some (attach_articles db ensured evidence).1 ≡ true
    → AllThere db evidence
unfolding attach_articles attach_article
attached-AllThere db ensured [] known returned = tt
attached-AllThere db ensured (e ∷ rest) known returned =
    let next = (attach_article db ensured e).0 in
    elim (Bool-cases (has_article db e.article_id)) [
      | inr lost ↦ absurd (ground (arith, known.0))
      | inl here ↦ (
        here,
        AllThere-of_articles next db rest (sym (articles-attach_article db ensured e))
            (attached-AllThere next ensured rest known.1 (ground (arith, known.0))),
      )
    ]
