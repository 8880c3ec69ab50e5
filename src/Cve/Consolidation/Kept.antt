-- ===== src/Cve/Consolidation/Kept.antt =====
-- The cases that `consolidateArticleCveEvidence` of src/cve/cases.ts ensures stay there.
use ai_event_intelligence_ag.Base.{
  ℕ, ◌≡◌, refl, String, true, Option, some, List, [], ◌∷◌, arith, inl, inr, All, Option-cases,
  is_some, eq_iff,
}
use ai_event_intelligence_ag.Cve.Records.{CveCase}
use ai_event_intelligence_ag.Cve.Store.{Db, find_case_by_cve_id, ensure_case}
use ai_event_intelligence_ag.Cve.Consolidation.{Evidence, first_seen_article, ensure_cases}

abbrev HasCase : Db → String → Type 0
HasCase db cve_id = is_some (find_case_by_cve_id db cve_id) ≡ true

-- A case that is there stays there.
ensure_case_keeps :
    (db : Db) (cve_id other : String) (article : Option ℕ)
    → HasCase db other
    → HasCase (ensure_case db cve_id article).0 other
unfolding ensure_case
ensure_case_keeps db cve_id other article h = ground arith

-- A case that was ensured is there.
ensure_case_made :
    (db : Db) (cve_id : String) (article : Option ℕ) (r : CveCase)
    → (ensure_case db cve_id article).1 ≡ some r
    → HasCase (ensure_case db cve_id article).0 cve_id
unfolding ensure_case
ensure_case_made db cve_id article r made = ground (arith, eq_iff cve_id cve_id)

pub HasCase-of_same :
    (d e : Db) (ids : List String) → e.cases ≡ d.cases → All (HasCase d) ids → All (HasCase e) ids
HasCase-of_same d e [] same all = tt
HasCase-of_same d e (x ∷ xs) same all = (rw same all.0, HasCase-of_same d e xs same all.1)

ensure_case_there :
    (db : Db) (cve_id : String) (article : Option ℕ)
    → HasCase db cve_id
    → ((ensure_case db cve_id article).0.cases ≡ db.cases)
      × (is_some (ensure_case db cve_id article).1 ≡ true)
unfolding ensure_case
ensure_case_there db cve_id article h = ground arith

ensure_cases_keeps :
    (db : Db) (evidence : List Evidence) (ids : List String) (other : String)
    → HasCase db other
    → HasCase (ensure_cases db evidence ids).0 other
unfolding ensure_cases
ensure_cases_keeps db evidence [] other h = h
ensure_cases_keeps db evidence (cve_id ∷ rest) other h =
    let article = first_seen_article evidence cve_id in
    ground (
      arith,
      ensure_case_keeps db cve_id other article h,
      ensure_cases_keeps (ensure_case db cve_id article).0 evidence rest other,
    )

pub ensure_cases_made :
    (db : Db) (evidence : List Evidence) (ids : List String) (rs : List CveCase)
    → (ensure_cases db evidence ids).1 ≡ some rs
    → All (HasCase (ensure_cases db evidence ids).0) ids
unfolding ensure_cases
ensure_cases_made db evidence [] rs made = tt
ensure_cases_made db evidence (cve_id ∷ rest) rs made =
    let article = first_seen_article evidence cve_id in
    let next = (ensure_case db cve_id article).0 in
    elim (Option-cases (ensure_case db cve_id article).1) [
      | inl thrown ↦ absurd (ground arith)
      | inr (r, first) ↦ elim (Option-cases (ensure_cases next evidence rest).1) [
        | inl thrown ↦ absurd (ground arith)
        | inr (others, more) ↦
            HasCase-of_same (ensure_cases next evidence rest).0
              (ensure_cases db evidence (cve_id ∷ rest)).0 (cve_id ∷ rest) (ground arith)
              (
                ensure_cases_keeps next evidence rest cve_id
                    (ensure_case_made db cve_id article r first),
                ensure_cases_made next evidence rest others more,
              )
      ]
    ]

-- Where every case is there, ensuring them inserts none and does not fail.
pub ensure_cases_there :
    (db : Db) (evidence : List Evidence) (ids : List String)
    → All (HasCase db) ids
    → ((ensure_cases db evidence ids).0.cases ≡ db.cases)
      × (is_some (ensure_cases db evidence ids).1 ≡ true)
unfolding ensure_cases
ensure_cases_there db evidence [] all = (refl, refl)
ensure_cases_there db evidence (cve_id ∷ rest) all =
    let article = first_seen_article evidence cve_id in
    let next = (ensure_case db cve_id article).0 in
    let (same, made) = ensure_case_there db cve_id article all.0 in
    ground (
      arith,
      same,
      made,
      ensure_cases_there next evidence rest (HasCase-of_same db next rest same all.1),
    )
