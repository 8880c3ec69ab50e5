-- ===== src/Cve/Consolidation/Known.antt =====
-- The cases that the first loop of `consolidateArticleCveEvidence` of src/cve/cases.ts ensures: the second
-- loop finds each by its CVE id.
use ai_event_intelligence_ag.Base.{
  ℕ, ◌≡◌, refl, sym, subst, String, true, false, Option, some, List, [], ◌∷◌, map, arith, inl, inr,
  All, Bool-cases, Option-cases, any, is_some, eq_iff, find_holds, str_eq,
}
use ai_event_intelligence_ag.Cve.Records.{CveCase}
use ai_event_intelligence_ag.Cve.Store.{Db, find_case_by_cve_id, ensure_case}
use ai_event_intelligence_ag.Cve.Consolidation.{
  Evidence, case_for, first_seen_article, distinct, distinct_after, ensure_cases,
}

abbrev pub cve_ids : List Evidence → List String
cve_ids evidence = distinct (map (λ (e : Evidence). e.cve_id) evidence)

-- An ensured case is found by its CVE id.
abbrev pub IsKnown : List CveCase → String → Type 0
IsKnown ensured cve_id = is_some (case_for ensured cve_id) ≡ true

IsKnown-cons :
    (r : CveCase) (ensured : List CveCase) (ids : List String)
    → All (IsKnown ensured) ids
    → All (IsKnown (r ∷ ensured)) ids
IsKnown-cons r ensured [] all = tt
IsKnown-cons r ensured (x ∷ xs) all = (ground (arith, all.0), IsKnown-cons r ensured xs all.1)

ensure_case_named :
    (db : Db) (cve_id : String) (article : Option ℕ) (r : CveCase)
    → (ensure_case db cve_id article).1 ≡ some r
    → str_eq r.cve_id cve_id ≡ true
unfolding ensure_case
ensure_case_named db cve_id article r made = elim (Option-cases (find_case_by_cve_id db cve_id)) [
  | inl missing ↦ ground (arith, eq_iff cve_id cve_id)
  | inr (old, found) ↦
      ground (arith, find_holds (λ (x : CveCase). str_eq x.cve_id cve_id) db.cases old found)
]

pub ensure_cases-IsKnown :
    (db : Db) (evidence : List Evidence) (ids : List String) (rs : List CveCase)
    → (ensure_cases db evidence ids).1 ≡ some rs
    → All (IsKnown rs) ids
unfolding ensure_cases
ensure_cases-IsKnown db evidence [] rs made = tt
ensure_cases-IsKnown db evidence (cve_id ∷ rest) rs made =
    let article = first_seen_article evidence cve_id in
    let next = (ensure_case db cve_id article).0 in
    elim (Option-cases (ensure_case db cve_id article).1) [
      | inl thrown ↦ absurd (ground arith)
      | inr (r, first) ↦ elim (Option-cases (ensure_cases next evidence rest).1) [
        | inl thrown ↦ absurd (ground arith)
        | inr (others, more) ↦
            let all : r ∷ others ≡ rs = ground arith in
            subst (λ l. All (IsKnown l) (cve_id ∷ rest)) all
              (
                ground (arith, ensure_case_named db cve_id article r first),
                IsKnown-cons r others rest (ensure_cases-IsKnown next evidence rest others more),
              )
      ]
    ]

All-any_eq :
    (P : String → Type 0) (x : String) (seen : List String)
    → All P seen
    → any (str_eq x) seen ≡ true
    → P x
All-any_eq P x [] all h = absurd (ground arith)
All-any_eq P x (y ∷ seen) all h = elim (Bool-cases (str_eq x y)) [
  | inl same ↦ subst P (sym ((eq_iff x y).0 same)) all.0
  | inr other ↦ All-any_eq P x seen all.1 (ground arith)
]

repeated :
    (x : String) (xs seen : List String)
    → any (str_eq x) seen ≡ true
    → distinct_after seen (x ∷ xs) ≡ distinct_after seen xs
unfolding distinct_after
repeated x xs seen again = rw (again, distinct_after) refl

unrepeated :
    (x : String) (xs seen : List String)
    → any (str_eq x) seen ≡ false
    → distinct_after seen (x ∷ xs) ≡ x ∷ distinct_after (x ∷ seen) xs
unfolding distinct_after
unrepeated x xs seen new = rw (new, distinct_after) refl

All-distinct_after :
    (P : String → Type 0) (seen xs : List String)
    → All P seen
    → All P (distinct_after seen xs)
    → All P xs
unfolding distinct_after
All-distinct_after P seen [] before all = tt
All-distinct_after P seen (x ∷ xs) before all = elim (Bool-cases (any (str_eq x) seen)) [
  | inl again ↦ (
    All-any_eq P x seen before again,
    All-distinct_after P seen xs before (subst (All P) (repeated x xs seen again) all),
  )
  | inr new ↦
      let (first, rest) = subst (All P) (unrepeated x xs seen new) all in
      (first, All-distinct_after P (x ∷ seen) xs (first, before) rest)
]

All-map :
    (P : String → Type 0) (evidence : List Evidence)
    → All P (map (λ (e : Evidence). e.cve_id) evidence)
    → All (λ (e : Evidence). P e.cve_id) evidence
All-map P [] all = tt
All-map P (e ∷ rest) all = (all.0, All-map P rest all.1)

pub evidence-IsKnown :
    (evidence : List Evidence) (ensured : List CveCase)
    → All (IsKnown ensured) (cve_ids evidence)
    → All (λ (e : Evidence). IsKnown ensured e.cve_id) evidence
unfolding distinct
evidence-IsKnown evidence ensured all =
    All-map (IsKnown ensured) evidence
      (All-distinct_after (IsKnown ensured) [] (map (λ (e : Evidence). e.cve_id) evidence) tt all)
