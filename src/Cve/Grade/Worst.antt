-- ===== src/Cve/Grade/Worst.antt =====
-- What the loops of src/cve/cvss-grade.ts come to.
use mathlib.Core.Option
use ai_event_intelligence_ag.Base.{
  ℕ, ◌≡◌, refl, ap, ◌∙◌, ◌||◌, Bool, true, false, Option, none, some, List, [], ◌∷◌, arith,
  if◌then◌else◌, leb, ltb, any,
}
use ai_event_intelligence_ag.Cve.Grade.{
  cvss_triage_grade, worse_cvss, worst_cvss_from, worst_cvss_triage_grade, EpssTriageGrade,
  hundredths, epss_triage_grade, worse_epss, worst_epss_from, worst_epss_triage_grade,
}

abbrev pub greater : Option ℕ → ℕ → Option ℕ
greater none n = some n
greater (some m) n = some (if ltb m n then n else m)

-- The greatest of the scores that are there, and of one more.
abbrev pub greatest_from : Option ℕ → List (Option ℕ) → Option ℕ
greatest_from m [] = m
greatest_from m (none ∷ rest) = greatest_from m rest
greatest_from m (some score ∷ rest) = greatest_from (greater m score) rest

abbrev pub greatest : List (Option ℕ) → Option ℕ
greatest scores = greatest_from none scores

worse-grade :
    (m : Option ℕ) (n : ℕ)
    → worse_cvss (Option.map cvss_triage_grade m) (cvss_triage_grade n)
      ≡ Option.map cvss_triage_grade (greater m n)
unfolding cvss_triage_grade
worse-grade none n = refl
worse-grade (some m) n = ground arith

worst_cvss-greatest :
    (m : Option ℕ) (scores : List (Option ℕ))
    → worst_cvss_from (Option.map cvss_triage_grade m) scores
      ≡ Option.map cvss_triage_grade (greatest_from m scores)
unfolding worst_cvss_from
worst_cvss-greatest m [] = refl
worst_cvss-greatest m (none ∷ rest) = worst_cvss-greatest m rest
worst_cvss-greatest m (some score ∷ rest) =
    ap (λ w. worst_cvss_from w rest) (worse-grade m score)
    ∙ worst_cvss-greatest (greater m score) rest

-- The worst grade among scores is the grade of the greatest score that is there, and there is none
-- when no score is there.
pub worst_cvss_triage_grade-greatest :
    (scores : List (Option ℕ))
    → worst_cvss_triage_grade scores ≡ Option.map cvss_triage_grade (greatest scores)
unfolding worst_cvss_triage_grade
worst_cvss_triage_grade-greatest scores = worst_cvss-greatest none scores

-- The value is there and reaches the bound.
abbrev pub reaches : ℕ → Option ℕ → Bool
reaches bound none = false
reaches bound (some value) = leb bound value

abbrev pub row_critical : Option ℕ × Option ℕ → Bool
row_critical (score, percentile) =
    reaches (hundredths 10) score || reaches (hundredths 95) percentile

abbrev pub row_high : Option ℕ × Option ℕ → Bool
row_high (score, percentile) = reaches (hundredths 5) score || reaches (hundredths 90) percentile

abbrev of_flags : Bool → Bool → Option EpssTriageGrade
of_flags true h = some EpssTriageGrade.critical
of_flags false true = some EpssTriageGrade.high
of_flags false false = none

epss_of_flags :
    (s p : Option ℕ) → epss_triage_grade s p ≡ of_flags (row_critical (s, p)) (row_high (s, p))
unfolding epss_triage_grade
epss_of_flags none none = refl
epss_of_flags none (some p) = ground arith
epss_of_flags (some s) none = ground arith
epss_of_flags (some s) (some p) = ground arith

worse_of_flags :
    (c h c' h' : Bool) → worse_epss (of_flags c h) (of_flags c' h') ≡ of_flags (c || c') (h || h')
worse_of_flags c h c' h' = ground arith

worst_epss_of_flags :
    (c h : Bool) (rows : List (Option ℕ × Option ℕ))
    → worst_epss_from (of_flags c h) rows
      ≡ of_flags (c || any row_critical rows) (h || any row_high rows)
unfolding worst_epss_from
worst_epss_of_flags c h [] = ground arith
worst_epss_of_flags c h ((s, p) ∷ rest) = ground (
  arith,
  epss_of_flags s p,
  worse_of_flags c h (row_critical (s, p)) (row_high (s, p)),
  worst_epss_of_flags (c || row_critical (s, p)) (h || row_high (s, p)) rest,
)

-- The worst EPSS grade of rows is critical when some row has a score of at least 0.10 or a percentile of
-- at least 0.95, else high when some row has a score of at least 0.05 or a percentile of at least 0.90,
-- and else there is none.
pub worst_epss_triage_grade-any :
    (rows : List (Option ℕ × Option ℕ))
    → worst_epss_triage_grade rows ≡ (
        if any row_critical rows
        then some EpssTriageGrade.critical
        else if any row_high rows
        then some EpssTriageGrade.high
        else none)
unfolding worst_epss_triage_grade
worst_epss_triage_grade-any rows = ground (arith, worst_epss_of_flags false false rows)
