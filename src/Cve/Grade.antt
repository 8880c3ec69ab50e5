-- ===== src/Cve/Grade.antt =====
-- src/cve/cvss-grade.ts: the triage grades of CVSS and EPSS scores. A score is a count of 10⁻⁹, and none
-- where the source has null, undefined or a number that is not finite.
pub mod Worst
use ai_event_intelligence_ag.Base.{
  ℕ, ◌*◌, ◌^◌, Bool, true, false, ◌||◌, Option, none, some, List, [], ◌∷◌, if◌then◌else◌, leb, ltb,
}
use ai_event_intelligence_ag.StableJson.{units}

pub data CvssTriageGrade : Type 0 where
  critical high medium : CvssTriageGrade

unfoldable pub cvss_triage_grade : ℕ → CvssTriageGrade
cvss_triage_grade score =
    if leb (units 9) score then critical else if leb (units 7) score then high else medium

-- CVSS_GRADE_RANK
abbrev pub cvss_grade_rank : CvssTriageGrade → ℕ
cvss_grade_rank medium = 1
cvss_grade_rank high = 2
cvss_grade_rank critical = 3

-- One round of the loop of `worstCvssTriageGrade`.
abbrev pub worse_cvss : Option CvssTriageGrade → CvssTriageGrade → Option CvssTriageGrade
worse_cvss none grade = some grade
worse_cvss (some worst) grade =
    if ltb (cvss_grade_rank worst) (cvss_grade_rank grade) then some grade else some worst

unfoldable pub worst_cvss_from : Option CvssTriageGrade → List (Option ℕ) → Option CvssTriageGrade
worst_cvss_from worst [] = worst
worst_cvss_from worst (none ∷ rest) = worst_cvss_from worst rest
worst_cvss_from worst (some score ∷ rest) =
    worst_cvss_from (worse_cvss worst (cvss_triage_grade score)) rest

unfoldable pub worst_cvss_triage_grade : List (Option ℕ) → Option CvssTriageGrade
unfolding worst_cvss_from
worst_cvss_triage_grade scores = worst_cvss_from none scores

pub data EpssTriageGrade : Type 0 where
  critical high : EpssTriageGrade

-- n hundredths
abbrev pub hundredths : ℕ → ℕ
hundredths n = n * 10 ^ 7

-- EPSS_CRITICAL_SCORE, EPSS_HIGH_SCORE, EPSS_CRITICAL_PERCENTILE, EPSS_HIGH_PERCENTILE
abbrev pub epss_critical_score : ℕ
epss_critical_score = hundredths 10

abbrev pub epss_high_score : ℕ
epss_high_score = hundredths 5

abbrev pub epss_critical_percentile : ℕ
epss_critical_percentile = hundredths 95

abbrev pub epss_high_percentile : ℕ
epss_high_percentile = hundredths 90

abbrev pub hit : ℕ → ℕ → Option ℕ → Option EpssTriageGrade
hit critical_at high_at none = none
hit critical_at high_at (some value) =
    if leb critical_at value
    then some EpssTriageGrade.critical
    else if leb high_at value
    then some EpssTriageGrade.high
    else none

abbrev pub is_critical : Option EpssTriageGrade → Bool
is_critical (some EpssTriageGrade.critical) = true
is_critical _ = false

abbrev pub is_high : Option EpssTriageGrade → Bool
is_high (some EpssTriageGrade.high) = true
is_high _ = false

unfoldable pub epss_triage_grade : Option ℕ → Option ℕ → Option EpssTriageGrade
epss_triage_grade score percentile =
    let score_hit = hit epss_critical_score epss_high_score score in
    let percentile_hit = hit epss_critical_percentile epss_high_percentile percentile in
    if is_critical score_hit || is_critical percentile_hit
    then some EpssTriageGrade.critical
    else if is_high score_hit || is_high percentile_hit
    then some EpssTriageGrade.high
    else none

-- One round of the loop of `worstEpssTriageGrade`.
abbrev pub worse_epss : Option EpssTriageGrade → Option EpssTriageGrade → Option EpssTriageGrade
worse_epss worst none = worst
worse_epss none (some grade) = some grade
worse_epss (some EpssTriageGrade.high) (some EpssTriageGrade.critical) =
    some EpssTriageGrade.critical
worse_epss (some worst) (some _) = some worst

unfoldable pub worst_epss_from :
    Option EpssTriageGrade → List (Option ℕ × Option ℕ) → Option EpssTriageGrade
worst_epss_from worst [] = worst
worst_epss_from worst ((score, percentile) ∷ rest) =
    worst_epss_from (worse_epss worst (epss_triage_grade score percentile)) rest

unfoldable pub worst_epss_triage_grade : List (Option ℕ × Option ℕ) → Option EpssTriageGrade
unfolding worst_epss_from
worst_epss_triage_grade rows = worst_epss_from none rows
