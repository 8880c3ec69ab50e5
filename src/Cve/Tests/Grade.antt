-- ===== src/Cve/Tests/Grade.antt =====
-- The grades of src/cve/cvss-grade.ts on a few scores.
use ai_event_intelligence_ag.Base.{ℕ, Option, none, some, List, [], ◌∷◌}
use ai_event_intelligence_ag.StableJson.{units}
use ai_event_intelligence_ag.Cve.Grade.{hundredths}

abbrev scores : List (Option ℕ)
scores = some (units 7) ∷ none ∷ some (units 9) ∷ some (units 3) ∷ []

abbrev rows : List (Option ℕ × Option ℕ)
rows = (some (hundredths 6), none) ∷ (none, some (hundredths 96)) ∷ []
