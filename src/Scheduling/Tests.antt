-- ===== src/Scheduling/Tests.antt =====
-- A lock that remembers who took it last and how often.
use ai_event_intelligence_ag.Base.{
  ℕ, ◌≡◌, ◌+◌, ◌-◌, refl, ◌==◌, Bool, true, false, Option, none, some, List, [], ◌∷◌, arith,
  if◌then◌else◌,
}
use ai_event_intelligence_ag.Scheduling.{
  AdvisoryLock, IsLock, Moment, Replicas, begins, ends, move_all, move_on,
  run_scheduled_maintenance, run_scheduled_pipeline,
}
use ai_event_intelligence_ag.Scheduling.Exclusion.{
  has_run, move_all-alone, move_all_begins, run_scheduled_pipeline-held,
}

abbrev times_held : Option (ℕ × ℕ) → ℕ → ℕ
times_held none r = 0
times_held (some (s, n)) r = if s == r then n else 0

abbrev try_once : Option (ℕ × ℕ) → ℕ → Option (ℕ × ℕ) × Bool
try_once none r = (some (r, 1), true)
try_once (some (s, n)) r =
    if s == r
    then (some (s, n + 1), true)
    else if n == 0
    then (some (r, 1), true)
    else (some (s, n), false)

abbrev let_go : Option (ℕ × ℕ) → ℕ → Option (ℕ × ℕ)
let_go none r = none
let_go (some (s, n)) r = if s == r then some (s, n - 1) else some (s, n)

abbrev simple_lock : AdvisoryLock
simple_lock = record {
  Table = Option (ℕ × ℕ);
  held = times_held;
  try_lock = try_once;
  unlock = let_go;
}

free_is_granted :
    (t : Option (ℕ × ℕ)) (s : ℕ) → ((r : ℕ) → times_held t r ≡ 0) → (try_once t s).1 ≡ true
free_is_granted none s free = refl
free_is_granted (some (q, n)) s free = ground (arith, free q)

simple_lock-IsLock : IsLock simple_lock
simple_lock-IsLock = record {
  taken = λ t s r other held. ground arith;
  free = free_is_granted;
  granted = λ t s r. ground arith;
  released = λ t s r. ground arith;
}

abbrev quiet : Replicas simple_lock
quiet = record { table = none; running = λ s. false }

-- The second unlock of session 2 throws.
abbrev day : List (Moment simple_lock)
day = begins 1 ∷ begins 2 ∷ ends 1 true ∷ begins 2 ∷ ends 2 false ∷ begins 1 ∷ begins 2 ∷ []

abbrev good_day : List (Moment simple_lock)
good_day = begins 1 ∷ begins 2 ∷ ends 1 true ∷ begins 2 ∷ ends 2 true ∷ []

abbrev holder : ℕ
holder = 2

abbrev answer : Option ℕ
answer = some 7

move_all-alone_example : holder ≡ holder
unfolding move_all move_on
move_all-alone_example =
    move_all-alone simple_lock simple_lock-IsLock quiet day holder holder (λ q. refl) (λ q. refl)
      refl refl

ends_quiet : (q : ℕ) → (move_all simple_lock quiet good_day).running q ≡ false
unfolding move_all move_on
ends_quiet q = ground arith

move_all_begins_example :
    (move_on simple_lock (move_all simple_lock quiet good_day) (begins 3)).running 3 ≡ true
move_all_begins_example =
    move_all_begins simple_lock simple_lock-IsLock quiet good_day 3 (λ q. refl) (λ q. refl) refl
      ends_quiet

run_scheduled_pipeline-held_example :
    let pipeline = run_scheduled_pipeline simple_lock none 1 answer false in
    let maintenance = run_scheduled_maintenance simple_lock none 1 answer false in
    (times_held none 1 ≡ times_held none 1)
    × (times_held none 1 ≡ times_held none 1)
    × (has_run pipeline.1 ≡ false)
    × (has_run maintenance.1 ≡ true)
run_scheduled_pipeline-held_example =
    run_scheduled_pipeline-held simple_lock simple_lock-IsLock none 1 1 answer false
