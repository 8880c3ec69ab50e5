-- ===== src/Scheduling/Exclusion.antt =====
-- At most one run of a scheduled pipeline (src/pipeline/scheduled-run.ts) is in progress at any time.
use ai_event_intelligence_ag.Base.{
  ℕ, ◌≡◌, Bool, true, false, ◌&&◌, Option, List, [], ◌∷◌, arith, inl, inr, Bool-cases, refl, ◌==◌,
  &&-true, if◌then◌else◌, ==_refl, is_some,
}
use ai_event_intelligence_ag.Scheduling.{
  AdvisoryLock, IsLock, Moment, Replicas, ScheduledRunOutcome, begins, end_scheduled_run, ends,
  move_all, move_on, ran, run_scheduled_maintenance, run_scheduled_pipeline, skipped,
}

abbrev pub has_run : {R : Type 0} → ScheduledRunOutcome R → Bool
has_run (ran r) = true
has_run (skipped why) = false

-- All unlocks of these moments return.
abbrev pub all_unlock : {lock : AdvisoryLock} → List (Moment lock) → Bool
all_unlock [] = true
all_unlock (begins s ∷ moments) = all_unlock moments
all_unlock (ends s unlocks ∷ moments) = unlocks && all_unlock moments

module _ (lock : AdvisoryLock) (laws : IsLock lock) where
  -- A session that runs holds the lock, and of two that hold it each is the other.
  pub record IsExclusive (x : Replicas lock) : Type 0 where
    pub holds : (s : ℕ) → x.running s ≡ true → (lock.held x.table s == 0) ≡ false
    pub alone :
        (s r : ℕ) → (lock.held x.table s == 0) ≡ false → (lock.held x.table r == 0) ≡ false → s ≡ r

  move_on-IsExclusive :
      (x : Replicas lock) (m : Moment lock) → IsExclusive x → IsExclusive (move_on lock x m)
  unfolding move_on
  move_on-IsExclusive x (begins s) h = elim (Bool-cases (x.running s)) [
    | inl busy ↦ rw (busy, move_on) h
    | inr idle ↦
        rw (idle, move_on)
          (record {
            holds = λ r runs. ground (arith, laws.granted x.table s r, h.holds r, runs);
            alone = λ r q first second. ground (
              arith,
              h.alone r q,
              laws.granted x.table s r,
              laws.granted x.table s q,
              laws.taken x.table s r,
              laws.taken x.table s q,
              first,
              second,
            );
          })
  ]
  move_on-IsExclusive x (ends s unlocks) h = elim (Bool-cases (x.running s)) [
    | inr idle ↦ rw (idle, move_on) h
    | inl busy ↦
        rw (busy, move_on)
          (record {
            holds = λ r runs. ground (arith, laws.released x.table s r, h.holds r, runs);
            alone = λ r q first second. ground (
              arith,
              h.alone r q,
              laws.released x.table s r,
              laws.released x.table s q,
              first,
              second,
            );
          })
  ]

  move_all-IsExclusive :
      (x : Replicas lock) (moments : List (Moment lock))
      → IsExclusive x
      → IsExclusive (move_all lock x moments)
  unfolding move_all
  move_all-IsExclusive x [] h = h
  move_all-IsExclusive x (m ∷ moments) h =
      move_all-IsExclusive (move_on lock x m) moments (move_on-IsExclusive x m h)

  -- Each session holds the lock once while it runs, and not else.
  abbrev pub IsExact : Replicas lock → Type 0
  IsExact x = (s : ℕ) → lock.held x.table s ≡ (if x.running s then 1 else 0)

  move_on-IsExact :
      (x : Replicas lock) (m : Moment lock)
      → all_unlock (m ∷ []) ≡ true
      → IsExact x
      → IsExact (move_on lock x m)
  unfolding move_on
  move_on-IsExact x (begins s) fine h r = elim (Bool-cases (x.running s)) [
    | inl busy ↦ rw (busy, move_on) (h r)
    | inr idle ↦ rw (idle, move_on) (ground (arith, laws.granted x.table s r, h r, h s))
  ]
  move_on-IsExact x (ends s unlocks) fine h r = elim (Bool-cases (x.running s)) [
    | inr idle ↦ rw (idle, move_on) (h r)
    | inl busy ↦ rw (busy, move_on) (ground (arith, fine, laws.released x.table s r, h r))
  ]

  move_all-IsExact :
      (x : Replicas lock) (moments : List (Moment lock))
      → all_unlock moments ≡ true
      → IsExact x
      → IsExact (move_all lock x moments)
  unfolding move_all
  move_all-IsExact x [] fine h = h
  move_all-IsExact x (begins s ∷ moments) fine h =
      move_all-IsExact (move_on lock x (begins s)) moments fine
        (move_on-IsExact x (begins s) refl h)
  move_all-IsExact x (ends s unlocks ∷ moments) fine h =
      let (this, more) = &&-true unlocks (all_unlock moments) fine in
      move_all-IsExact (move_on lock x (ends s unlocks)) moments more
        (move_on-IsExact x (ends s unlocks) (rw this refl) h)

  start-IsExclusive :
      (x : Replicas lock)
      → ((q : ℕ) → x.running q ≡ false)
      → ((q : ℕ) → lock.held x.table q ≡ 0)
      → IsExclusive x
  start-IsExclusive x idle free = record {
    holds = λ q runs. ground (arith, idle q, runs);
    alone = λ q p first second. ground (arith, free q, first);
  }

  -- From a start where nothing runs and nobody holds the lock, however the beginnings and ends of the
  -- sessions interleave, and whichever unlocks throw, two sessions that are running are one.
  pub move_all-alone :
      (x : Replicas lock) (moments : List (Moment lock)) (s r : ℕ)
      → ((q : ℕ) → x.running q ≡ false)
      → ((q : ℕ) → lock.held x.table q ≡ 0)
      → (move_all lock x moments).running s ≡ true
      → (move_all lock x moments).running r ≡ true
      → s ≡ r
  move_all-alone x moments s r idle free first second =
      let h = move_all-IsExclusive x moments (start-IsExclusive x idle free) in
      h.alone s r (h.holds s first) (h.holds r second)

  -- From such a start, where no unlock throws: once no session runs any more, the next one that begins runs.
  pub move_all_begins :
      (x : Replicas lock) (moments : List (Moment lock)) (next : ℕ)
      → ((q : ℕ) → x.running q ≡ false)
      → ((q : ℕ) → lock.held x.table q ≡ 0)
      → all_unlock moments ≡ true
      → ((q : ℕ) → (move_all lock x moments).running q ≡ false)
      → (move_on lock (move_all lock x moments) (begins next)).running next ≡ true
  unfolding move_on
  move_all_begins x moments next idle free fine quiet =
      let y = move_all lock x moments in
      let exact = move_all-IsExact x moments fine (λ q. ground (arith, idle q, free q)) in
      ground (
        arith,
        laws.free y.table next (λ q. ground (arith, exact q, quiet q)),
        quiet next,
        ==_refl next,
      )

-- A scheduled run, of the pipeline or of the maintenance, that a free lock is granted to gives the lock back
-- however the work ends, unless the unlock throws, and one that is refused leaves it alone. The pipeline
-- counts as run when the lock was granted, its work returned and the unlock did not throw; the maintenance
-- when the lock was granted and its work returned.
pub run_scheduled_pipeline-held :
    (lock : AdvisoryLock) (laws : IsLock lock) {R : Type 0} (t : lock.Table) (s r : ℕ)
    (result : Option R) (unlocks : Bool)
    → let granted = (lock.try_lock t s).1 in
      let pipeline = run_scheduled_pipeline lock t s result unlocks in
      let maintenance = run_scheduled_maintenance lock t s result unlocks in
      ((if unlocks then lock.held pipeline.0 r else lock.held t r) ≡ lock.held t r)
      × ((if unlocks then lock.held maintenance.0 r else lock.held t r) ≡ lock.held t r)
      × (has_run pipeline.1 ≡ (granted && is_some result && unlocks))
      × (has_run maintenance.1 ≡ (granted && is_some result))
unfolding run_scheduled_pipeline end_scheduled_run run_scheduled_maintenance
run_scheduled_pipeline-held lock laws t s r result unlocks =
    let granted = laws.granted t s r in
    let released = laws.released (lock.try_lock t s).0 s r in
    (
      ground (arith, granted, released),
      ground (arith, granted, released),
      ground arith,
      ground arith,
    )
