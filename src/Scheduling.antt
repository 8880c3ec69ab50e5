-- ===== src/Scheduling.antt =====
-- src/pipeline/scheduled-run.ts and src/cve/scheduled-maintenance.ts: a run that an advisory lock of the
-- database guards, and the replicas that tick at any time. The lock is Postgres': an interface of what its
-- manual says of pg_try_advisory_lock and pg_advisory_unlock. A pipeline or an unlock that throws is `none`.
pub mod Exclusion
mod Tests
use ai_event_intelligence_ag.Base.{
  ℕ, ◌≡◌, ◌+◌, ◌-◌, ◌==◌, Bool, true, false, not, ◌&&◌, ◌||◌, Option, none, some, List, [], ◌∷◌,
  if◌then◌else◌,
}

-- How often each session holds the lock.
pub record AdvisoryLock : Type 1 where
  pub Table : Type 0
  pub held : Table → ℕ → ℕ
  pub try_lock : Table → ℕ → Table × Bool
  pub unlock : Table → ℕ → Table

-- A lock that another session holds is refused at once, one that nobody holds is granted, and a grant is
-- one more hold of the session and an unlock one less.
pub record IsLock (lock : AdvisoryLock) : Type 0 where
  pub taken :
      (t : lock.Table) (s r : ℕ)
      → (s == r) ≡ false
      → (lock.held t r == 0) ≡ false
      → (lock.try_lock t s).1 ≡ false
  pub free : (t : lock.Table) (s : ℕ) → ((r : ℕ) → lock.held t r ≡ 0) → (lock.try_lock t s).1 ≡ true
  pub granted :
      (t : lock.Table) (s r : ℕ)
      → lock.held (lock.try_lock t s).0 r
        ≡ (if (lock.try_lock t s).1 && s == r then lock.held t r + 1 else lock.held t r)
  pub released :
      (t : lock.Table) (s r : ℕ)
      → lock.held (lock.unlock t s) r ≡ (if s == r then lock.held t r - 1 else lock.held t r)

pub data SkipReason : Type 0 where
  locked error : SkipReason

-- `ScheduledRunOutcome`, without durations
pub data ScheduledRunOutcome (R : Type 0) : Type 0 where
  ran : R → ScheduledRunOutcome R
  skipped : SkipReason → ScheduledRunOutcome R

module _ (lock : AdvisoryLock) {R : Type 0} where
  -- The rest of `runScheduledPipeline`, once it is known whether the lock was granted: the unlock of the
  -- `finally` runs however the pipeline ends, and an unlock that throws replaces the result.
  unfoldable pub end_scheduled_run :
      lock.Table → ℕ → Option R → Bool → lock.Table × ScheduledRunOutcome R
  end_scheduled_run table session result unlocks =
      if unlocks
      then (lock.unlock table session, elim result [ none ↦ skipped error | some r ↦ ran r ])
      else (table, skipped error)

  -- `runScheduledPipeline`
  unfoldable pub run_scheduled_pipeline :
      lock.Table → ℕ → Option R → Bool → lock.Table × ScheduledRunOutcome R
  run_scheduled_pipeline table session result unlocks =
      let (after, granted) = lock.try_lock table session in
      if granted then end_scheduled_run after session result unlocks else (after, skipped locked)

  -- `runScheduledMaintenance`: its unlock swallows what it throws.
  unfoldable pub run_scheduled_maintenance :
      lock.Table → ℕ → Option R → Bool → lock.Table × ScheduledRunOutcome R
  run_scheduled_maintenance table session result unlocks =
      let (after, granted) = lock.try_lock table session in
      if granted
      then (
        if unlocks then lock.unlock after session else after,
        elim result [ none ↦ skipped error | some r ↦ ran r ],
      )
      else (after, skipped locked)

module _ (lock : AdvisoryLock) where
  -- The lock, and which sessions are between their grant and their unlock.
  pub record Replicas : Type 0 where
    pub table : lock.Table
    pub running : ℕ → Bool

  -- The two halves of a run, between which other sessions move; an end says whether its unlock returns.
  pub data Moment : Type 0 where
    begins : ℕ → Moment
    ends : ℕ → Bool → Moment

  -- A session that begins asks for the lock, and runs if it is granted; one that ends leaves the lock as the
  -- end of its run does.
  unfoldable pub move_on : Replicas → Moment → Replicas
  unfolding end_scheduled_run
  move_on x (begins s) =
      if x.running s
      then x
      else (let (after, granted) = lock.try_lock x.table s in
          record { table = after; running = λ r. x.running r || (granted && s == r) })
  move_on x (ends s unlocks) =
      if x.running s
      then record {
        table = (end_scheduled_run lock {R = ℕ} x.table s none unlocks).0;
        running = λ r. x.running r && not (s == r);
      }
      else x

  unfoldable pub move_all : Replicas → List Moment → Replicas
  unfolding move_on
  move_all x [] = x
  move_all x (m ∷ moments) = move_all (move_on x m) moments
