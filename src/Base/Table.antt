-- ===== src/Base/Table.antt =====
-- A database table as the list of its rows, newest first. A row is found by a key, an UPDATE
-- rewrites the rows with that key and an INSERT puts a row in front.
use Prim.Native.Nat.{ℕ, ◌<◌}
use mathlib.Core.Path.{◌≡◌, refl, subst}
use mathlib.Core.Logic.{inl, inr}
use mathlib.Core.Bool.{Bool, true}
use mathlib.Core.List.{List, [], ◌∷◌}
use mathlib.Core.Option
use mathlib.Core.Option.{Option, none, some, some-injective}
use native.Mathlib.Omega.{arith}
use ai_event_intelligence_ag.Base.Tests.{◌==◌, if◌then◌else◌, Bool-cases, is_some, ==_refl}
use ai_event_intelligence_ag.Base.Lists.{find, All}

module _ {ℓ} {A : Type ℓ} where
  -- UPDATE … SET f WHERE q
  abbrev pub update_where : (A → Bool) → (A → A) → List A → List A
  update_where q f [] = []
  update_where q f (a ∷ rows) = (if q a then f a else a) ∷ update_where q f rows

  -- A lookup by a test that the update leaves alone finds the updated row.
  pub find-update_where :
      (p q : A → Bool) (f : A → A) (rows : List A)
      → ((a : A) → p (f a) ≡ p a)
      → find p (update_where q f rows) ≡ Option.map (λ a. if q a then f a else a) (find p rows)
  find-update_where p q f [] keeps = refl
  find-update_where p q f (a ∷ rows) keeps =
      ground (arith, keeps a, find-update_where p q f rows keeps)

module _ {ℓ} {A : Type ℓ} (key : A → ℕ) where
  -- SELECT … WHERE key = k, at most one row expected
  abbrev pub find_by : ℕ → List A → Option A
  find_by k rows = find (λ a. key a == k) rows

  -- UPDATE … SET f WHERE key = k
  abbrev pub update_by : ℕ → (A → A) → List A → List A
  update_by k f rows = update_where (λ a. key a == k) f rows

  -- Every key of the table has already been handed out.
  abbrev pub Below : ℕ → List A → Type 0
  Below n [] = Unit
  Below n (a ∷ rows) = (key a < n) × Below n rows

  -- An update that keeps the key is seen by a lookup of that key, and by no other.
  pub find_by-update_by :
      (k j : ℕ) (f : A → A) (rows : List A)
      → ((a : A) → key (f a) ≡ key a)
      → find_by k (update_by j f rows)
        ≡ (if j == k then Option.map f (find_by k rows) else find_by k rows)
  find_by-update_by k j f [] keeps = ground arith
  find_by-update_by k j f (a ∷ rows) keeps =
      ground (arith, keeps a, find_by-update_by k j f rows keeps)

  -- The row that a lookup returns has the key that was asked for.
  pub key-find_by : (k : ℕ) (rows : List A) (a : A) → find_by k rows ≡ some a → key a ≡ k
  key-find_by k [] a h = cc
  key-find_by k (b ∷ rows) a h = ground (arith, key-find_by k rows a)

  pub find_by-Below :
      (n k : ℕ) (rows : List A) (a : A) → Below n rows → find_by k rows ≡ some a → k < n
  find_by-Below n k [] a below h = cc
  find_by-Below n k (b ∷ rows) a below h = ground (arith, find_by-Below n k rows a below.1)

  pub Below-weaken : (n m : ℕ) (rows : List A) → n < m → Below n rows → Below m rows
  Below-weaken n m [] h below = tt
  Below-weaken n m (a ∷ rows) h below = (omega arith, Below-weaken n m rows h below.1)

  pub Below-update_by :
      (n k : ℕ) (f : A → A) (rows : List A)
      → ((a : A) → key (f a) ≡ key a)
      → Below n rows
      → Below n (update_by k f rows)
  Below-update_by n k f [] keeps below = tt
  Below-update_by n k f (a ∷ rows) keeps below =
      (ground (arith, keeps a, below.0), Below-update_by n k f rows keeps below.1)

module _ {ℓ κ} {A : Type ℓ} (P Q : A → Type κ) where
  -- What each row gains from the update, the table gains.
  pub All-update_where :
      (q : A → Bool) (f : A → A) (rows : List A)
      → ((a : A) → P a → Q (if q a then f a else a))
      → All P rows
      → All Q (update_where q f rows)
  All-update_where q f [] step all = tt
  All-update_where q f (a ∷ rows) step all = (step a all.0, All-update_where q f rows step all.1)

  pub All-mono : (rows : List A) → ((a : A) → P a → Q a) → All P rows → All Q rows
  All-mono [] step all = tt
  All-mono (a ∷ rows) step all = (step a all.0, All-mono rows step all.1)

-- A found row has what all rows have.
pub All-find {ℓ κ} :
    {A : Type ℓ} (P : A → Type κ) (p : A → Bool) (rows : List A) (a : A)
    → All P rows
    → find p rows ≡ some a
    → P a
All-find P p [] a all h = cc
All-find P p (b ∷ rows) a all h = elim (Bool-cases (p b)) [
  | inl here ↦ subst P (some-injective b a (rw here at h)) all.0
  | inr there ↦ All-find P p rows a all.1 (rw there at h)
]

-- Every row of a table is found by its key, though it may be another row with that key.
pub All-find_by {ℓ} :
    {A : Type ℓ} (key : A → ℕ) (rows : List A)
    → All (λ a. is_some (find_by key (key a) rows) ≡ true) rows
All-find_by key [] = tt
All-find_by key (b ∷ rows) = (
  rw (==_refl (key b)) refl,
  All-mono (λ a. is_some (find_by key (key a) rows) ≡ true)
      (λ a. is_some (find_by key (key a) (b ∷ rows)) ≡ true) rows (λ a h. ground (arith, h))
      (All-find_by key rows),
)
