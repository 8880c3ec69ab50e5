-- ===== src/Base/Sort.antt =====
-- ORDER BY, LIMIT and OFFSET on lists of rows: an insertion sort by a test that says which of two rows
-- comes first, and parts of a list.
use Prim.Native.Nat.{ℕ, zero, suc, ◌+◌, ◌-◌, min}
use mathlib.Core.Path.{◌≡◌, refl, sym, ap, ◌∙◌}
use mathlib.Core.Logic.{inl, inr}
use mathlib.Core.Bool.{Bool, true, false, ◌||◌}
use mathlib.Core.List.{List, [], ◌∷◌, ◌++◌}
use native.Mathlib.Omega.{arith}
use ai_event_intelligence_ag.Base.Tests.{if◌then◌else◌, Bool-cases}
use ai_event_intelligence_ag.Base.Lists.{length, any, All, keep}

module _ {ℓ} {A : Type ℓ} where
  -- LIMIT
  abbrev pub take : ℕ → List A → List A
  take zero xs = []
  take (suc n) [] = []
  take (suc n) (x ∷ xs) = x ∷ take n xs

  -- OFFSET
  abbrev pub drop : ℕ → List A → List A
  drop zero xs = xs
  drop (suc n) [] = []
  drop (suc n) (x ∷ xs) = drop n xs

  pub length-take : (n : ℕ) (xs : List A) → length (take n xs) ≡ min n (length xs)
  length-take zero xs = ground arith
  length-take (suc n) [] = ground arith
  length-take (suc n) (x ∷ xs) = ground (arith, length-take n xs)

  pub length-drop : (n : ℕ) (xs : List A) → length (drop n xs) ≡ length xs - n
  length-drop zero xs = omega arith
  length-drop (suc n) [] = omega arith
  length-drop (suc n) (x ∷ xs) = ground (arith, length-drop n xs)

  take_nothing : (n : ℕ) → take n [] ≡ []
  take_nothing zero = refl
  take_nothing (suc n) = refl

  drop_nothing : (n : ℕ) → drop n [] ≡ []
  drop_nothing zero = refl
  drop_nothing (suc n) = refl

  pub take-drop_lem : (n m : ℕ) (xs : List A) → take n xs ++ take m (drop n xs) ≡ take (n + m) xs
  take-drop_lem zero m xs = ap (λ k. take k xs) (omega arith)
  take-drop_lem (suc n) m [] = take_nothing m ∙ sym (take_nothing (suc n + m))
  take-drop_lem (suc n) m (x ∷ xs) =
      let shift : suc (n + m) ≡ suc n + m = omega arith in
      ap (λ ys. x ∷ ys) (take-drop_lem n m xs) ∙ ap (λ k. take k (x ∷ xs)) shift

  pub drop-drop : (n k : ℕ) (xs : List A) → drop n (drop k xs) ≡ drop (k + n) xs
  drop-drop n zero xs = ap (λ j. drop j xs) (omega arith)
  drop-drop n (suc k) [] = drop_nothing n ∙ sym (drop_nothing (suc k + n))
  drop-drop n (suc k) (x ∷ xs) =
      let shift : suc (k + n) ≡ suc k + n = omega arith in
      drop-drop n k xs ∙ ap (λ j. drop j (x ∷ xs)) shift

  -- A page and the page after it are the page of both lengths.
  pub take-drop :
      (n m k : ℕ) (xs : List A)
      → take n (drop k xs) ++ take m (drop (k + n) xs) ≡ take (n + m) (drop k xs)
  take-drop n m k xs = rw (sym (drop-drop n k xs)) (take-drop_lem n m (drop k xs))

  pub any-++ : (p : A → Bool) (xs ys : List A) → any p (xs ++ ys) ≡ (any p xs || any p ys)
  any-++ p [] ys = refl
  any-++ p (x ∷ xs) ys = ground (arith, any-++ p xs ys)

module _ {ℓ} {A : Type ℓ} (before : A → A → Bool) where
  abbrev pub insert : A → List A → List A
  insert x [] = x ∷ []
  insert x (y ∷ ys) = let rest = insert x ys in if before x y then x ∷ y ∷ ys else y ∷ rest

  -- ORDER BY
  abbrev pub sort : List A → List A
  sort [] = []
  sort (x ∷ xs) = insert x (sort xs)

  length-insert : (x : A) (xs : List A) → length (insert x xs) ≡ suc (length xs)
  length-insert x [] = refl
  length-insert x (y ∷ ys) = ground (arith, length-insert x ys)

  pub length-sort : (xs : List A) → length (sort xs) ≡ length xs
  length-sort [] = refl
  length-sort (x ∷ xs) = ground (arith, length-insert x (sort xs), length-sort xs)

  any-insert : (p : A → Bool) (x : A) (xs : List A) → any p (insert x xs) ≡ (p x || any p xs)
  any-insert p x [] = refl
  any-insert p x (y ∷ ys) = ground (arith, any-insert p x ys)

  -- Sorting neither adds nor drops a row.
  pub any-sort : (p : A → Bool) (xs : List A) → any p (sort xs) ≡ any p xs
  any-sort p [] = refl
  any-sort p (x ∷ xs) = ground (arith, any-insert p x (sort xs), any-sort p xs)

  -- Every row comes before those that follow it.
  abbrev pub IsSorted : List A → Type 0
  IsSorted [] = Unit
  IsSorted (x ∷ xs) = All (λ y. before x y ≡ true) xs × IsSorted xs

  module _ (total : (x y : A) → before x y ≡ false → before y x ≡ true)
      (trans : (x y z : A) → before x y ≡ true → before y z ≡ true → before x z ≡ true) where
    later_follow :
        (x y : A) (xs : List A)
        → before x y ≡ true
        → All (λ z. before y z ≡ true) xs
        → All (λ z. before x z ≡ true) xs
    later_follow x y [] h all = tt
    later_follow x y (z ∷ xs) h all = (trans x y z h all.0, later_follow x y xs h all.1)

    newcomer_follows :
        (x y : A) (xs : List A)
        → before y x ≡ true
        → All (λ z. before y z ≡ true) xs
        → All (λ z. before y z ≡ true) (insert x xs)
    newcomer_follows x y [] h all = (h, tt)
    newcomer_follows x y (z ∷ xs) h all = elim (Bool-cases (before x z)) [
      | inl first ↦ rw (first) (h, all)
      | inr later ↦ rw (later) (all.0, newcomer_follows x y xs h all.1)
    ]

    insert-IsSorted : (x : A) (xs : List A) → IsSorted xs → IsSorted (insert x xs)
    insert-IsSorted x [] sorted = (tt, tt)
    insert-IsSorted x (y ∷ ys) sorted = elim (Bool-cases (before x y)) [
      | inl first ↦ rw (first) ((first, later_follow x y ys first sorted.0), sorted)
      | inr later ↦
          rw (later)
            (newcomer_follows x y ys (total x y later) sorted.0, insert-IsSorted x ys sorted.1)
    ]

    pub sort-IsSorted : (xs : List A) → IsSorted (sort xs)
    sort-IsSorted [] = tt
    sort-IsSorted (x ∷ xs) = insert-IsSorted x (sort xs) (sort-IsSorted xs)

module _ {ℓ κ} {A : Type ℓ} (P : A → Type κ) where
  pub All-keep : (q : A → Bool) (xs : List A) → All P xs → All P (keep q xs)
  All-keep q [] all = tt
  All-keep q (x ∷ xs) all = elim (Bool-cases (q x)) [
    | inl stays ↦ rw (stays) (all.0, All-keep q xs all.1)
    | inr gone ↦ rw (gone) (All-keep q xs all.1)
  ]

  pub All-take : (n : ℕ) (xs : List A) → All P xs → All P (take n xs)
  All-take zero xs all = tt
  All-take (suc n) [] all = tt
  All-take (suc n) (x ∷ xs) all = (all.0, All-take n xs all.1)

  All-insert :
      (before : A → A → Bool) (x : A) (xs : List A) → P x → All P xs → All P (insert before x xs)
  All-insert before x [] h all = (h, tt)
  All-insert before x (y ∷ ys) h all = elim (Bool-cases (before x y)) [
    | inl first ↦ rw (first) (h, all)
    | inr later ↦ rw (later) (all.0, All-insert before x ys h all.1)
  ]

  pub All-sort : (before : A → A → Bool) (xs : List A) → All P xs → All P (sort before xs)
  All-sort before [] all = tt
  All-sort before (x ∷ xs) all =
      All-insert before x (sort before xs) all.0 (All-sort before xs all.1)

-- What is kept passes the test.
pub All-keep_passing {ℓ} :
    {A : Type ℓ} (q : A → Bool) (xs : List A) → All (λ a. q a ≡ true) (keep q xs)
All-keep_passing q [] = tt
All-keep_passing q (x ∷ xs) = elim (Bool-cases (q x)) [
  | inl stays ↦ rw (stays) (stays, All-keep_passing q xs)
  | inr gone ↦ rw (gone) (All-keep_passing q xs)
]

pub All-zip {ℓ κ μ} :
    {A : Type ℓ} (P : A → Type κ) (Q : A → Type μ) (xs : List A)
    → All P xs
    → All Q xs
    → All (λ a. P a × Q a) xs
All-zip P Q [] ps qs = tt
All-zip P Q (x ∷ xs) ps qs = ((ps.0, qs.0), All-zip P Q xs ps.1 qs.1)
