-- ===== src/Base/TextOrder.antt =====
-- The order of texts by the codes of their characters, which `<` of the source and the database use: total,
-- antisymmetric and transitive.
use Prim.Native.Nat.{Ordering}
use Prim.Native.String.compare
use Prim.Native.String.{String, [], ◌∷◌, compare}
use text.Mathlib.TextEquality.{path_by_compare}
use ai_event_intelligence_ag.Base.{◌≡◌, Bool, true, false, arith}

-- `a < b` or equal, on texts
abbrev pub str_leb : String → String → Bool
str_leb a b = elim (compare a b) [ Ordering.gt ↦ false | _ ↦ true ]

str_leb_nil : (b : String) → str_leb [] b ≡ true
str_leb_nil [] = ground (arith, compare.nil-nil)
str_leb_nil (y ∷ b) = ground (arith, compare.nil-cons y b)

pub str_leb_trans : (a b c : String) → str_leb a b ≡ true → str_leb b c ≡ true → str_leb a c ≡ true
str_leb_trans [] b c first second = str_leb_nil c
str_leb_trans (x ∷ a) [] c first second = absurd (ground (arith, compare.cons-nil x a))
str_leb_trans (x ∷ a) (y ∷ b) [] first second = absurd (ground (arith, compare.cons-nil y b))
str_leb_trans (x ∷ a) (y ∷ b) (z ∷ c) first second = ground (
  arith,
  compare.cons-cons x y a b,
  compare.cons-cons y z b c,
  compare.cons-cons x z a c,
  str_leb_trans a b c,
)

pub str_leb_total : (a b : String) → str_leb a b ≡ false → str_leb b a ≡ true
str_leb_total [] b h = absurd (ground (arith, str_leb_nil b))
str_leb_total (x ∷ a) [] h = str_leb_nil (x ∷ a)
str_leb_total (x ∷ a) (y ∷ b) h =
    ground (arith, compare.cons-cons x y a b, compare.cons-cons y x b a, str_leb_total a b)

compare_antisym :
    (a b : String) → str_leb a b ≡ true → str_leb b a ≡ true → compare a b ≡ Ordering.eq
compare_antisym [] [] first second = compare.nil-nil
compare_antisym [] (y ∷ b) first second = absurd (ground (arith, compare.cons-nil y b))
compare_antisym (x ∷ a) [] first second = absurd (ground (arith, compare.cons-nil x a))
compare_antisym (x ∷ a) (y ∷ b) first second =
    ground (arith, compare.cons-cons x y a b, compare.cons-cons y x b a, compare_antisym a b)

pub str_leb_antisym : (a b : String) → str_leb a b ≡ true → str_leb b a ≡ true → a ≡ b
str_leb_antisym a b first second = path_by_compare a b (compare_antisym a b first second)
