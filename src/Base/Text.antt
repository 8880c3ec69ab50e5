-- ===== src/Base/Text.antt =====
-- The operations on texts that the source takes from the language: `String.prototype.trim` and `||` on
-- texts, of which the empty one is falsy.
use Prim.Native.Nat.{ℕ, ◌-◌}
use Prim.Native.Char.{Char, code}
use Prim.Native.String.{String, [], ◌∷◌, ◌++◌}
use mathlib.Core.Bool.{Bool, true, false, ◌&&◌, ◌||◌}
use mathlib.Core.Option.{Option, none, some}
use ai_event_intelligence_ag.Base.Tests.{◌==◌, leb, if◌then◌else◌}

abbrev pub is_empty : String → Bool
is_empty [] = true
is_empty (c ∷ s) = false

-- White space and line terminators of ECMAScript.
abbrev pub is_space : Char → Bool
is_space c =
    (leb 9 (code c) && leb (code c) 13)
    || (code c == 32)
    || (code c == 160)
    || (code c == 5760)
    || (leb 8192 (code c) && leb (code c) 8202)
    || (code c == 8232)
    || (code c == 8233)
    || (code c == 8239)
    || (code c == 8287)
    || (code c == 12288)
    || (code c == 65279)

abbrev pub trim_start : String → String
trim_start [] = ""
trim_start (c ∷ s) = let rest = trim_start s in if is_space c then rest else c ∷ s

abbrev pub trim_end : String → String
trim_end [] = ""
trim_end (c ∷ s) = let rest = trim_end s in if is_space c && is_empty rest then "" else c ∷ rest

abbrev pub trim : String → String
trim s = trim_start (trim_end s)

-- `a?.trim() || b`
abbrev pub trimmed_or : Option String → String → String
trimmed_or none other = other
trimmed_or (some s) other = let t = trim s in if is_empty t then other else t

-- `.replace(/\s+/g, ' ')`: a run of spaces is one blank; the flag says that the run has begun.
abbrev pub collapse : Bool → String → String
collapse inside [] = ""
collapse inside (c ∷ s) =
    let rest = collapse (is_space c) s in
    if is_space c then if inside then rest else " " ++ rest else c ∷ rest

-- `s.slice(0, n)`, in code units: a character beyond the first plane counts as two, and is left out if
-- only one of them fits.
abbrev pub first_units : ℕ → String → String
first_units n [] = ""
first_units n (c ∷ s) =
    let size = if leb 65536 (code c) then 2 else 1 in
    let rest = first_units (n - size) s in if leb size n then c ∷ rest else ""
