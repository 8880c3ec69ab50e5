-- ===== src/StableJson.antt =====
-- src/utils/stable-json.ts: JSON values and their canonical form, by which stored and fresh
-- observation values are compared. `JSON.stringify` is the tree that its text spells: two texts are
-- equal exactly when their trees are. Numbers are counts of 10⁻⁹ units: CVSS scores and EPSS
-- probabilities have at most nine decimals and are not negative.
pub mod Equality
pub mod Order
pub mod Jsonb
pub mod Storage
mod Tests
use ai_event_intelligence_ag.Base.{
  ℕ, ◌*◌, ◌^◌, String, Bool, true, false, ◌&&◌, ◌==◌, Option, none, some, if◌then◌else◌, str_eq,
}
use ai_event_intelligence_ag.Base.TextOrder.{str_leb}

mutual
  pub data Json : Type 0 where
    undefined : Json
    null : Json
    bool : Bool → Json
    num : ℕ → Json
    str : String → Json
    arr : Items → Json
    obj : Fields → Json

  pub data Items : Type 0 where
    nil : Items
    cons : Json → Items → Items

  pub data Fields : Type 0 where
    end : Fields
    field : String → Json → Fields → Fields

-- A whole number of JavaScript as a JSON number.
abbrev pub units : ℕ → ℕ
units n = n * 10 ^ 9

-- One step of the sort of the entries by key.
unfoldable pub insert_field : String → Json → Fields → Fields
insert_field k v end = field k v end
insert_field k v (field j w fs) =
    if str_leb k j then field k v (field j w fs) else field j w (insert_field k v fs)

abbrev pub is_undefined : Json → Bool
is_undefined undefined = true
is_undefined _ = false

-- The entries of an object lose their undefined members and are sorted by key, at every depth.
unfoldable mutual
  pub canonicalize : Json → Json
  canonicalize undefined = undefined
  canonicalize null = null
  canonicalize (bool b) = bool b
  canonicalize (num n) = num n
  canonicalize (str s) = str s
  canonicalize (arr xs) = arr (canonicalize_items xs)
  canonicalize (obj fs) = obj (canonicalize_fields fs)

  pub canonicalize_items : Items → Items
  canonicalize_items nil = nil
  canonicalize_items (cons x xs) = cons (canonicalize x) (canonicalize_items xs)

  pub canonicalize_fields : Fields → Fields
  canonicalize_fields end = end
  canonicalize_fields (field k v fs) =
      let rest = canonicalize_fields fs in
      if is_undefined v then rest else insert_field k (canonicalize v) rest

-- What `JSON.stringify` prints: an undefined item is printed as null, an undefined member not at all.
unfoldable mutual
  pub stringify : Json → Json
  stringify undefined = undefined
  stringify null = null
  stringify (bool b) = bool b
  stringify (num n) = num n
  stringify (str s) = str s
  stringify (arr xs) = arr (stringify_items xs)
  stringify (obj fs) = obj (stringify_fields fs)

  pub stringify_items : Items → Items
  stringify_items nil = nil
  stringify_items (cons x xs) =
      cons (if is_undefined x then null else stringify x) (stringify_items xs)

  pub stringify_fields : Fields → Fields
  stringify_fields end = end
  stringify_fields (field k v fs) =
      let rest = stringify_fields fs in if is_undefined v then rest else field k (stringify v) rest

unfoldable pub stable_stringify : Json → Json
unfolding canonicalize canonicalize_items canonicalize_fields insert_field stringify stringify_items
    stringify_fields
stable_stringify v = stringify (canonicalize v)

-- Equality of printed values.
unfoldable mutual
  pub json_eq : Json → Json → Bool
  json_eq undefined undefined = true
  json_eq null null = true
  json_eq (bool true) (bool true) = true
  json_eq (bool false) (bool false) = true
  json_eq (num m) (num n) = m == n
  json_eq (str s) (str t) = str_eq s t
  json_eq (arr xs) (arr ys) = items_eq xs ys
  json_eq (obj fs) (obj gs) = fields_eq fs gs
  json_eq _ _ = false

  pub items_eq : Items → Items → Bool
  items_eq nil nil = true
  items_eq (cons x xs) (cons y ys) = json_eq x y && items_eq xs ys
  items_eq _ _ = false

  pub fields_eq : Fields → Fields → Bool
  fields_eq end end = true
  fields_eq (field k v fs) (field j w gs) = str_eq k j && json_eq v w && fields_eq fs gs
  fields_eq _ _ = false

-- `value?.key`: undefined unless the value is an object that has the member.
abbrev pub lookup : String → Fields → Json
lookup k end = undefined
lookup k (field j v fs) = if str_eq j k then v else lookup k fs

abbrev pub member : String → Json → Json
member k (obj fs) = lookup k fs
member k _ = undefined

-- `a ?? b`
infixr 30 ◌or_json◌
abbrev pub ◌or_json◌ : Json → Json → Json
undefined or_json b = b
null or_json b = b
(bool c) or_json b = bool c
(num n) or_json b = num n
(str s) or_json b = str s
(arr xs) or_json b = arr xs
(obj fs) or_json b = obj fs

-- `typeof v === 'number' && Number.isFinite(v) ? v : null`
abbrev pub number? : Json → Option ℕ
number? (num n) = some n
number? _ = none

-- `v === true`
abbrev pub is_true : Json → Bool
is_true (bool b) = b
is_true _ = false
