-- ===== src/StableJson/Jsonb.antt =====
-- What a jsonb column holds of a value: the value that JSON.stringify printed, with the members of its
-- objects in the order in which Postgres keeps them, by the bytes of the key, shorter keys first. The objects
-- of the program have no key twice.
use Prim.Native.String as Text
use ai_event_intelligence_ag.StableJson.{
  Json, Items, Fields, undefined, null, bool, num, str, arr, obj, nil, cons, end, field, stringify,
}
use ai_event_intelligence_ag.StableJson.Order.{
  Reordered, ItemsReordered, FieldsReordered, unmoved, in_items, in_fields, no_items, each, kept,
  within, swapped, moved,
}
use ai_event_intelligence_ag.Base.{
  ◌≡◌, String, Bool, true, false, ◌&&◌, ◌||◌, ◌==◌, ltb, if◌then◌else◌, arith, inl, inr, Bool-cases,
  str_eq, eq_iff, ==_refl,
}
use ai_event_intelligence_ag.Base.TextOrder.{str_leb, str_leb_total}

abbrev key_leb : String → String → Bool
key_leb k j = ltb (Text.len k) (Text.len j) || (Text.len k == Text.len j && str_leb k j)

unfoldable place_field : String → Json → Fields → Fields
place_field k v end = field k v end
place_field k v (field j w fs) =
    if key_leb k j then field k v (field j w fs) else field j w (place_field k v fs)

unfoldable mutual
  reorder : Json → Json
  reorder undefined = undefined
  reorder null = null
  reorder (bool b) = bool b
  reorder (num n) = num n
  reorder (str s) = str s
  reorder (arr xs) = arr (reorder_items xs)
  reorder (obj fs) = obj (reorder_fields fs)

  reorder_items : Items → Items
  reorder_items nil = nil
  reorder_items (cons x xs) = cons (reorder x) (reorder_items xs)

  reorder_fields : Fields → Fields
  reorder_fields end = end
  reorder_fields (field k v fs) = place_field k (reorder v) (reorder_fields fs)

-- A value in a jsonb column.
unfoldable pub to_jsonb : Json → Json
unfolding reorder reorder_items reorder_fields place_field
to_jsonb v = reorder (stringify v)

key_leb_refl : (k : String) → key_leb k k ≡ true
key_leb_refl k = ground (arith, ==_refl (Text.len k), str_leb_total k k)

place_field-FieldsReordered :
    (k : String) (v : Json) (fs : Fields) → FieldsReordered (field k v fs) (place_field k v fs)
unfolding place_field
place_field-FieldsReordered k v end = kept (field k v end)
place_field-FieldsReordered k v (field j w fs) = elim (Bool-cases (key_leb k j)) [
  | inl before ↦ rw (before, place_field) (kept (field k v (field j w fs)))
  | inr after ↦
      let differ : str_eq k j ≡ false = ground (arith, eq_iff k j, key_leb_refl k) in
      rw (after, place_field)
        (moved (swapped k j v w fs differ)
          (within j (unmoved w) (place_field-FieldsReordered k v fs)))
]

mutual
  unfolding reorder reorder_items reorder_fields

  reorder-Reordered : (v : Json) → Reordered v (reorder v)
  reorder-Reordered undefined = unmoved undefined
  reorder-Reordered null = unmoved null
  reorder-Reordered (bool b) = unmoved (bool b)
  reorder-Reordered (num n) = unmoved (num n)
  reorder-Reordered (str s) = unmoved (str s)
  reorder-Reordered (arr xs) = in_items (reorder_items-ItemsReordered xs)
  reorder-Reordered (obj fs) = in_fields (reorder_fields-FieldsReordered fs)

  reorder_items-ItemsReordered : (xs : Items) → ItemsReordered xs (reorder_items xs)
  reorder_items-ItemsReordered nil = no_items
  reorder_items-ItemsReordered (cons x xs) =
      each (reorder-Reordered x) (reorder_items-ItemsReordered xs)

  reorder_fields-FieldsReordered : (fs : Fields) → FieldsReordered fs (reorder_fields fs)
  reorder_fields-FieldsReordered end = kept end
  reorder_fields-FieldsReordered (field k v fs) =
      moved (within k (reorder-Reordered v) (reorder_fields-FieldsReordered fs))
        (place_field-FieldsReordered k (reorder v) (reorder_fields fs))

-- A jsonb column reorders what was printed, and does nothing else to it.
pub to_jsonb-Reordered : (v : Json) → Reordered (stringify v) (to_jsonb v)
unfolding to_jsonb
to_jsonb-Reordered v = reorder-Reordered (stringify v)
