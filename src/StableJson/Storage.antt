-- ===== src/StableJson/Storage.antt =====
-- The canonical text of src/utils/stable-json.ts of a value that went through a jsonb column.
use ai_event_intelligence_ag.StableJson.{
  Json, Items, Fields, undefined, null, bool, num, str, arr, obj, nil, cons, end, field,
  insert_field, is_undefined, canonicalize, canonicalize_items, canonicalize_fields, stringify,
  stringify_items, stringify_fields, stable_stringify,
}
use ai_event_intelligence_ag.Base.TextOrder.{str_leb}
use ai_event_intelligence_ag.Base.{
  String, ◌≡◌, refl, sym, ap, ◌∙◌, false, arith, inl, inr, Bool-cases,
}
use ai_event_intelligence_ag.StableJson.Order.{Reordered, canonicalize_of_Reordered}
use ai_event_intelligence_ag.StableJson.Jsonb.{to_jsonb, to_jsonb-Reordered}

undefined_canonicalize : (v : Json) → is_undefined (canonicalize v) ≡ is_undefined v
unfolding canonicalize
undefined_canonicalize undefined = refl
undefined_canonicalize null = refl
undefined_canonicalize _ = refl

undefined_stringify : (v : Json) → is_undefined (stringify v) ≡ is_undefined v
unfolding stringify
undefined_stringify undefined = refl
undefined_stringify null = refl
undefined_stringify _ = refl

abbrev AllDefined : Fields → Type 0
AllDefined end = Unit
AllDefined (field k v fs) = (is_undefined v ≡ false) × AllDefined fs

insert_field-AllDefined :
    (k : String) (v : Json) (fs : Fields)
    → is_undefined v ≡ false
    → AllDefined fs
    → AllDefined (insert_field k v fs)
unfolding insert_field
insert_field-AllDefined k v end dv df = (dv, tt)
insert_field-AllDefined k v (field j w fs) dv df = elim (Bool-cases (str_leb k j)) [
  | inl before ↦ rw (before, insert_field) (dv, df)
  | inr after ↦ rw (after, insert_field) (df.0, insert_field-AllDefined k v fs dv df.1)
]

canonicalize_fields-AllDefined : (fs : Fields) → AllDefined (canonicalize_fields fs)
unfolding canonicalize_fields
canonicalize_fields-AllDefined end = tt
canonicalize_fields-AllDefined (field k v fs) = elim (Bool-cases (is_undefined v)) [
  | inl dropped ↦ rw (dropped, canonicalize_fields) (canonicalize_fields-AllDefined fs)
  | inr kept ↦
      rw (kept, canonicalize_fields)
        (insert_field-AllDefined k (canonicalize v) (canonicalize_fields fs)
          (undefined_canonicalize v ∙ kept) (canonicalize_fields-AllDefined fs))
]

stringify_fields-insert_field :
    (k : String) (v : Json) (fs : Fields)
    → is_undefined v ≡ false
    → AllDefined fs
    → stringify_fields (insert_field k v fs) ≡ insert_field k (stringify v) (stringify_fields fs)
unfolding insert_field stringify_fields
stringify_fields-insert_field k v end dv df = ground arith
stringify_fields-insert_field k v (field j w fs) dv df =
    ground (arith, stringify_fields-insert_field k v fs dv)

mutual
  unfolding canonicalize canonicalize_items canonicalize_fields stringify stringify_items
      stringify_fields

  stored : (v : Json) → stringify (canonicalize (stringify v)) ≡ stringify (canonicalize v)
  stored undefined = refl
  stored null = refl
  stored (bool b) = refl
  stored (num n) = refl
  stored (str s) = refl
  stored (arr xs) = ap arr (stored_items xs)
  stored (obj fs) = ap obj (stored_fields fs)

  stored_items :
      (xs : Items)
      → stringify_items (canonicalize_items (stringify_items xs))
        ≡ stringify_items (canonicalize_items xs)
  stored_items nil = refl
  stored_items (cons x xs) = ground (
    arith,
    undefined_stringify x,
    undefined_canonicalize x,
    undefined_canonicalize (stringify x),
    stored x,
    stored_items xs,
  )

  stored_fields :
      (fs : Fields)
      → stringify_fields (canonicalize_fields (stringify_fields fs))
        ≡ stringify_fields (canonicalize_fields fs)
  stored_fields end = refl
  stored_fields (field k v fs) = ground (
    arith,
    undefined_stringify v,
    undefined_canonicalize v,
    undefined_canonicalize (stringify v),
    canonicalize_fields-AllDefined fs,
    canonicalize_fields-AllDefined (stringify_fields fs),
    stringify_fields-insert_field k (canonicalize v) (canonicalize_fields fs),
    stringify_fields-insert_field k (canonicalize (stringify v))
        (canonicalize_fields (stringify_fields fs)),
    stored v,
    stored_fields fs,
  )

-- A value that was printed and comes back with the members of its objects in any other order, at every
-- depth, has the canonical text that it had before.
pub stable_stringify-Reordered :
    (v w : Json) → Reordered (stringify v) w → stable_stringify w ≡ stable_stringify v
unfolding stable_stringify
stable_stringify-Reordered v w r = ap stringify (sym (canonicalize_of_Reordered r)) ∙ stored v

pub stable_stringify-to_jsonb : (v : Json) → stable_stringify (to_jsonb v) ≡ stable_stringify v
stable_stringify-to_jsonb v = stable_stringify-Reordered v (to_jsonb v) (to_jsonb-Reordered v)
