-- ===== src/StableJson/Order.antt =====
-- Values that differ in the order of their members, and the canonical form of src/utils/stable-json.ts.
use ai_event_intelligence_ag.StableJson.{
  Json, Items, Fields, arr, obj, nil, cons, end, field, insert_field, is_undefined, canonicalize,
  canonicalize_items, canonicalize_fields,
}
use ai_event_intelligence_ag.Base.{String, ◌≡◌, refl, ap, ◌∙◌, false, arith, str_eq, eq_iff}
use ai_event_intelligence_ag.Base.TextOrder.{str_leb_antisym, str_leb_total, str_leb_trans}

-- One value is the other with the members of objects in another order, at any depth.
mutual
  pub data Reordered : Json → Json → Type 0 where
    unmoved : (v : Json) → Reordered v v
    in_items : {xs ys : Items} → ItemsReordered xs ys → Reordered (arr xs) (arr ys)
    in_fields : {fs gs : Fields} → FieldsReordered fs gs → Reordered (obj fs) (obj gs)

  pub data ItemsReordered : Items → Items → Type 0 where
    no_items : ItemsReordered nil nil
    each :
        {v w : Json} {xs ys : Items}
        → Reordered v w
        → ItemsReordered xs ys
        → ItemsReordered (cons v xs) (cons w ys)

  pub data FieldsReordered : Fields → Fields → Type 0 where
    kept : (fs : Fields) → FieldsReordered fs fs
    within :
        (k : String) {v w : Json} {fs gs : Fields}
        → Reordered v w
        → FieldsReordered fs gs
        → FieldsReordered (field k v fs) (field k w gs)
    swapped :
        (k j : String) (v w : Json) (fs : Fields)
        → str_eq k j ≡ false
        → FieldsReordered (field k v (field j w fs)) (field j w (field k v fs))
    moved :
        {fs gs hs : Fields} → FieldsReordered fs gs → FieldsReordered gs hs → FieldsReordered fs hs

-- Entries of different keys are inserted in either order.
insert_field_swap :
    (k j : String) (v w : Json) (fs : Fields)
    → str_eq k j ≡ false
    → insert_field k v (insert_field j w fs) ≡ insert_field j w (insert_field k v fs)
unfolding insert_field
insert_field_swap k j v w end differ =
    ground (arith, eq_iff k j, str_leb_total k j, str_leb_antisym k j)
insert_field_swap k j v w (field i x fs) differ = ground (
  arith,
  eq_iff k j,
  str_leb_total k j,
  str_leb_antisym k j,
  str_leb_total k i,
  str_leb_total j i,
  str_leb_trans k j i,
  str_leb_trans j k i,
  insert_field_swap k j v w fs differ,
)

undefined_of_Reordered : {v w : Json} → Reordered v w → is_undefined v ≡ is_undefined w
undefined_of_Reordered (unmoved v) = refl
undefined_of_Reordered (in_items r) = refl
undefined_of_Reordered (in_fields r) = refl

mutual
  unfolding canonicalize canonicalize_items canonicalize_fields

  pub canonicalize_of_Reordered : {v w : Json} → Reordered v w → canonicalize v ≡ canonicalize w
  canonicalize_of_Reordered (unmoved v) = refl
  canonicalize_of_Reordered (in_items r) = ap arr (items_of_Reordered r)
  canonicalize_of_Reordered (in_fields r) = ap obj (fields_of_Reordered r)

  items_of_Reordered :
      {xs ys : Items} → ItemsReordered xs ys → canonicalize_items xs ≡ canonicalize_items ys
  items_of_Reordered no_items = refl
  items_of_Reordered (each first rest) =
      cc (canonicalize_of_Reordered first, items_of_Reordered rest)

  fields_of_Reordered :
      {fs gs : Fields} → FieldsReordered fs gs → canonicalize_fields fs ≡ canonicalize_fields gs
  fields_of_Reordered (kept fs) = refl
  fields_of_Reordered (within k value rest) = ground (
    arith,
    undefined_of_Reordered value,
    canonicalize_of_Reordered value,
    fields_of_Reordered rest,
  )
  fields_of_Reordered (swapped k j v w fs differ) = ground (
    arith,
    insert_field_swap k j (canonicalize v) (canonicalize w) (canonicalize_fields fs) differ,
  )
  fields_of_Reordered (moved first second) = fields_of_Reordered first ∙ fields_of_Reordered second
