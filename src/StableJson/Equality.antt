-- ===== src/StableJson/Equality.antt =====
-- The comparison of canonical values: it holds of equal values, and of those alone.
use ai_event_intelligence_ag.StableJson.{
  Json, Items, Fields, undefined, null, bool, num, str, arr, obj, nil, cons, end, field, json_eq,
  items_eq, fields_eq,
}
use ai_event_intelligence_ag.Base.{◌≡◌, refl, ap, true, false, arith, eq_iff, &&-true, str_eq, ◌&&◌}

mutual
  unfolding json_eq items_eq fields_eq

  pub json_eq_refl : (v : Json) → json_eq v v ≡ true
  json_eq_refl undefined = refl
  json_eq_refl null = refl
  json_eq_refl (bool true) = refl
  json_eq_refl (bool false) = refl
  json_eq_refl (num n) = ground arith
  json_eq_refl (str s) = ground (arith, eq_iff s s)
  json_eq_refl (arr xs) = items_eq_refl xs
  json_eq_refl (obj fs) = fields_eq_refl fs

  items_eq_refl : (xs : Items) → items_eq xs xs ≡ true
  items_eq_refl nil = refl
  items_eq_refl (cons x xs) = ground (arith, json_eq_refl x, items_eq_refl xs)

  fields_eq_refl : (fs : Fields) → fields_eq fs fs ≡ true
  fields_eq_refl end = refl
  fields_eq_refl (field k v fs) = ground (arith, eq_iff k k, json_eq_refl v, fields_eq_refl fs)

mutual
  unfolding json_eq items_eq fields_eq

  pub json_eq_sound : (v w : Json) → json_eq v w ≡ true → v ≡ w
  json_eq_sound undefined undefined h = refl
  json_eq_sound null null h = refl
  json_eq_sound (bool true) (bool true) h = refl
  json_eq_sound (bool false) (bool false) h = refl
  json_eq_sound (num m) (num n) h = ground arith
  json_eq_sound (str s) (str t) h = ground (arith, eq_iff s t)
  json_eq_sound (arr xs) (arr ys) h = ap arr (items_eq_sound xs ys h)
  json_eq_sound (obj fs) (obj gs) h = ap obj (fields_eq_sound fs gs h)
  json_eq_sound _ _ h = cc

  items_eq_sound : (xs ys : Items) → items_eq xs ys ≡ true → xs ≡ ys
  items_eq_sound nil nil h = refl
  items_eq_sound (cons x xs) (cons y ys) h =
      let (head, rest) = &&-true (json_eq x y) (items_eq xs ys) h in
      cc (json_eq_sound x y head, items_eq_sound xs ys rest)
  items_eq_sound _ _ h = cc

  fields_eq_sound : (fs gs : Fields) → fields_eq fs gs ≡ true → fs ≡ gs
  fields_eq_sound end end h = refl
  fields_eq_sound (field k v fs) (field j w gs) h =
      let (more, rest) = &&-true (str_eq k j && json_eq v w) (fields_eq fs gs) h in
      let (key, value) = &&-true (str_eq k j) (json_eq v w) more in
      cc ((eq_iff k j).0 key, json_eq_sound v w value, fields_eq_sound fs gs rest)
  fields_eq_sound _ _ h = cc
