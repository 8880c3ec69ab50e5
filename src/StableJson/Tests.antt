-- ===== src/StableJson/Tests.antt =====
-- src/utils/stable-json.ts on a value whose members are out of order, one of them undefined.
use ai_event_intelligence_ag.Base.{◌≡◌, refl}
use ai_event_intelligence_ag.StableJson.{
  Json, undefined, num, obj, arr, cons, nil, end, field, stringify, stable_stringify,
}
use ai_event_intelligence_ag.StableJson.Storage.{stable_stringify-Reordered}
use ai_event_intelligence_ag.StableJson.Jsonb.{to_jsonb, to_jsonb-Reordered}

abbrev shuffled : Json
shuffled = obj (field "b" (num 2) (field "c" undefined (field "a" (arr (cons undefined nil)) end)))

stable_stringify-Reordered_example :
    stable_stringify (to_jsonb shuffled) ≡ stable_stringify shuffled
stable_stringify-Reordered_example =
    stable_stringify-Reordered shuffled (to_jsonb shuffled) (to_jsonb-Reordered shuffled)

sorted :
    stable_stringify shuffled ≡ obj (field "a" (arr (cons Json.null nil)) (field "b" (num 2) end))
unfolding stable_stringify
sorted = refl

-- A shorter key comes first in the column, and the canonical order goes by the characters.
abbrev keyed : Json
keyed = obj (field "aa" (num 1) (field "b" (num 2) end))

reordered : to_jsonb keyed ≡ obj (field "b" (num 2) (field "aa" (num 1) end))
unfolding to_jsonb stringify
reordered = refl

canonical : stable_stringify (to_jsonb keyed) ≡ stable_stringify keyed
unfolding to_jsonb stringify stable_stringify
canonical = refl
