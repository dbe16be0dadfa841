-- ===== src/Evidence/Tests.antt =====
-- Small answers, and the theorems on them.
use memo_repo.Prelude.{◌≡◌, refl, true, set_has}
use memo_repo.Json.{Json, str, arr, obj, nil, cons, end, field}
use memo_repo.Evidence.{compact_cbm_value, compact_detail}
use memo_repo.Evidence.Compact.{is_clean, compact_cbm_value-clean, compact_cbm_value-fixed}

abbrev inner : Json
inner = obj (field "name" (str "f") end)

abbrev answer : Json
answer = arr (cons (obj (field "fp" (str "x") (field "at" inner end))) nil)

compact_cbm_value-clean_example : is_clean (compact_cbm_value answer compact_detail) ≡ true
compact_cbm_value-clean_example = compact_cbm_value-clean answer

compact_cbm_value-fixed_example : compact_cbm_value inner compact_detail ≡ inner
unfolding is_clean set_has
compact_cbm_value-fixed_example = compact_cbm_value-fixed inner compact_detail refl

answer-without_fp :
    compact_cbm_value answer compact_detail ≡ arr (cons (obj (field "at" inner end)) nil)
unfolding compact_cbm_value set_has
answer-without_fp = refl
